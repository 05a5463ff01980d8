-- ===== src/Provider/Email/LaidOut.antt =====
-- What the layout of an e-mail makes of its body.
use Prim.Native.String.{◌++◌ as ◌<>◌}
use text.Mathlib.TextLemmas.{append-nil}
use mathlib.Core.Path.{subst}
use message_delivery.Prelude.{
  String, Bool, Bool-cases, true, false, not, ◌==◌, eq_iff, ◌≡◌, ◌≢◌, ◌⊎◌, inl, inr, refl, sym, ap,
  ◌∙◌, if◌then◌else◌, arith,
}
use message_delivery.Prelude.Fallible.{ok, err, >>=-eq-ok, guarded-eq-ok}
use message_delivery.Prelude.Dict
use message_delivery.Prelude.Text.{replace_pairs}
use message_delivery.Provider.{Message}
use message_delivery.Provider.Email.Message.{
  Brand, MailSources, Mail, Unsubscribe, unsubscribe_of, unsubscribe_at, layout_of, laid_out,
  apply_layout, type_of, html_of, anchor, as_document, slots_once, invalid_layout,
  invalid_unsubscribe_url, missing_unsubscribe_label, linked, is_unsubscribe_url,
  unsubscribe_headers, no_unsubscribe,
}
use message_delivery.Provider.Email.{Smtp, identity_of, message}
use message_delivery.Provider.Email.Branded.{IsBuilt, message-IsMessage}
use message_delivery.Provider.Email.Layout.{Slot, body, footer, pairs}
use message_delivery.Provider.Email.Layout.Filled.{IsFilled, replace_pairs-IsFilled}

-- What the two slots are filled with.
abbrev pub values : String → String → Slot → String
values html foot body = html
values html foot footer = foot

-- The link to unsubscribe that a layout shows.
abbrev pub link : String → String → String
link address label =
    "<br><br>" <> anchor address " style=\"color:#a5adbd;text-decoration:underline\"" label

apply_layout-IsFilled :
    (layout text content_type foot out : String)
    → apply_layout layout text content_type foot ≡ ok out
    → IsFilled (values (html_of text content_type) foot) layout out
unfolding apply_layout
apply_layout-IsFilled layout text content_type foot out h =
    let (slots, filled) = guarded-eq-ok (not (slots_once layout)) invalid_layout _ h in
    let html : String = html_of text content_type in
    let same : replace_pairs (pairs (values html foot)) layout ≡ out = cc (filled) in
    subst (IsFilled (values html foot) layout) same
      (replace_pairs-IsFilled (values html foot) layout (ground arith) (ground arith))

-- What a layout shows of the link to unsubscribe: it stands in the footer, if anywhere.
abbrev IsInFooter : String → String → Unsubscribe → Type 0
IsInFooter address label u = (u.appended ≡ "") × ((u.footer ≡ "") ⊎ (u.footer ≡ link address label))

linked-IsInFooter :
    (address label layout content_type : String)
    → (layout == "") ≡ false
    → IsInFooter address label (linked address label layout content_type)
linked-IsInFooter address label layout content_type some_layout = rw some_layout (refl, inr refl)

accepted-IsInFooter :
    (address label : String) (in_body : Bool) (layout content_type : String) (u : Unsubscribe)
    → (layout == "") ≡ false
    → (if in_body
        then ok (record { headers = unsubscribe_headers address; appended = ""; footer = "" })
        else if label == ""
        then err missing_unsubscribe_label
        else ok (linked address label layout content_type))
      ≡ ok u
    → IsInFooter address label u
accepted-IsInFooter address label true layout content_type u some_layout h =
    let same : record { headers = unsubscribe_headers address; appended = ""; footer = "" } ≡ u =
      cc (h) in
    subst (IsInFooter address label) same (refl, inl refl)
accepted-IsInFooter address label false layout content_type u some_layout h =
    let (_, made) = guarded-eq-ok (label == "") missing_unsubscribe_label _ h in
    let same : linked address label layout content_type ≡ u = cc (made) in
    subst (IsInFooter address label) same
      (linked-IsInFooter address label layout content_type some_layout)

unsubscribe_at-IsInFooter :
    (sources : MailSources) (address label : String) (in_body : Bool) (layout content_type : String)
    (u : Unsubscribe)
    → (layout == "") ≡ false
    → unsubscribe_at sources address label in_body layout content_type ≡ ok u
    → IsInFooter address label u
unfolding unsubscribe_at
unsubscribe_at-IsInFooter sources address label in_body layout content_type u some_layout h =
    elim (Bool-cases (address == "")) [
      | inl missing ↦
          let same : no_unsubscribe ≡ u = cc (rw (missing, unsubscribe_at) at h) in
          subst (IsInFooter address label) same (refl, inl refl)
      | inr given ↦
          let (_, rest) =
            guarded-eq-ok (not (is_unsubscribe_url sources address)) invalid_unsubscribe_url _
              (rw (given, unsubscribe_at) at h) in
          accepted-IsInFooter address label in_body layout content_type u some_layout rest
    ]

laid_out-IsFilled :
    (layout text content_type foot out out_type : String)
    → (layout == "") ≡ false
    → laid_out layout text content_type foot ≡ ok (out, out_type)
    → (out_type ≡ "text/html") × IsFilled (values (html_of text content_type) foot) layout out
unfolding laid_out
laid_out-IsFilled layout text content_type foot out out_type some_layout h =
    let (applied, made, rest) =
      >>=-eq-ok (apply_layout layout text content_type foot) _ (rw (some_layout, laid_out) at h) in
    let same : applied ≡ out = cc (rest) in
    (
      cc (rest),
      subst (IsFilled (values (html_of text content_type) foot) layout) same
          (apply_layout-IsFilled layout text content_type foot applied made),
    )

-- What a layout makes of a message, the link being given by its address and label.
abbrev pub IsLaidOut : Message → String → Mail → Type 0
IsLaidOut msg layout mail =
    (foot : String) × (text : String) × IsFilled (values (html_of msg.body (type_of msg)) foot)
      layout text
    × ((foot ≡ "")
        ⊎ (foot
            ≡ link (Dict.index "email_unsubscribe_url" msg.metadata)
                (Dict.index "email_unsubscribe_label" msg.metadata)))
    × (mail.content_type ≡ "text/html")
    × (mail.body ≡ as_document "text/html" text)

append_nothing : (s t : String) → t ≡ "" → s <> t ≡ s
append_nothing s t nothing = ap (λ r. s <> r) nothing ∙ append-nil s

built-IsLaidOut :
    (sources : MailSources) (from : String) (msg : Message) (layout : String) (mail : Mail)
    → IsBuilt sources from msg layout mail
    → (layout_of msg layout == "") ≡ false
    → IsLaidOut msg (layout_of msg layout) mail
unfolding unsubscribe_of
built-IsLaidOut sources from msg layout mail b some_layout =
    let (nothing, link_or_none) =
      unsubscribe_at-IsInFooter sources (Dict.index "email_unsubscribe_url" msg.metadata)
        (Dict.index "email_unsubscribe_label" msg.metadata)
        (Dict.index "email_unsubscribe_in_body" msg.metadata == "true") (layout_of msg layout)
        (type_of msg) b.unsubscribe some_layout b.unsubscribes in
    let (is_html, is_filled) =
      laid_out-IsFilled (layout_of msg layout) (msg.body <> b.unsubscribe.appended) (type_of msg)
        b.unsubscribe.footer b.text b.text_type some_layout b.laid in
    (
      b.unsubscribe.footer,
      b.text,
      subst
          (λ t.
            IsFilled (values (html_of t (type_of msg)) b.unsubscribe.footer) (layout_of msg layout)
              b.text)
          (append_nothing msg.body b.unsubscribe.appended nothing) is_filled,
      link_or_none,
      b.content_type ∙ is_html,
      b.body ∙ ap (λ t. as_document t b.text) is_html,
    )

-- An e-mail that is made with a layout is HTML, and its text is the layout with the message's body,
-- escaped if it is no HTML, in the one slot for the body, and the link to unsubscribe or nothing in
-- the one slot for the footer. Nothing else of the layout is changed, and slots that the body or the
-- link hold stay as they are.
pub message-IsLaidOut :
    (sources : MailSources) (p : Smtp) (msg : Message) (mail : Mail) (brand : Brand)
    → identity_of p msg ≡ ok brand
    → layout_of msg brand.layout ≢ ""
    → message sources p msg ≡ ok mail
    → IsLaidOut msg (layout_of msg brand.layout) mail
message-IsLaidOut sources p msg mail brand identity some_layout h =
    let m = message-IsMessage sources p msg mail h in
    let same : brand ≡ m.brand = cc (m.identity, identity) in
    let given : (layout_of msg m.brand.layout == "") ≡ false =
      rw (← same) (ground (arith, eq_iff (layout_of msg brand.layout) "")) in
    let (foot, text, filled, link_or_none, is_html, is_body) =
      built-IsLaidOut sources m.brand.from msg m.brand.layout m.plain m.built given in
    (
      foot,
      text,
      subst
          (λ b.
            IsFilled (values (html_of msg.body (type_of msg)) foot) (layout_of msg b.layout) text)
          (sym same) filled,
      link_or_none,
      m.content_type ∙ is_html,
      m.body ∙ is_body,
    )

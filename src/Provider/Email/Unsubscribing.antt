-- ===== src/Provider/Email/Unsubscribing.antt =====
-- Which e-mails name an address to unsubscribe, and what that address is.
use Prim.Native.String.{len, ◌++◌ as ◌<>◌}
use message_delivery.Prelude.{
  ℕ, ◌≤◌, String, Bool, Bool-cases, Option-cases, true, false, ◌==◌, eq_iff, ◌≡◌, ◌≢◌, ◌⊎◌, inl,
  inr, refl, sym, ap, ◌∙◌, none, some, List, [], ◌++◌, arith, if◌then◌else◌, not,
}
use message_delivery.Prelude.Fallible.{Fallible, ok, err, guarded-eq-ok}
use message_delivery.Prelude.Dict
use message_delivery.Provider.{Message}
use message_delivery.Provider.Email.Message.{
  MailSources, Mail, MailError, Unsubscribe, UnsubscribeUrl, has_bad_char, is_unsubscribe_url,
  unsubscribe_headers, unsubscribe_of, base_headers, linked, invalid_unsubscribe_url,
  unsubscribe_at, missing_unsubscribe_label, layout_of, type_of,
}
use message_delivery.Provider.Email.{Smtp, message}
use message_delivery.Provider.Email.Branded.{message-IsMessage}

-- An https address of a host, without a user and a fragment, of at most 2048 bytes, in which there
-- is no white space, quote or angle bracket.
pub record IsLink (sources : MailSources) (address : String) : Type 0 where
  pub url : UnsubscribeUrl
  pub parsed : sources.parse_url address ≡ some url
  pub scheme : url.scheme ≡ "https"
  pub hostname : url.hostname ≢ ""
  pub user : url.has_user ≡ false
  pub fragment : url.fragment ≡ ""
  pub short : len address ≤ 2048
  pub clean : has_bad_char address ≡ false

is_unsubscribe_url-IsLink :
    (sources : MailSources) (address : String)
    → is_unsubscribe_url sources address ≡ true
    → IsLink sources address
unfolding is_unsubscribe_url
is_unsubscribe_url-IsLink sources address h = elim (Option-cases (sources.parse_url address)) [
  | inl unparsed ↦ cc (rw (unparsed, is_unsubscribe_url) at h)
  | inr (u, parsed) ↦
      let held = rw (parsed, is_unsubscribe_url) at h in
      record {
        url = u;
        parsed = parsed;
        scheme = ground (arith, eq_iff u.scheme "https");
        hostname = ground (arith, eq_iff u.hostname "");
        user = ground arith;
        fragment = ground (arith, eq_iff u.fragment "");
        short = ground arith;
        clean = ground arith;
      }
]

-- What the link adds to the headers: nothing without an address, and otherwise the two headers of an
-- address that was accepted.
abbrev Unsubscribes : MailSources → String → Dict.Dict String → Type 0
Unsubscribes sources address headers =
    ((address ≡ "") × (headers ≡ []))
    ⊎ ((address ≢ "")
        × (is_unsubscribe_url sources address ≡ true)
        × (headers ≡ unsubscribe_headers address))

linked_headers :
    (address label layout content_type : String)
    → (linked address label layout content_type).headers ≡ unsubscribe_headers address
linked_headers address label layout content_type = ground arith

ok-injective : {x y : Unsubscribe} → ◌≡◌ {A = Fallible MailError Unsubscribe} (ok x) (ok y) → x ≡ y
ok-injective h = cc

accepted_headers :
    (address label : String) (in_body : Bool) (layout content_type : String) (u : Unsubscribe)
    → (if in_body
        then ok (record { headers = unsubscribe_headers address; appended = ""; footer = "" })
        else if label == ""
        then err missing_unsubscribe_label
        else ok (linked address label layout content_type))
      ≡ ok u
    → u.headers ≡ unsubscribe_headers address
accepted_headers address label true layout content_type u h =
    sym (ap (λ v. v.headers) (ok-injective h))
accepted_headers address label false layout content_type u h =
    let (_, made) = guarded-eq-ok (label == "") missing_unsubscribe_label _ h in
    sym (ap (λ v. v.headers) (ok-injective made)) ∙ linked_headers address label layout content_type

unsubscribe_at-Unsubscribes :
    (sources : MailSources) (address label : String) (in_body : Bool) (layout content_type : String)
    (u : Unsubscribe)
    → unsubscribe_at sources address label in_body layout content_type ≡ ok u
    → Unsubscribes sources address u.headers
unfolding unsubscribe_at
unsubscribe_at-Unsubscribes sources address label in_body layout content_type u h =
    elim (Bool-cases (address == "")) [
      | inl missing ↦ inl (
        (eq_iff address "").0 missing,
        sym (ap (λ v. v.headers) (ok-injective (rw (missing, unsubscribe_at) at h))),
      )
      | inr given ↦
          let (fine, rest) =
            guarded-eq-ok (not (is_unsubscribe_url sources address)) invalid_unsubscribe_url _
              (rw (given, unsubscribe_at) at h) in
          inr (
            ground (arith, eq_iff address ""),
            ground arith,
            accepted_headers address label in_body layout content_type u rest,
          )
    ]

unsubscribe_of-Unsubscribes :
    (sources : MailSources) (msg : Message) (layout content_type : String) (u : Unsubscribe)
    → unsubscribe_of sources msg layout content_type ≡ ok u
    → Unsubscribes sources (Dict.index "email_unsubscribe_url" msg.metadata) u.headers
unfolding unsubscribe_of
unsubscribe_of-Unsubscribes sources msg layout content_type u h =
    unsubscribe_at-Unsubscribes sources (Dict.index "email_unsubscribe_url" msg.metadata)
      (Dict.index "email_unsubscribe_label" msg.metadata)
      (Dict.index "email_unsubscribe_in_body" msg.metadata == "true") layout content_type u h

after_base :
    (from : String) (msg : Message) (address : String) (identifier : List ℕ)
    (more : Dict.Dict String)
    → Dict.lookup "List-Unsubscribe" (base_headers from msg address identifier ++ more)
      ≡ Dict.lookup "List-Unsubscribe" more
unfolding base_headers Dict.lookup
after_base from msg address identifier more = refl

-- A header "List-Unsubscribe" of such headers.
header_of :
    (sources : MailSources) (address : String) (headers : Dict.Dict String)
    → Unsubscribes sources address headers
    → ((address ≡ "") × (Dict.lookup "List-Unsubscribe" headers ≡ none))
      ⊎ (IsLink sources address
          × (Dict.lookup "List-Unsubscribe" headers ≡ some ("<" <> address <> ">")))
unfolding Dict.lookup
header_of sources address headers (inl (missing, no_headers)) =
    inl (missing, ap (λ hs. Dict.lookup "List-Unsubscribe" hs) no_headers)
header_of sources address headers (inr (given, safe, two)) = inr (
  is_unsubscribe_url-IsLink sources address safe,
  ap (λ hs. Dict.lookup "List-Unsubscribe" hs) two,
)

-- An e-mail that is made has no header to unsubscribe where its event names no address for it, and
-- otherwise the header is that address in angle brackets, and the address is an https link of at
-- most 2048 bytes without white space, quotes or brackets in it.
pub message-IsLink :
    (sources : MailSources) (p : Smtp) (msg : Message) (mail : Mail)
    → message sources p msg ≡ ok mail
    → ((Dict.index "email_unsubscribe_url" msg.metadata ≡ "")
        × (Dict.lookup "List-Unsubscribe" mail.headers ≡ none))
      ⊎ (IsLink sources (Dict.index "email_unsubscribe_url" msg.metadata)
          × (Dict.lookup "List-Unsubscribe" mail.headers
              ≡ some ("<" <> Dict.index "email_unsubscribe_url" msg.metadata <> ">")))
message-IsLink sources p msg mail h =
    let m = message-IsMessage sources p msg mail h in
    let address : String = Dict.index "email_unsubscribe_url" msg.metadata in
    let same : Dict.lookup "List-Unsubscribe" mail.headers
        ≡ Dict.lookup "List-Unsubscribe" m.built.unsubscribe.headers =
      ap (λ hs. Dict.lookup "List-Unsubscribe" hs) (m.headers ∙ m.built.headers)
      ∙ after_base m.brand.from msg m.built.address m.built.identifier
          m.built.unsubscribe.headers in
    rw same (
      header_of sources address m.built.unsubscribe.headers (
        unsubscribe_of-Unsubscribes sources msg (layout_of msg m.brand.layout) (type_of msg)
          m.built.unsubscribe m.built.unsubscribes))

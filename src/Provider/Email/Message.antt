-- ===== src/Provider/Email/Message.antt =====
-- The messages of the e-mail provider: internal/provider/email/brand.go, layout.go and message.go.
use Prim.Native.String.{len, ◌++◌ as ◌<>◌}
use message_delivery.Prelude.{
  ℕ, String, Bool, false, not, ◌&&◌, ◌||◌, ◌==◌, Option, none, some, List, [], ◌∷◌, ◌++◌, ltb, eqb,
  if◌then◌else◌,
}
use message_delivery.Prelude.Fallible.{Fallible, ok, err, ◌>>=◌}
use message_delivery.Prelude.Dict
use message_delivery.Prelude.Dict.{Dict}
use message_delivery.Prelude.Text.{
  has_prefix_lower, contains_lower, contains_any, count_text, replace_pairs, escape_string,
  after_last_char,
}
use message_delivery.Provider.{Message}
use message_delivery.Delivery.EventId.{hex_encode}

pub record Brand : Type 0 where
  pub from : String
  pub layout : String
  pub logo_file : String

-- What `url.Parse` reads of an address.
pub record UnsubscribeUrl : Type 0 where
  pub scheme : String
  pub hostname : String
  pub has_user : Bool
  pub fragment : String

-- `mail.ParseAddress`, of which the address counts; `url.Parse`; the sixteen bytes of `rand.Read`.
pub record MailSources : Type 0 where
  pub parse_address : String → Option String
  pub parse_url : String → Option UnsubscribeUrl
  pub random : Option (List ℕ)

-- What a message of gomail is given: the headers in the order of the calls, the body with its type,
-- and the file that is embedded as "brand-logo.png".
pub record Mail : Type 0 where
  pub headers : Dict String
  pub content_type : String
  pub body : String
  pub logo : Option String

pub data MailError : Type 0 where
  invalid_sender no_identifier invalid_unsubscribe_url missing_unsubscribe_label : MailError
  invalid_layout unknown_brand : MailError

abbrev pub is_html : String → Bool
is_html content_type = has_prefix_lower content_type "text/html"

abbrev pub slots_once : String → Bool
slots_once layout = eqb (count_text layout "{{body}}") 1 && eqb (count_text layout "{{footer}}") 1

abbrev pub html_of : String → String → String
html_of body content_type =
    if not (is_html content_type)
    then "<p style=\"margin:0 0 16px;line-height:1.65;white-space:pre-wrap\">"
      <> escape_string body
      <> "</p>"
    else body

-- `applyLayout`
unfoldable pub apply_layout : String → String → String → String → Fallible MailError String
unfolding count_text has_prefix_lower escape_string replace_pairs
apply_layout layout body content_type footer =
    if not (slots_once layout)
    then err invalid_layout
    else ok (
        replace_pairs (("{{body}}", html_of body content_type) ∷ ("{{footer}}", footer) ∷ [])
          layout)

-- What the link to unsubscribe adds: headers, a text behind the body, and a footer of the layout.
pub record Unsubscribe : Type 0 where
  pub headers : Dict String
  pub appended : String
  pub footer : String

abbrev pub no_unsubscribe : Unsubscribe
no_unsubscribe = record { headers = []; appended = ""; footer = "" }

-- `strings.ContainsAny(address, "\r\n\t <>\"")`
abbrev pub has_bad_char : String → Bool
has_bad_char address = contains_any address (13 ∷ 10 ∷ 9 ∷ 32 ∷ 60 ∷ 62 ∷ 34 ∷ [])

unfoldable pub is_unsubscribe_url : MailSources → String → Bool
unfolding contains_any
is_unsubscribe_url sources address = elim (sources.parse_url address) [
  | none ↦ false
  | some u ↦
      not (ltb 2048 (len address))
      && u.scheme == "https"
      && not (u.hostname == "")
      && not u.has_user
      && u.fragment == ""
      && not (has_bad_char address)
]

abbrev pub unsubscribe_headers : String → Dict String
unsubscribe_headers address =
    ("List-Unsubscribe", "<" <> address <> ">")
    ∷ ("List-Unsubscribe-Post", "List-Unsubscribe=One-Click")
    ∷ []

abbrev pub anchor : String → String → String → String
anchor address style label =
    "<a href=\"" <> escape_string address <> "\"" <> style <> ">" <> escape_string label <> "</a>"

-- The link with its label, in the footer of a layout, or behind a body of HTML or of text.
abbrev pub linked : String → String → String → String → Unsubscribe
linked address label layout content_type =
    if not (layout == "")
    then record {
      headers = unsubscribe_headers address;
      appended = "";
      footer =
          "<br><br>" <> anchor address " style=\"color:#a5adbd;text-decoration:underline\"" label;
    }
    else if is_html content_type
    then record {
      headers = unsubscribe_headers address;
      appended = "<p>" <> anchor address "" label <> "</p>";
      footer = "";
    }
    else record {
      headers = unsubscribe_headers address;
      appended = "\n\n" <> label <> ": " <> address;
      footer = "";
    }

-- The address and the label of the message's metadata; `in_body` if the body has the link already.
unfoldable pub unsubscribe_at :
    MailSources → String → String → Bool → String → String → Fallible MailError Unsubscribe
unfolding is_unsubscribe_url has_prefix_lower escape_string
unsubscribe_at sources address label in_body layout content_type =
    if address == ""
    then ok no_unsubscribe
    else if not (is_unsubscribe_url sources address)
    then err invalid_unsubscribe_url
    else if in_body
    then ok (record { headers = unsubscribe_headers address; appended = ""; footer = "" })
    else if label == ""
    then err missing_unsubscribe_label
    else ok (linked address label layout content_type)

unfoldable pub unsubscribe_of :
    MailSources → Message → String → String → Fallible MailError Unsubscribe
unfolding unsubscribe_at Dict.index
unsubscribe_of sources msg layout content_type =
    unsubscribe_at sources (Dict.index "email_unsubscribe_url" msg.metadata)
      (Dict.index "email_unsubscribe_label" msg.metadata)
      (Dict.index "email_unsubscribe_in_body" msg.metadata == "true") layout content_type

-- The headers of every message.
unfoldable pub base_headers : String → Message → String → List ℕ → Dict String
unfolding hex_encode after_last_char
base_headers from msg address identifier =
    ("Message-ID", "<" <> hex_encode identifier <> "@" <> after_last_char b'@' address <> ">")
    ∷ ("From", from)
    ∷ ("To", msg.recipient)
    ∷ ("Subject", msg.subject)
    ∷ []

abbrev pub or_required : {A : Type 0} → MailError → Option A → Fallible MailError A
or_required e none = err e
or_required e (some a) = ok a

abbrev pub type_of : Message → String
type_of msg = if msg.content_type == "" then "text/plain; charset=UTF-8" else msg.content_type

-- A message of custom contents gets the layout only where it asks for it.
unfoldable pub layout_of : Message → String → String
unfolding Dict.index
layout_of msg layout =
    if not (msg.template == "notification_custom_html")
      || Dict.index "email_apply_brand_layout" msg.metadata == "true"
    then layout
    else ""

-- The body in the layout, if there is one, and the type that it then has.
unfoldable pub laid_out : String → String → String → String → Fallible MailError (String × String)
unfolding apply_layout
laid_out layout body content_type footer =
    if not (layout == "")
    then apply_layout layout body content_type footer >>= (λ text. ok (text, "text/html"))
    else ok (body, content_type)

-- HTML that is no document becomes the body of one.
unfoldable pub as_document : String → String → String
unfolding has_prefix_lower contains_lower
as_document content_type body =
    if is_html content_type && not (contains_lower body "<html")
    then "<!doctype html><html><head><meta charset=\"utf-8\"><meta name=\"viewport\" content=\"width=device-width,initial-scale=1\"></head><body style=\"margin:0\">"
      <> body <> "</body></html>"
    else body

-- `buildMessage`
unfoldable pub build_message : MailSources → String → Message → String → Fallible MailError Mail
unfolding base_headers layout_of unsubscribe_of laid_out as_document
build_message sources from msg given = do
  address ← or_required invalid_sender (sources.parse_address from)
  identifier ← or_required no_identifier sources.random
  unsubscribe ← unsubscribe_of sources msg (layout_of msg given) (type_of msg)
  (body, content_type) ←
      laid_out (layout_of msg given) (msg.body <> unsubscribe.appended) (type_of msg)
        unsubscribe.footer
  ok (record {
    headers = base_headers from msg address identifier ++ unsubscribe.headers;
    content_type = content_type;
    body = as_document content_type body;
    logo = none;
  })

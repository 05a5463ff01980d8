-- ===== src/Tests/Email.antt =====
-- An e-mail of a brand, with a link to unsubscribe.
use Prim.Native.String.{◌++◌ as ◌<>◌}
use message_delivery.Prelude.{false, ◌≡◌, ◌⊎◌, refl, none, some, [], ◌∷◌, ◌==◌, if◌then◌else◌}
use message_delivery.Prelude.Int.{pos}
use message_delivery.Prelude.Fallible.{ok}
use message_delivery.Prelude.Dict
use message_delivery.Provider.{Message}
use message_delivery.Provider.Email.LaidOut.{IsLaidOut, message-IsLaidOut}
use message_delivery.Provider.Email.Message.{Brand, MailSources, Mail, layout_of}
use message_delivery.Provider.Email.{Smtp, message, brand_name, smtp_error_code, identity_of}
use message_delivery.Provider.Email.Branded.{message-IsBranded}
use message_delivery.Provider.Email.Unsubscribing.{IsLink, message-IsLink}

abbrev pub sources : MailSources
sources = record {
  parse_address = λ from. some "no-reply@iamfree.example";
  parse_url = λ address.
      some
        (record { scheme = "https"; hostname = "example.test"; has_user = false; fragment = "" });
  random = some (1 ∷ 255 ∷ []);
}

abbrev brand : Brand
brand = record {
  from = "no-reply@iamfree.example";
  layout = "<html>{{body}}|{{footer}}</html>";
  logo_file = "/srv/logo.png";
}

abbrev sender : Smtp
sender = record {
  name = "smtp";
  host = "mail.example";
  port = pos 25;
  auth_host = "mail.example";
  username = "u";
  password = "p";
  from = "other@example.test";
  security = "starttls";
  auth_method = "plain";
  html_layout = "";
  brands = ("iamfree", brand) ∷ [];
  default_brand = "iamfree";
  timeout = pos 15;
}

abbrev note : Message
note = record {
  event_id = "e1";
  template = "notification";
  subject = "News";
  body = "a < b";
  content_type = "";
  recipient_type = "email";
  recipient = "x@example.test";
  variables = [];
  metadata =
      ("email_unsubscribe_url", "https://example.test/u")
      ∷ ("email_unsubscribe_in_body", "true")
      ∷ [];
}

abbrev mail : Mail
mail = record {
  headers =
      ("Message-ID", "<01ff@iamfree.example>")
      ∷ ("From", "no-reply@iamfree.example")
      ∷ ("To", "x@example.test")
      ∷ ("Subject", "News")
      ∷ ("List-Unsubscribe", "<https://example.test/u>")
      ∷ ("List-Unsubscribe-Post", "List-Unsubscribe=One-Click")
      ∷ [];
  content_type = "text/html";
  body =
      "<html><p style=\"margin:0 0 16px;line-height:1.65;white-space:pre-wrap\">a &lt; b</p>|</html>";
  logo = some "/srv/logo.png";
}

message_runs : message sources sender note ≡ ok mail
unfolding message
message_runs = refl

message-IsBranded_example :
    (b : Brand) × (Dict.lookup (brand_name sender note) sender.brands ≡ some b)
    × (Dict.lookup "From" mail.headers ≡ some b.from)
    × (mail.logo ≡ (if b.logo_file == "" then none else some b.logo_file))
message-IsBranded_example = message-IsBranded sources sender note mail refl message_runs

message-IsLink_example :
    ((Dict.index "email_unsubscribe_url" note.metadata ≡ "")
      × (Dict.lookup "List-Unsubscribe" mail.headers ≡ none))
    ⊎ (IsLink sources (Dict.index "email_unsubscribe_url" note.metadata)
        × (Dict.lookup "List-Unsubscribe" mail.headers
            ≡ some ("<" <> Dict.index "email_unsubscribe_url" note.metadata <> ">")))
message-IsLink_example = message-IsLink sources sender note mail message_runs

error_codes_run :
    (smtp_error_code "535 Authentication failed" ≡ "smtp_auth_failed")
    × (smtp_error_code "dial tcp: connect: connection refused" ≡ "smtp_connect_failed")
    × (smtp_error_code "unexpected smtp error" ≡ "smtp_send_failed")
unfolding smtp_error_code
error_codes_run = (refl, refl, refl)

message-IsLaidOut_example : IsLaidOut note (layout_of note brand.layout) mail
unfolding identity_of layout_of
message-IsLaidOut_example =
    message-IsLaidOut sources sender note mail brand refl (λ h. cc (h)) message_runs

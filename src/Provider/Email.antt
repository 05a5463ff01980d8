-- ===== src/Provider/Email.antt =====
-- internal/provider/email/brand.go and smtp.go: messages sent by e-mail.
pub mod Message
pub mod Branded
pub mod Unsubscribing
pub mod Layout
pub mod LaidOut
use message_delivery.Prelude.{
  String, Bool, not, ◌&&◌, ◌||◌, ◌==◌, Option, none, some, List, [], is_empty, if◌then◌else◌,
}
use message_delivery.Prelude.Int.{ℤ, pos, is_positive, same_int}
use message_delivery.Prelude.Fallible.{Fallible, ok, err, ◌>>=◌}
use message_delivery.Prelude.Dict
use message_delivery.Prelude.Dict.{Dict}
use message_delivery.Prelude.Text.{contains_lower, to_lower}
use message_delivery.Provider.{Result, Attempt, Provider, status_sent, status_failed}
use message_delivery.Provider as Providers
use message_delivery.Provider.Email.Message.{
  Brand, MailSources, Mail, MailError, unknown_brand, build_message,
}

pub record Smtp : Type 0 where
  pub name : String
  pub host : String
  pub port : ℤ
  pub auth_host : String
  pub username : String
  pub password : String
  pub from : String
  pub security : String
  pub auth_method : String
  pub html_layout : String
  pub brands : Dict Brand
  pub default_brand : String
  pub timeout : ℤ

abbrev auth_method_of : String → String
auth_method_of given = if given == "" then "auto" else to_lower given

-- `NewSMTP` with a method of authentication; the time is in nanoseconds.
unfoldable pub new_smtp :
    String → String → ℤ → String → String → String → String → String → ℤ → String → Smtp
unfolding to_lower
new_smtp name host port auth_host username password from security timeout auth_method = record {
  name = name;
  host = host;
  port = port;
  auth_host = if auth_host == "" then host else auth_host;
  username = username;
  password = password;
  from = from;
  security = to_lower security;
  auth_method = auth_method_of auth_method;
  html_layout = "";
  brands = [];
  default_brand = "";
  timeout = if is_positive timeout then timeout else pos 15000000000;
}

unfoldable pub with_html_layout : String → Smtp → Smtp
with_html_layout layout p = record p { html_layout = layout }

unfoldable pub with_brands : String → Dict Brand → Smtp → Smtp
with_brands default_brand brands p = record p { default_brand = default_brand; brands = brands }

abbrev pub brand_name : Smtp → Providers.Message → String
brand_name p msg =
    if Dict.index "brand" msg.metadata == ""
    then p.default_brand
    else Dict.index "brand" msg.metadata

-- Sender, layout and logo: the provider's own where it has no brands, or else a brand's.
unfoldable pub identity_of : Smtp → Providers.Message → Fallible MailError Brand
unfolding Dict.index Dict.lookup
identity_of p msg =
    if is_empty p.brands
    then ok (record { from = p.from; layout = p.html_layout; logo_file = "" })
    else elim (Dict.lookup (brand_name p msg) p.brands) [
      | none ↦ err unknown_brand
      | some brand ↦ ok brand
    ]

-- `SMTP.message`
unfoldable pub message : MailSources → Smtp → Providers.Message → Fallible MailError Mail
unfolding identity_of build_message
message sources p msg = do
  brand ← identity_of p msg
  mail ← build_message sources brand.from msg brand.layout
  ok (record mail { logo = if brand.logo_file == "" then none else some brand.logo_file })

-- What a dialer is made of; without PLAIN the library chooses the method of authentication.
pub record Dialer : Type 0 where
  pub host : String
  pub port : ℤ
  pub username : String
  pub password : String
  pub ssl : Bool
  pub server_name : String
  pub min_version : String
  pub plain_auth : Bool

unfoldable pub new_dialer : Smtp → Dialer
new_dialer p = record {
  host = p.host;
  port = p.port;
  username = p.username;
  password = p.password;
  ssl = p.security == "tls" || (p.security == "" && same_int p.port (pos 465));
  server_name = p.auth_host;
  min_version = "TLS12";
  plain_auth = p.auth_method == "plain";
}

-- `tlsOnlyPlainAuth.Start`, over `smtp.PlainAuth`: without TLS it is not asked.
unfoldable pub start_plain {ℓ κ} :
    {Credentials : Type ℓ} {Problem : Type κ}
    → (Bool → Fallible Problem Credentials)
    → Problem
    → Bool
    → Fallible Problem Credentials
start_plain start requires_tls tls = if not tls then err requires_tls else start tls

unfoldable pub smtp_error_code : String → String
unfolding contains_lower
smtp_error_code problem =
    if contains_lower problem "authentication" || contains_lower problem "auth"
    then "smtp_auth_failed"
    else if contains_lower problem "recipient" || contains_lower problem "rcpt"
    then "smtp_rcpt_failed"
    else if contains_lower problem "timeout" || contains_lower problem "deadline"
    then "smtp_timeout"
    else if contains_lower problem "dial"
        || contains_lower problem "connect"
        || contains_lower problem "connection"
    then "smtp_connect_failed"
    else "smtp_send_failed"

-- What ends the wait for `DialAndSend`: the time, or its end, with the text of its error.
pub data Dialled : Type 0 where
  timed_out : Dialled
  finished : Option String → Dialled

-- The parsers and bytes at a call, and how the call of the dialer ends.
pub record MailTransport : Type 0 where
  pub sources : List Attempt → MailSources
  pub dial_and_send : List Attempt → ℤ → Dialer → Mail → Dialled

abbrev failed : String → Result
failed error_code = record { status = status_failed; error_code = error_code }

unfoldable pub outcome_of : Dialled → Result
unfolding smtp_error_code
outcome_of timed_out = failed "smtp_timeout"
outcome_of (finished (some problem)) = failed (smtp_error_code problem)
outcome_of (finished none) = record { status = status_sent; error_code = "" }

unfoldable pub deliver : MailTransport → Smtp → List Attempt → Fallible MailError Mail → Result
unfolding new_dialer outcome_of
deliver t p past (err e) = failed "smtp_invalid_message"
deliver t p past (ok mail) = outcome_of (t.dial_and_send past p.timeout (new_dialer p) mail)

abbrev pub is_configured : Smtp → Bool
is_configured p = not (p.host == "" || not (is_positive p.port) || p.from == "")

abbrev pub is_method : Smtp → Bool
is_method p = p.auth_method == "auto" || p.auth_method == "plain"

-- `SMTP.Send`
unfoldable pub send : MailTransport → Smtp → List Attempt → Providers.Message → Result
unfolding message deliver
send t p past msg =
    if not (is_configured p)
    then failed "smtp_not_configured"
    else if not (is_method p)
    then failed "smtp_auth_method_invalid"
    else deliver t p past (message (t.sources past) p msg)

unfoldable pub smtp : MailTransport → Smtp → Provider
unfolding send
smtp t p = record { name = p.name; send = send t p }

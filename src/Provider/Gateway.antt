-- ===== src/Provider/Gateway.antt =====
-- internal/provider/telegram/telegram.go: codes sent through Telegram's gateway.
pub mod Codes
pub mod Sent
pub mod Ended
use Prim.Native.Char.{Char, code}
use Prim.Native.String.{len, ◌++◌ as ◌<>◌}
use Prim.Native.String
use message_delivery.Prelude.{
  ℕ, ◌+◌, ◌-◌, String, Bool, true, false, not, ◌&&◌, ◌||◌, ◌==◌, Option, none, some, List, leb, ltb,
  eqb, if◌then◌else◌,
}
use message_delivery.Prelude.Int.{ℤ, pos, is_positive}
use message_delivery.Prelude.Dict
use message_delivery.Prelude.Text.{Parsed, number, atoi, all_chars, nth_char}
use message_delivery.Provider.{
  Message, Result, Attempt, Provider, status_sent, status_failed, status_undeliverable,
}

pub record Gateway : Type 0 where
  pub name : String
  pub base_url : String
  pub api_token : String
  pub timeout : ℤ

-- `NewGateway`; the time is in nanoseconds.
unfoldable pub new_gateway : String → String → String → ℤ → Gateway
new_gateway name base_url api_token timeout = record {
  name = name;
  base_url = if base_url == "" then "https://gatewayapi.telegram.org" else base_url;
  api_token = api_token;
  timeout = if is_positive timeout then timeout else pos 10000000000;
}

-- The keys of the request's JSON object; the last three may be left out.
pub record Payload : Type 0 where
  pub phone_number : String
  pub code : String
  pub payload : String
  pub ttl : Option ℤ
  pub sender_username : Option String
  pub callback_url : Option String

pub record Request : Type 0 where
  pub url : String
  pub authorization : String
  pub content_type : String
  pub body : String

pub record Envelope : Type 0 where
  pub ok : Bool
  pub error : String

-- The status code, and the object at the start of the body's first 2 ^ 20 bytes, if there is one.
pub record Response : Type 0 where
  pub status_code : ℕ
  pub envelope : Option Envelope

-- What is outside of the program: `json.Marshal`, whether `http.NewRequestWithContext` takes the
-- address, and `http.Client.Do`.
pub record Transport : Type 0 where
  pub marshal : Payload → Option String
  pub is_url : String → Bool
  pub exchange : List Attempt → ℤ → Request → Option Response

abbrev pub is_digit : Char → Bool
is_digit c = leb b'0' (code c) && leb (code c) b'9'

unfoldable pub valid_numeric_code : String → Bool
unfolding all_chars
valid_numeric_code code = not (ltb (len code) 4 || ltb 8 (len code)) && all_chars is_digit code

abbrev pub is_capital : Char → Bool
is_capital c = leb b'A' (code c) && leb (code c) b'Z'

-- A letter in lower case, a digit as it is, an underscore for the rest.
normalize_char : Char → Char
unfolding nth_char
normalize_char c =
    if is_capital c
    then nth_char (code c - b'A') "a" "bcdefghijklmnopqrstuvwxyz"
    else if (leb b'a' (code c) && leb (code c) b'z') || is_digit c
    then c
    else "_"

normalize_chars : String → String
unfolding normalize_char
normalize_chars String.[] = ""
normalize_chars (String.◌∷◌ c s) = String.◌∷◌ (normalize_char c) (normalize_chars s)

unfoldable pub normalize_error : String → String
unfolding normalize_chars
normalize_error value = if value == "" then "undeliverable" else normalize_chars value

-- A number of seconds, if the text is one and it is positive.
abbrev ttl_of : Parsed → Option ℤ
ttl_of (number n) = if is_positive n then some n else none
ttl_of _ = none

abbrev unless_empty : String → Option String
unless_empty value = if value == "" then none else some value

unfoldable pub payload_of : Message → Payload
unfolding Dict.index atoi
payload_of msg = record {
  phone_number = msg.recipient;
  code = Dict.index "code" msg.variables;
  payload = msg.event_id;
  ttl = ttl_of (atoi (Dict.index "ttl_sec" msg.variables));
  sender_username = unless_empty (Dict.index "telegram_sender_username" msg.metadata);
  callback_url = unless_empty (Dict.index "telegram_callback_url" msg.metadata);
}

abbrev pub undeliverable : String → Result
undeliverable error_code = record { status = status_undeliverable; error_code = error_code }

abbrev pub failed : String → Result
failed error_code = record { status = status_failed; error_code = error_code }

-- What the gateway's answer means.
unfoldable pub classify : ℕ → Envelope → Result
unfolding normalize_error
classify status_code envelope =
    if eqb status_code 401 || eqb status_code 403
    then failed "telegram_auth_failed"
    else if leb 500 status_code
    then failed "telegram_server_error"
    else if not envelope.ok
    then undeliverable ("telegram_" <> normalize_error envelope.error)
    else record { status = status_sent; error_code = "" }

abbrev pub answered : Option Response → Result
answered none = undeliverable "telegram_unavailable"
answered (some response) = elim response.envelope [
  | none ↦ failed "telegram_bad_response"
  | some envelope ↦ classify response.status_code envelope
]

abbrev pub request_of : Gateway → String → Request
request_of p body = record {
  url = p.base_url <> "/sendVerificationMessage";
  authorization = "Bearer " <> p.api_token;
  content_type = "application/json";
  body = body;
}

abbrev pub post : Transport → Gateway → List Attempt → Option String → Result
post t p past none = failed "telegram_payload_invalid"
post t p past (some body) =
    let request : Request = request_of p body in
    if not (t.is_url request.url)
    then failed "telegram_request_invalid"
    else answered (t.exchange past p.timeout request)

-- `Gateway.Send`
unfoldable pub send : Transport → Gateway → List Attempt → Message → Result
send t p past msg =
    if p.api_token == ""
    then undeliverable "telegram_token_missing"
    else if not (valid_numeric_code (Dict.index "code" msg.variables))
    then failed "telegram_code_invalid"
    else post t p past (t.marshal (payload_of msg))

unfoldable pub gateway : Transport → Gateway → Provider
gateway t p = record { name = p.name; send = send t p }

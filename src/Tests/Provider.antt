-- ===== src/Tests/Provider.antt =====
-- Providers and their registry at concrete inputs.
use message_delivery.Prelude.{◌≡◌, ◌≢◌, refl, true, none, some, [], ◌∷◌, ◌≤◌, arith}
use message_delivery.Prelude.Int.{pos}
use message_delivery.Prelude.Dict
use message_delivery.Prelude.Text.{all_chars, char_count}
use message_delivery.Provider.{Message, Provider, new_unavailable, new_registry, get, status_sent}
use message_delivery.Provider.Gateway.{
  Gateway, Transport, Envelope, send, payload_of, valid_numeric_code, normalize_error, is_digit,
}
use message_delivery.Provider.Gateway.Codes.{
  valid_numeric_code_iff, normalize_error_lem, is_code_char,
}
use message_delivery.Provider.Gateway.Ended
use message_delivery.Provider.Gateway.Sent.{send_sent_iff, IsTaken}

abbrev sms : Provider
sms = new_unavailable "sms" "provider_disabled"

abbrev other_sms : Provider
other_sms = new_unavailable "sms" "sms_not_configured"

registry_runs : get "sms" (new_registry (some sms ∷ none ∷ some other_sms ∷ [])) ≡ some other_sms
unfolding get new_registry Dict.lookup Dict.insert new_unavailable
registry_runs = refl

abbrev message : Message
message = record {
  event_id = "e1";
  template = "code";
  subject = "Your code";
  body = "Code 4242";
  content_type = "text/plain; charset=UTF-8";
  recipient_type = "phone";
  recipient = "+15550100";
  variables = ("code", "4242") ∷ ("ttl_sec", "60") ∷ [];
  metadata = [];
}

-- A gateway that answers every request by success.
abbrev transport : Transport
transport = record {
  marshal = λ payload. some payload.code;
  is_url = λ url. true;
  exchange = λ past timeout request.
      some (record { status_code = 200; envelope = some (record { ok = true; error = "" }) });
}

abbrev telegram : Gateway
telegram = record {
  name = "telegram";
  base_url = "https://gatewayapi.telegram.org";
  api_token = "t";
  timeout = pos 5;
}

abbrev reply : Envelope
reply = record { ok = true; error = "" }

taken : IsTaken transport telegram [] message
taken = (
  (payload_of message).code,
  record { status_code = 200; envelope = some reply },
  refl,
  refl,
  refl,
  (reply, refl, (refl, (λ h. omega arith), (λ h. omega arith), omega arith)),
)

is_code : valid_numeric_code "4242" ≡ true
unfolding valid_numeric_code
is_code = refl

sends : (send transport telegram [] message).status ≡ status_sent
sends =
    (send_sent_iff transport telegram [] message).1
      (λ h. cc (h), unfold Dict.index Dict.lookup in is_code, taken)

code_shape : (4 ≤ char_count "4242") × (char_count "4242" ≤ 8) × (all_chars is_digit "4242" ≡ true)
code_shape = (valid_numeric_code_iff "4242").0 is_code

send-IsGatewayEnd_example :
    Ended.IsGatewayEnd transport telegram [] message (send transport telegram [] message)
send-IsGatewayEnd_example = Ended.send-IsGatewayEnd transport telegram [] message

normalize_error_lem_example :
    (all_chars is_code_char (normalize_error "ACCESS denied!") ≡ true)
    × (normalize_error "ACCESS denied!" ≢ "")
normalize_error_lem_example = normalize_error_lem "ACCESS denied!"

normalize_error_runs : normalize_error "ACCESS denied!" ≡ "access_denied_"
unfolding normalize_error
normalize_error_runs = refl

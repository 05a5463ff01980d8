-- ===== src/Tests/Webpush.antt =====
-- A notification pushed to a browser.
use message_delivery.Prelude.{String, ◌≡◌, refl, none, some, Option, [], ◌∷◌, ◌==◌, if◌then◌else◌}
use message_delivery.Prelude.Int.{pos}
use message_delivery.Prelude.Fallible.{ok}
use message_delivery.Provider.{Message, status_sent}
use message_delivery.Provider.Webpush.{
  Url, Push, Webpush, Notification, status_code, prepare, endpoint_allowed, send, vapid_subscriber,
  is_subscription, push_payload, outcome_of,
}
use message_delivery.Provider.Webpush.Ended

abbrev address : String
address = "https://web.Push.apple.com/x"

abbrev url : Url
url = record { scheme = "https"; hostname = "web.Push.apple.com" }

abbrev read_address : String → Option Url
read_address raw = if raw == address then some url else none

abbrev push : Push
push = record {
  parse = read_address;
  marshal = λ payload. some payload.title;
  notify = λ past notification. status_code 201;
}

abbrev provider : Webpush
provider = record {
  name = "webpush";
  vapid_public_key = "public";
  vapid_private_key = "private";
  subscriber = "mailto:ops@example.com";
  timeout = pos 5;
}

abbrev message : Message
message = record {
  event_id = "e1";
  template = "code";
  subject = "Your code";
  body = "Code 4242";
  content_type = "text/plain; charset=UTF-8";
  recipient_type = "push";
  recipient = address;
  variables = [];
  metadata = ("push_p256dh", "k") ∷ ("push_auth", "a") ∷ [];
}

abbrev notification : Notification
notification = record {
  endpoint = address;
  p256dh = "k";
  auth = "a";
  payload = "Your code";
  subscriber = "ops@example.com";
  vapid_public_key = "public";
  vapid_private_key = "private";
  timeout = pos 5;
}

prepares : prepare push provider message ≡ ok notification
unfolding prepare is_subscription endpoint_allowed push_payload vapid_subscriber
prepares = refl

sends : send push provider [] message ≡ record { status = status_sent; error_code = "" }
unfolding send prepare is_subscription endpoint_allowed outcome_of
sends = refl

send-IsPushEnd_example : Ended.IsPushEnd push provider [] message (send push provider [] message)
send-IsPushEnd_example = Ended.send-IsPushEnd push provider [] message

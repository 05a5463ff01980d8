-- ===== src/Provider/Webpush.antt =====
-- internal/provider/webpush/webpush.go: notifications pushed to a browser.
pub mod Endpoint
pub mod Ended
use Prim.Native.Char.{len_utf8}
use Prim.Native.String.{◌++◌ as ◌<>◌}
use Prim.Native.String
use message_delivery.Prelude.{
  ℕ, ◌-◌, zero, suc, String, Bool, true, false, not, ◌&&◌, ◌||◌, ◌==◌, Option, none, some, List, [],
  ◌∷◌, any, leb, ltb, eqb, if◌then◌else◌,
}
use message_delivery.Prelude.Int.{ℤ, pos, is_positive}
use message_delivery.Prelude.Dict
use message_delivery.Prelude.Fallible.{Fallible, ok, err}
use message_delivery.Prelude.Text.{
  trim_space, trim_dot, equal_lower, has_suffix_lower, has_prefix_lower,
}
use message_delivery.Delivery.EventId.{decimal}
use message_delivery.Provider.{
  Message, Result, Attempt, Provider, status_sent, status_failed, status_undeliverable,
}

pub record Webpush : Type 0 where
  pub name : String
  pub vapid_public_key : String
  pub vapid_private_key : String
  pub subscriber : String
  pub timeout : ℤ

-- `New`; the time is in nanoseconds.
unfoldable pub new_webpush : String → String → String → String → ℤ → Webpush
unfolding trim_space
new_webpush name vapid_public_key vapid_private_key subscriber timeout = record {
  name = name;
  vapid_public_key = trim_space vapid_public_key;
  vapid_private_key = trim_space vapid_private_key;
  subscriber = trim_space subscriber;
  timeout = if is_positive timeout then timeout else pos 10000000000;
}

-- `s[n:]`, where a character ends at the byte `n`.
drop_bytes : ℕ → String → String
drop_bytes n String.[] = ""
drop_bytes zero (String.◌∷◌ c s) = String.◌∷◌ c s
drop_bytes (suc n) (String.◌∷◌ c s) = drop_bytes (suc n - len_utf8 c) s

unfoldable pub vapid_subscriber : String → String
unfolding trim_space has_prefix_lower drop_bytes
vapid_subscriber value =
    let trimmed : String = trim_space value in
    if has_prefix_lower trimmed "mailto:" then trim_space (drop_bytes 7 trimmed) else trimmed

abbrev pub push_service_hosts : List String
push_service_hosts =
    "fcm.googleapis.com" ∷ "android.googleapis.com" ∷ "updates.push.services.mozilla.com"
    ∷ "push.apple.com" ∷ "notify.windows.com" ∷ []

-- What `url.ParseRequestURI` reads: the scheme, and `Hostname()`.
pub record Url : Type 0 where
  pub scheme : String
  pub hostname : String

unfoldable pub host_allowed : String → Bool
unfolding equal_lower has_suffix_lower
host_allowed host =
    not (host == "")
    && any (λ allowed. equal_lower host allowed || has_suffix_lower host ("." <> allowed))
        push_service_hosts

abbrev pub url_allowed : Option Url → Bool
url_allowed none = false
url_allowed (some url) = url.scheme == "https" && host_allowed (trim_dot url.hostname)

unfoldable pub endpoint_allowed : (String → Option Url) → String → Bool
unfolding host_allowed trim_space trim_dot
endpoint_allowed parse raw = url_allowed (parse (trim_space raw))

pub record Notification : Type 0 where
  pub endpoint : String
  pub p256dh : String
  pub auth : String
  pub payload : String
  pub subscriber : String
  pub vapid_public_key : String
  pub vapid_private_key : String
  pub timeout : ℤ

-- The JSON object of a notification.
pub record PushPayload : Type 0 where
  pub title : String
  pub body : String
  pub target_path : String
  pub tag : String

-- How a call of the push library ends: by a status code, or by an error, the time being up or not.
pub data Answer : Type 0 where
  status_code : ℕ → Answer
  error_with_timeout : Bool → Answer

-- What is outside of the program: `url.ParseRequestURI`, `json.Marshal`, and the push library.
pub record Push : Type 0 where
  pub parse : String → Option Url
  pub marshal : PushPayload → Option String
  pub notify : List Attempt → Notification → Answer

unfoldable pub first : String → String → String
unfolding trim_space
first value fallback = if trim_space value == "" then fallback else value

unfoldable pub push_payload : Message → PushPayload
unfolding first Dict.index
push_payload msg = record {
  title = first (Dict.index "push_title" msg.metadata) msg.subject;
  body = first (Dict.index "push_body" msg.metadata) msg.body;
  target_path = Dict.index "push_target_path" msg.metadata;
  tag = first (Dict.index "push_tag" msg.metadata) msg.event_id;
}

abbrev refuse : String → String → Fallible Result Notification
refuse status error_code = err (record { status = status; error_code = error_code })

abbrev pub notification_of : Webpush → Message → Option String → Fallible Result Notification
notification_of p msg none = refuse status_failed "webpush_payload_invalid"
notification_of p msg (some payload) = ok (record {
  endpoint = msg.recipient;
  p256dh = Dict.index "push_p256dh" msg.metadata;
  auth = Dict.index "push_auth" msg.metadata;
  payload = payload;
  subscriber = vapid_subscriber p.subscriber;
  vapid_public_key = p.vapid_public_key;
  vapid_private_key = p.vapid_private_key;
  timeout = p.timeout;
})

abbrev pub is_configured : Webpush → Bool
is_configured p = not (p.vapid_public_key == "" || p.vapid_private_key == "" || p.subscriber == "")

unfoldable pub is_subscription : Message → Bool
unfolding trim_space Dict.index
is_subscription msg = not (
    trim_space msg.recipient == ""
    || trim_space (Dict.index "push_p256dh" msg.metadata) == ""
    || trim_space (Dict.index "push_auth" msg.metadata) == "")

-- Everything that `Send` does before it calls the push library.
unfoldable pub prepare : Push → Webpush → Message → Fallible Result Notification
prepare push p msg =
    if not (is_configured p)
    then refuse status_undeliverable "webpush_not_configured"
    else if not (is_subscription msg)
    then refuse status_failed "webpush_subscription_invalid"
    else if not (endpoint_allowed push.parse msg.recipient)
    then refuse status_undeliverable "webpush_endpoint_rejected"
    else notification_of p msg (push.marshal (push_payload msg))

-- What the answer of the push service means.
unfoldable pub outcome_of : Answer → Result
unfolding decimal
outcome_of (error_with_timeout true) = record {
  status = status_failed;
  error_code = "webpush_timeout";
}
outcome_of (error_with_timeout false) = record {
  status = status_failed;
  error_code = "webpush_send_failed";
}
outcome_of (status_code n) =
    if leb 200 n && ltb n 300
    then record { status = status_sent; error_code = "" }
    else if eqb n 404 || eqb n 410
    then record { status = status_undeliverable; error_code = "webpush_subscription_expired" }
    else if eqb n 429 || leb 500 n
    then record { status = status_failed; error_code = "webpush_service_unavailable" }
    else record { status = status_failed; error_code = "webpush_rejected_" <> decimal n }

-- `Provider.Send`
unfoldable pub send : Push → Webpush → List Attempt → Message → Result
send push p past msg = elim (prepare push p msg) [
  | err result ↦ result
  | ok notification ↦ outcome_of (push.notify past notification)
]

unfoldable pub webpush : Push → Webpush → Provider
webpush push p = record { name = p.name; send = send push p }

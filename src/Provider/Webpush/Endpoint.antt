-- ===== src/Provider/Webpush/Endpoint.antt =====
-- Where notifications are posted to.
use Prim.Native.String.{◌++◌ as ◌<>◌}
use Prim.Native.String.append
use Prim.Native.String.{len}
use Prim.Native.Char.{Char}
use text.Mathlib.TextPositions.{len-append}
use message_delivery.Prelude.{
  String, Bool, true, not, ◌||◌, ◌==◌, ◌≢◌, ◌≡◌, ◌⊎◌, inl, inr, refl, sym, ap, ◌∙◌, Bool-cases,
  Option, none, some, List, [], ◌∷◌, any, contains, arith, eq_iff, false,
}
use message_delivery.Prelude.Fallible.{Fallible, ok, err, guarded-eq-ok}
use message_delivery.Prelude.Text.{trim_space, trim_dot, equal_lower, has_suffix_lower}
use message_delivery.Provider.{Message, Result}
use message_delivery.Provider.Webpush.{
  Url, url_allowed, Push, Webpush, Notification, push_service_hosts, host_allowed, endpoint_allowed,
  prepare, notification_of, is_configured, is_subscription,
}

-- A host is below a service if it ends in the service's name behind a dot, in any case of letters.
abbrev pub IsBelow : String → String → Type 0
IsBelow host service =
    (front : String) × (rest : String) × (host ≡ front <> rest)
    × (equal_lower rest ("." <> service) ≡ true)

abbrev pub IsPushHost : String → Type 0
IsPushHost host =
    (service : String) × (contains push_service_hosts service ≡ true)
    × ((equal_lower host service ≡ true) ⊎ IsBelow host service)

abbrev pub IsPushUrl : Url → Type 0
IsPushUrl url = (url.scheme ≡ "https") × IsPushHost (trim_dot url.hostname)

any_found :
    (p : String → Bool) (xs : List String)
    → any p xs ≡ true
    → (x : String) × (contains xs x ≡ true) × (p x ≡ true)
any_found p [] h = absurd (cc (h))
any_found p (x ∷ xs) h = elim (Bool-cases (p x)) [
  | inl met ↦ (x, ground (arith, eq_iff x x), met)
  | inr missed ↦
      let (y, is_in, met) = any_found p xs (ground arith) in (y, ground (arith, is_in), met)
]

has_suffix_lower-split :
    (s suffix : String)
    → has_suffix_lower s suffix ≡ true
    → (front : String) × (rest : String) × (s ≡ front <> rest) × (equal_lower rest suffix ≡ true)
unfolding has_suffix_lower
has_suffix_lower-split String.[] suffix h = ("", "", refl, h)
has_suffix_lower-split (String.◌∷◌ c s) suffix h =
    elim (Bool-cases (equal_lower (String.◌∷◌ c s) suffix)) [
      | inl same ↦ ("", String.◌∷◌ c s, sym (append.nil (String.◌∷◌ c s)), same)
      | inr other ↦
          let (front, rest, split, same) = has_suffix_lower-split s suffix (ground arith) in
          (
            String.◌∷◌ c front,
            rest,
            ap (λ t. String.◌∷◌ c t) split ∙ sym (append.cons c front rest),
            same,
          )
    ]

host_allowed-IsPushHost : (host : String) → host_allowed host ≡ true → IsPushHost host
unfolding host_allowed
host_allowed-IsPushHost host h =
    let (service, is_in, met) =
      any_found (λ allowed. equal_lower host allowed || has_suffix_lower host ("." <> allowed))
        push_service_hosts (ground arith) in
    elim (Bool-cases (equal_lower host service)) [
      | inl same ↦ (service, is_in, inl same)
      | inr other ↦
          (service, is_in, inr (has_suffix_lower-split host ("." <> service) (ground arith)))
    ]

url_allowed-IsPushUrl :
    (read : Option Url) → url_allowed read ≡ true → (url : Url) × (read ≡ some url) × IsPushUrl url
url_allowed-IsPushUrl none h = absurd (cc (h))
url_allowed-IsPushUrl (some url) h = (
  url,
  refl,
  (
    ground (arith, eq_iff url.scheme "https"),
    host_allowed-IsPushHost (trim_dot url.hostname) (ground arith),
  ),
)

-- The other way round: a push service is let through.
found_any :
    (p : String → Bool) (xs : List String) (x : String)
    → contains xs x ≡ true
    → p x ≡ true
    → any p xs ≡ true
found_any p [] x h met = absurd (cc (h))
found_any p (y ∷ ys) x h met = elim (Bool-cases (y == x)) [
  | inl same ↦
      let eq : y ≡ x = (eq_iff y x).0 same in
      let here : p y ≡ true = ap p eq ∙ met in ground (arith, here)
  | inr other ↦ let rest = found_any p ys x (ground arith) met in ground (arith, rest)
]

has_suffix_lower-whole :
    (s suffix : String) → equal_lower s suffix ≡ true → has_suffix_lower s suffix ≡ true
unfolding has_suffix_lower
has_suffix_lower-whole String.[] suffix h = h
has_suffix_lower-whole (String.◌∷◌ c s) suffix h = rw h refl

has_suffix_lower-append :
    (front rest suffix : String)
    → equal_lower rest suffix ≡ true
    → has_suffix_lower (front <> rest) suffix ≡ true
unfolding has_suffix_lower
has_suffix_lower-append String.[] rest suffix h =
    rw (append.nil rest) (has_suffix_lower-whole rest suffix h)
has_suffix_lower-append (String.◌∷◌ c front) rest suffix h =
    let deeper = has_suffix_lower-append front rest suffix h in
    rw (append.cons c front rest) (ground (arith, deeper))

allows : String → String → Bool
allows host service = equal_lower host service || has_suffix_lower host ("." <> service)

IsPushHost-allows :
    (host service : String)
    → (equal_lower host service ≡ true) ⊎ IsBelow host service
    → allows host service ≡ true
unfolding allows
IsPushHost-allows host service (inl same) = ground (arith, same)
IsPushHost-allows host service (inr (front, rest, split, same)) =
    let below : has_suffix_lower host ("." <> service) ≡ true =
      rw split (has_suffix_lower-append front rest ("." <> service) same) in
    ground (arith, below)

equal_lower-nothing : (s : String) → equal_lower "" s ≡ true → s ≡ ""
unfolding equal_lower
equal_lower-nothing String.[] h = refl
equal_lower-nothing (String.◌∷◌ c s) h = cc (h)

cons_not_empty : (c : Char) (s : String) → String.◌∷◌ c s ≢ ""
cons_not_empty c s = λ h. cc (h)

append_empty : (front rest : String) → front <> rest ≡ "" → rest ≡ ""
append_empty String.[] rest h = sym (append.nil rest) ∙ h
append_empty (String.◌∷◌ c front) rest h =
    absurd (cons_not_empty c (front <> rest) (sym (append.cons c front rest) ∙ h))

IsPushHost-named : (host : String) → IsPushHost host → host ≢ ""
IsPushHost-named host (service, is_in, inl same) = λ empty.
    let none_such : service ≡ "" = equal_lower-nothing service (rw empty at same) in
    cc (rw none_such at is_in)
IsPushHost-named host (service, is_in, inr (front, rest, split, same)) = λ empty.
    let no_rest : rest ≡ "" = append_empty front rest (sym split ∙ empty) in
    let no_dot : "." <> service ≡ "" = equal_lower-nothing ("." <> service) (rw no_rest at same) in
    omega (arith, ap len no_dot, len-append "." service)

IsPushHost-host_allowed : (host : String) → IsPushHost host → host_allowed host ≡ true
unfolding host_allowed allows
IsPushHost-host_allowed host is_push =
    let named : host ≢ "" = IsPushHost-named host is_push in
    let (service, is_in, met) = is_push in
    let found =
      found_any (allows host) push_service_hosts service is_in
        (IsPushHost-allows host service met) in
    ground (arith, found, eq_iff host "", named)

-- An address that is refused is none of a push service.
pub endpoint_refused :
    (parse : String → Option Url) (raw : String)
    → endpoint_allowed parse raw ≡ false
    → (url : Url) → parse (trim_space raw) ≡ some url
    → ¬ IsPushUrl url
unfolding endpoint_allowed
endpoint_refused parse raw h url read (https, is_push) =
    let allowed = IsPushHost-host_allowed (trim_dot url.hostname) is_push in
    let not_allowed : url_allowed (some url) ≡ false = rw read at h in
    ground (arith, allowed, not_allowed, eq_iff url.scheme "https", https)

abbrev endpoint_or_none : Fallible Result Notification → String
endpoint_or_none (err result) = ""
endpoint_or_none (ok n) = n.endpoint

notification_of-endpoint :
    (p : Webpush) (msg : Message) (payload : Option String) (n : Notification)
    → notification_of p msg payload ≡ ok n
    → n.endpoint ≡ msg.recipient
notification_of-endpoint p msg none n h = absurd (cc (h))
notification_of-endpoint p msg (some payload) n h = sym (ap endpoint_or_none h)

-- The push library is called only for the recipient of the message, and only where this, without
-- white space around it, is an `https` address whose host is one of the push services or below one.
pub prepare-IsPushUrl :
    (push : Push) (p : Webpush) (msg : Message) (n : Notification)
    → prepare push p msg ≡ ok n
    → (n.endpoint ≡ msg.recipient)
      × ((url : Url) × (push.parse (trim_space msg.recipient) ≡ some url) × IsPushUrl url)
unfolding prepare
prepare-IsPushUrl push p msg n h =
    let (_, h1) = guarded-eq-ok (not (is_configured p)) _ _ h in
    let (_, h2) = guarded-eq-ok (not (is_subscription msg)) _ _ h1 in
    let (allowed, h3) = guarded-eq-ok (not (endpoint_allowed push.parse msg.recipient)) _ _ h2 in
    (
      notification_of-endpoint p msg _ n h3,
      url_allowed-IsPushUrl (push.parse (trim_space msg.recipient))
          (unfold endpoint_allowed in ground arith),
    )

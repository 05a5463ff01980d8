-- ===== src/Command/Service/Main/Reached.antt =====
-- Which endpoint a request comes to.
use message_delivery.Prelude.{
  String, Char, code, Bool, Bool-cases, true, false, not, ◌&&◌, ◌||◌, ◌==◌, eq_iff, ◌≡◌, ◌⊎◌, inl,
  inr, refl, Option, none, some, List, [], ◌∷◌, All, any, leb, if◌then◌else◌, ◌∙◌, arith, ap,
}
use message_delivery.Prelude.Dict
use message_delivery.Prelude.Text.{all_chars, has_prefix, is_one_of}
use message_delivery.FilePath.{clean, to_string}
use message_delivery.Config.{Config}
use message_delivery.Webhook.{WebhookHandler}
use message_delivery.Command.Service.Main.{
  Endpoint, health, health_response, webhook, Handler, ServeMux, follow, route, health_handler,
  handler_of, Dict,
}

abbrev is_path_char : Char → Bool
is_path_char c =
    (leb b'0' (code c) && leb (code c) b'9')
    || (leb b'A' (code c) && leb (code c) b'Z')
    || (leb b'a' (code c) && leb (code c) b'z')
    || is_one_of (b'/' ∷ b'-' ∷ b'_' ∷ b'.' ∷ []) (code c)

-- A path in its shortest form, below the root and of plain characters: without a wildcard, a method,
-- a slash at its end or parts that the mux would clean away.
unfoldable pub is_plain : String → Bool
unfolding all_chars has_prefix clean to_string
is_plain path =
    has_prefix path "/"
    && not (path == "/")
    && all_chars is_path_char path
    && to_string (clean path) == path

-- The root, or a plain path.
abbrev pub IsPattern : String → Type 0
IsPattern pattern = (pattern ≡ "/") ⊎ (is_plain pattern ≡ true)

abbrev pub has : String → List String → Bool
has path patterns = any (λ p. p == path) patterns

-- As `http.ServeMux` is documented: a path is matched by the same pattern, and else by the root.
abbrev pub IsServeMux : ServeMux → Type 0
IsServeMux mux =
    (patterns : List String) (path : String)
    → All IsPattern patterns
    → is_plain path ≡ true
    → mux patterns path
      ≡ (if has path patterns then some path else if has "/" patterns then some "/" else none)

-- The health check answers at its path, and no other endpoint of its mux does.
abbrev pub health_at : String → String → Option Endpoint
health_at quoted path = if path == "/health" then some (health (health_response quoted)) else none

-- With a webhook, this answers at its path, the health check's included.
abbrev pub endpoint_at : String → String → Option WebhookHandler → String → Option Endpoint
endpoint_at quoted hook none path = health_at quoted path
endpoint_at quoted hook (some handler) path =
    if path == hook then some (webhook handler) else health_at quoted path

health_path_plain : is_plain "/health" ≡ true
unfolding is_plain
health_path_plain = refl

eq_swap : (s t : String) → (s == t) ≡ (t == s)
eq_swap s t = ground (arith, eq_iff s t, eq_iff t s)

plain_below_root : (path : String) → is_plain path ≡ true → ("/" == path) ≡ false
unfolding is_plain
plain_below_root path plain = eq_swap "/" path ∙ ground arith

abbrev health_table : String → Dict Handler
health_table quoted = ("/health", λ _. some (health (health_response quoted))) ∷ []

follow_health :
    (quoted path : String)
    → follow (health_table quoted) path (if has path ("/health" ∷ []) then some path else none)
      ≡ health_at quoted path
unfolding follow Dict.lookup
follow_health quoted path = elim (Bool-cases ("/health" == path)) [
  | inl same ↦ rw (same, ← eq_swap "/health" path, follow) (rw same)
  | inr other ↦ rw (other, ← eq_swap "/health" path) (rw other)
]

health_handler-eq-health_at :
    (mux : ServeMux) (quoted path : String)
    → IsServeMux mux
    → is_plain path ≡ true
    → health_handler mux quoted path ≡ health_at quoted path
unfolding health_handler
health_handler-eq-health_at mux quoted path law plain =
    ap (follow (health_table quoted) path)
      (law ("/health" ∷ []) path (inr health_path_plain, tt) plain)
    ∙ follow_health quoted path

abbrev hook_table : Handler → String → WebhookHandler → Dict Handler
hook_table base hook handler = ("/", base) ∷ (hook, λ _. some (webhook handler)) ∷ []

follow_hook :
    (base : Handler) (hook path : String) (handler : WebhookHandler)
    → ("/" == path) ≡ false
    → follow
        (hook_table base hook handler)
        path
        (if has path ("/" ∷ hook ∷ []) then some path else some "/")
      ≡ (if path == hook then some (webhook handler) else base path)
unfolding follow Dict.lookup
follow_hook base hook path handler path_below = elim (Bool-cases (hook == path)) [
  | inl same ↦ rw (path_below, same, ← eq_swap hook path, follow) (rw (path_below, same))
  | inr other ↦ rw (path_below, other, ← eq_swap hook path) (rw other)
]

-- Where the webhook's path is plain: a plain path that is asked for comes to the webhook, if there is
-- one and the path is its own, and else to the health check, if the path is "/health"; any other is
-- not found. So every endpoint answers at one path only, and a webhook at "/health" hides the check.
pub handler_of-eq-endpoint_at :
    (mux : ServeMux) (quoted : String) (cfg : Config) (found : Option WebhookHandler)
    (path : String)
    → IsServeMux mux
    → is_plain cfg.telegram_bot.webhook_path ≡ true
    → is_plain path ≡ true
    → handler_of mux quoted cfg found path
      ≡ endpoint_at quoted cfg.telegram_bot.webhook_path found path
unfolding handler_of route
handler_of-eq-endpoint_at mux quoted cfg none path law hook plain =
    health_handler-eq-health_at mux quoted path law plain
handler_of-eq-endpoint_at mux quoted cfg (some handler) path law hook plain =
    let base : Handler = health_handler mux quoted in
    let own : String = cfg.telegram_bot.webhook_path in
    ap (follow (hook_table base own handler) path)
      (law ("/" ∷ own ∷ []) path (inl refl, (inr hook, tt)) plain)
    ∙ follow_hook base own path handler (plain_below_root path plain)
    ∙ ap (λ e. if path == own then some (webhook handler) else e)
        (health_handler-eq-health_at mux quoted path law plain)

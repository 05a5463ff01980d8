-- ===== src/Command/GenerateVapid.antt =====
-- cmd/generate-vapid/main.go: a pair of keys for web push, as settings of the environment.
use Prim.Native.String.{◌++◌ as ◌<>◌}
use message_delivery.Prelude.{ℕ, String, Option, none, some, List, [], ◌∷◌}

-- What the program does: it exits with a code, or prints lines.
pub data Outcome : Type 0 where
  exits : ℕ → Outcome
  prints : List String → Outcome

-- `main`, over what `webpush.GenerateVAPIDKeys` returns: the private key and the public one, or an
-- error, for which `log.Fatal` exits with 1.
unfoldable pub generate_vapid : Option (String × String) → Outcome
generate_vapid none = exits 1
generate_vapid (some (private_key, public_key)) = prints (
    ("MESSAGE_DELIVERY_WEB_PUSH_VAPID_PUBLIC_KEY=" <> public_key)
    ∷ ("MESSAGE_DELIVERY_WEB_PUSH_VAPID_PRIVATE_KEY=" <> private_key)
    ∷ [])

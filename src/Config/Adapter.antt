-- ===== src/Config/Adapter.antt =====
-- The methods of `AdapterConfig` in internal/config/config.go.
use message_delivery.Prelude.{String, Bool, false, ◌==◌, if◌then◌else◌}
use message_delivery.Prelude.Int.{ℤ, pos, signed}
use message_delivery.Prelude.Text.{atoi, value_of}
use message_delivery.Config.Types.{Value, null, bool, int, float64, str, AdapterConfig, end, field}

-- `a[key]`; a missing key reads as nil.
unfoldable pub value_at : String → AdapterConfig → Value
value_at key end = null
value_at key (field k v rest) = if k == key then v else value_at key rest

-- `a[key] = v`
unfoldable pub set_at : String → Value → AdapterConfig → AdapterConfig
set_at key v end = field key v end
set_at key v (field k w rest) = if k == key then field k v rest else field k w (set_at key v rest)

abbrev pub text_of : Value → String
text_of (str s) = s
text_of _ = ""

abbrev pub truth_of : Value → Bool
truth_of (bool b) = b
truth_of _ = false

-- A number is cut off towards zero.
abbrev pub integer_of : Value → ℤ
integer_of (int n) = n
integer_of (float64 negative whole rest) = signed negative whole
integer_of (str s) = value_of (atoi s)
integer_of _ = pos 0

unfoldable pub string_at : String → AdapterConfig → String
unfolding value_at
string_at key a = text_of (value_at key a)

unfoldable pub bool_at : String → AdapterConfig → Bool
unfolding value_at
bool_at key a = truth_of (value_at key a)

unfoldable pub int_at : String → AdapterConfig → ℤ
unfolding value_at atoi
int_at key a = integer_of (value_at key a)

-- `EnvString`, with `os.Getenv`.
unfoldable pub env_string_at : (String → String) → String → AdapterConfig → String
unfolding string_at
env_string_at getenv key a =
    let name : String = string_at key a in if name == "" then "" else getenv name

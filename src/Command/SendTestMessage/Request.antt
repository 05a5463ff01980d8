-- ===== src/Command/SendTestMessage/Request.antt =====
-- cmd/send-test-message/main.go: the options of the program and the request that it makes of them.
use Prim.Native.Char.{code}
use Prim.Native.String.{◌++◌ as ◌<>◌}
use message_delivery.Prelude.{
  ℕ, String, Bool, true, not, ◌&&◌, ◌==◌, Option, none, some, List, [], ◌∷◌, eqb, if◌then◌else◌,
}
use message_delivery.Prelude.Int.{ℤ}
use message_delivery.Prelude.Fallible.{Fallible, ok, err, ◌>>=◌}
use message_delivery.Prelude.Dict
use message_delivery.Prelude.Dict.{Dict}
use message_delivery.Prelude.Text.{trim_space}
use message_delivery.Config.{Value, AdapterConfig, end, field, str, bool, float64}
use message_delivery.Delivery.Event.{
  RequestEvent, RequestError, validate_request, event_type_delivery_requested,
}
use message_delivery.Delivery.EventId.{hex_encode, decimal}
use message_delivery.Broker.Channel.{BrokerError}

pub record Options : Type 0 where
  pub config_path : String
  pub recipient_type : String
  pub recipient : String
  pub template : String
  pub purpose : String
  pub source : String
  pub event_id : String
  pub code : String
  pub ttl_sec : String
  pub locale : String
  pub selected_provider : String
  pub provider_chain : String
  pub allow_fallback : Bool
  pub variables_json : String
  pub metadata_json : String
  pub user_id : ℤ
  pub wait_result : Bool
  pub timeout : ℤ
  pub pretty : Bool

pub data RunError : Type 0 where
  flags_invalid recipient_required recipient_type_unsupported : RunError
  config_not_loaded : RunError
  json_invalid : RunError
  not_scalar : String → RunError
  request_invalid : RequestError → RunError
  not_connected : RunError
  broker_failed : BrokerError → RunError
  waited_too_long consumer_closed result_undecodable : RunError

-- The options as the flags set them, over the defaults of the flags.
abbrev default_options : Options
default_options = record {
  config_path = "message-delivery.example.json";
  recipient_type = "phone";
  recipient = "";
  template = "auth_verification_code";
  purpose = "manual_test";
  source = "manual-client";
  event_id = "";
  code = "123456";
  ttl_sec = "300";
  locale = "en";
  selected_provider = "";
  provider_chain = "";
  allow_fallback = true;
  variables_json = "";
  metadata_json = "";
  user_id = ℤ.pos 0;
  wait_result = true;
  timeout = ℤ.pos 15000000000;
  pretty = true;
}

-- `parseOptions`, over the flag package, which is given the defaults.
unfoldable pub parse_options :
    (Options → List String → Option Options) → List String → Fallible RunError Options
parse_options parse args = elim (parse default_options args) [
  | none ↦ err flags_invalid
  | some opts ↦
      if opts.recipient == ""
      then err recipient_required
      else if not (opts.recipient_type == "phone")
          && not (opts.recipient_type == "email")
          && not (opts.recipient_type == "push")
      then err recipient_type_unsupported
      else ok opts
]

-- What is outside of the program: the decoder of objects, how `fmt.Sprint` shows a number, the bytes
-- of `rand.Read`, and the time in nanoseconds.
pub record Outside : Type 0 where
  pub unmarshal : String → Option AdapterConfig
  pub show_number : Bool → ℕ → ℕ → String
  pub random : Option (List ℕ)
  pub now : ℕ

abbrev shown : Outside → String → Value → Fallible RunError String
shown o key (str s) = ok s
shown o key (bool b) = ok (if b then "true" else "false")
shown o key (float64 negative whole rest) = ok (o.show_number negative whole rest)
shown o key _ = err (not_scalar key)

-- The fields of an object, which all have to be scalar.
unfoldable pub scalars : Outside → AdapterConfig → Fallible RunError (Dict String)
scalars o end = ok []
scalars o (field key v rest) = do
  text ← shown o key v
  others ← scalars o rest
  ok ((key, text) ∷ others)

unfoldable pub parse_string_map : Outside → String → Fallible RunError (Dict String)
unfolding trim_space scalars
parse_string_map o value =
    if trim_space value == ""
    then ok []
    else elim (o.unmarshal value) [ none ↦ err json_invalid | some raw ↦ scalars o raw ]

-- `for key, value := range extra { into[key] = value }`
unfoldable pub put_all : Dict String → Dict String → Dict String
unfolding Dict.insert
put_all [] into = into
put_all ((key, value) ∷ extra) into = put_all extra (Dict.insert key value into)

abbrev extend_part : Prim.Native.Char.Char → List String → List String
extend_part c [] = String.◌∷◌ c "" ∷ []
extend_part c (part ∷ parts) = String.◌∷◌ c part ∷ parts

-- `strings.Split(value, ",")`
unfoldable pub split_comma : String → List String
split_comma String.[] = "" ∷ []
split_comma (String.◌∷◌ c s) =
    let rest = split_comma s in if eqb (code c) b',' then "" ∷ rest else extend_part c rest

unfoldable pub trimmed_parts : List String → List String
unfolding trim_space
trimmed_parts [] = []
trimmed_parts (part ∷ parts) =
    let rest = trimmed_parts parts in if trim_space part == "" then rest else trim_space part ∷ rest

unfoldable pub split_csv : String → List String
unfolding trim_space split_comma trimmed_parts
split_csv value = if trim_space value == "" then [] else trimmed_parts (split_comma value)

unfoldable pub random_hex : Option (List ℕ) → ℕ → String
unfolding hex_encode decimal
random_hex none now = decimal now
random_hex (some bytes) now = hex_encode bytes

abbrev id_of : Outside → Options → String
id_of o opts = if opts.event_id == "" then "manual-" <> random_hex o.random o.now else opts.event_id

unfoldable pub request_of : Outside → Options → Dict String → Dict String → RequestEvent
unfolding put_all random_hex split_csv
request_of o opts variables metadata = record {
  version = "v1";
  event_id = id_of o opts;
  type = event_type_delivery_requested;
  source = opts.source;
  template = opts.template;
  purpose = opts.purpose;
  recipient_type = opts.recipient_type;
  recipient = opts.recipient;
  variables = put_all variables (("code", opts.code) ∷ ("ttl_sec", opts.ttl_sec) ∷ []);
  user_id = opts.user_id;
  created_at = o.now;
  delivery = record {
    selected_provider = opts.selected_provider;
    provider_chain = split_csv opts.provider_chain;
    allow_fallback = opts.allow_fallback;
  };
  metadata = put_all metadata (("locale", opts.locale) ∷ []);
}

abbrev if_valid : RequestEvent → Option RequestError → Fallible RunError RequestEvent
if_valid event none = ok event
if_valid event (some problem) = err (request_invalid problem)

unfoldable pub build_request : Outside → Options → Fallible RunError RequestEvent
unfolding parse_string_map request_of validate_request
build_request o opts = do
  variables ← parse_string_map o opts.variables_json
  metadata ← parse_string_map o opts.metadata_json
  if_valid (request_of o opts variables metadata)
      (validate_request (request_of o opts variables metadata))

-- ===== src/Config/Types.antt =====
-- The records of internal/config/config.go, and the values of `map[string]any` that JSON fills.
use message_delivery.Prelude.{ℕ, String, Bool, List}
use message_delivery.Prelude.Int.{ℤ}
use message_delivery.Prelude.Dict.{Dict}

-- A `float64` is its sign, the whole part and the numerator of the rest over 2 ^ 1074. `int` stands
-- for a Go value that no JSON decoder makes.
mutual
  pub data Value : Type 0 where
    null : Value
    bool : Bool → Value
    int : ℤ → Value
    float64 : Bool → ℕ → ℕ → Value
    str : String → Value
    arr : Items → Value
    obj : AdapterConfig → Value

  pub data Items : Type 0 where
    nil : Items
    cons : Value → Items → Items

  -- `map[string]any`; an adapter's configuration is such a map.
  pub data AdapterConfig : Type 0 where
    end : AdapterConfig
    field : String → Value → AdapterConfig → AdapterConfig

pub record BrokerRoutingKeys : Type 0 where
  pub delivery_requested : String
  pub delivery_result : String
  pub telegram_connection_requested : String

pub record BrokerConfig : Type 0 where
  pub host : String
  pub user : String
  pub password : String
  pub password_env : String
  pub exchange_name : String
  pub exchange_kind : String
  pub consume_queue : String
  pub prefetch_count : ℤ
  pub routing_keys : BrokerRoutingKeys

pub record ChannelConfig : Type 0 where
  pub enabled : Bool
  pub default_provider : String
  pub allowed_providers : List String
  pub adapters : Dict AdapterConfig

pub record PhoneConfig : Type 0 where
  pub default_provider_chain : List String
  pub allowed_providers : List String
  pub adapters : Dict AdapterConfig

pub record ProvidersConfig : Type 0 where
  pub email : ChannelConfig
  pub phone : PhoneConfig
  pub push : ChannelConfig
  pub telegram : ChannelConfig

pub record TelegramBotPresentation : Type 0 where
  pub start_title : Dict String
  pub start_body : Dict String
  pub welcome_title : Dict String
  pub welcome_body : Dict String
  pub notification_fallback_title : Dict String
  pub notification_footer : Dict String
  pub open_action_label : Dict String

pub record TelegramBotConfig : Type 0 where
  pub enabled : Bool
  pub webhook_path : String
  pub webhook_secret_env : String
  pub connection_routing_key : String
  pub max_body_bytes : ℤ
  pub publish_timeout_sec : ℤ
  pub presentation : TelegramBotPresentation

pub record TemplateConfig : Type 0 where
  pub subject : Dict String
  pub body : Dict String
  pub text_body : Dict String
  pub text_body_file : Dict String
  pub html_body : Dict String
  pub html_body_file : Dict String
  pub content_type : String
  pub required_variables : List String

pub record TemplatesConfig : Type 0 where
  pub default_locale : String
  pub base_dir : String
  pub items : Dict TemplateConfig

pub record Config : Type 0 where
  pub host : String
  pub port : String
  pub broker : BrokerConfig
  pub providers : ProvidersConfig
  pub telegram_bot : TelegramBotConfig
  pub templates : TemplatesConfig

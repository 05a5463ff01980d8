-- ===== src/Tests/Sample.antt =====
-- A small service: two e-mail providers, a chain of two for phones, one template.
use message_delivery.Prelude.{
  String, Bool, true, false, none, some, List, [], ◌∷◌, ◌==◌, if◌then◌else◌,
}
use message_delivery.Prelude.Int.{pos}
use message_delivery.Provider.{Provider, new_unavailable}
use message_delivery.Config.{
  Config, BrokerConfig, ChannelConfig, TelegramBotPresentation, TemplateConfig, TemplatesConfig,
}
use message_delivery.Template.{Files, Rendered, text_plain}
use message_delivery.Delivery.Event.{RequestEvent, ResultEvent, DeliveryPolicy}
use message_delivery.Delivery.Idempotency.{MemoryIdempotencyStore}
use message_delivery.Delivery.Orchestrator.{World, Env, Orchestrator}

abbrev pub presentation : TelegramBotPresentation
presentation = record {
  start_title = [];
  start_body = [];
  welcome_title = [];
  welcome_body = [];
  notification_fallback_title = [];
  notification_footer = [];
  open_action_label = [];
}

abbrev pub code_item : TemplateConfig
code_item = record {
  subject = ("en", "Your code") ∷ [];
  body = ("en", "Code {{code}}") ∷ [];
  text_body = [];
  text_body_file = [];
  html_body = [];
  html_body_file = [];
  content_type = "";
  required_variables = "code" ∷ [];
}

abbrev pub templates : TemplatesConfig
templates = record { default_locale = "en"; base_dir = "/srv/t"; items = ("code", code_item) ∷ [] }

abbrev pub broker : BrokerConfig
broker = record {
  host = "";
  user = "";
  password = "";
  password_env = "";
  exchange_name = "";
  exchange_kind = "";
  consume_queue = "";
  prefetch_count = pos 0;
  routing_keys = record {
    delivery_requested = "";
    delivery_result = "";
    telegram_connection_requested = "";
  };
}

abbrev pub channel : String → List String → ChannelConfig
channel provider allowed = record {
  enabled = false;
  default_provider = provider;
  allowed_providers = allowed;
  adapters = [];
}

abbrev pub config : Config
config = record {
  host = "";
  port = "8090";
  broker = broker;
  providers = record {
    email = channel "smtp" ("smtp" ∷ "backup" ∷ []);
    phone = record {
      default_provider_chain = "telegram" ∷ "sms" ∷ [];
      allowed_providers = "telegram" ∷ "sms" ∷ [];
      adapters = [];
    };
    push = channel "webpush" ("webpush" ∷ []);
    telegram = channel "" [];
  };
  telegram_bot = record {
    enabled = false;
    webhook_path = "";
    webhook_secret_env = "";
    connection_routing_key = "";
    max_body_bytes = pos 0;
    publish_timeout_sec = pos 0;
    presentation = presentation;
  };
  templates = templates;
}

-- A provider that always takes the message.
abbrev pub willing : String → Provider
willing name = record {
  name = name;
  send = λ past message. record { status = "sent"; error_code = "" };
}

abbrev pub orchestrator : Orchestrator
orchestrator = record {
  cfg = config;
  registry = record {
    providers =
        ("smtp", new_unavailable "smtp" "provider_disabled") ∷ ("backup", willing "backup") ∷ [];
  };
  renderer = record { cfg = templates };
}

abbrev pub files : Files
files = record {
  working_dir = some "/srv";
  read_file = λ path. if path == "/srv/t/a.html" then some "<p>{{code}}</p>" else none;
  subject_order = λ variables. variables;
  body_order = λ variables. variables;
}

abbrev pub accept_all : World → ResultEvent → Bool
accept_all w event = true

abbrev pub env : Env
env = record {
  publisher = some accept_all;
  random = λ w. some (0 ∷ 1 ∷ 2 ∷ 3 ∷ 4 ∷ 5 ∷ 6 ∷ 7 ∷ 8 ∷ 9 ∷ 10 ∷ 11 ∷ 12 ∷ 13 ∷ 14 ∷ 255 ∷ []);
  unix_nano = λ w. 7;
  now = λ w. 7;
  files = files;
}

abbrev pub policy : String → List String → Bool → DeliveryPolicy
policy selected chain fallback = record {
  selected_provider = selected;
  provider_chain = chain;
  allow_fallback = fallback;
}

abbrev pub request : DeliveryPolicy → RequestEvent
request delivery = record {
  version = "v1";
  event_id = "e1";
  type = "message.delivery.requested";
  source = "auth";
  template = "code";
  purpose = "login";
  recipient_type = "email";
  recipient = "a@b.example";
  variables = ("code", "42") ∷ [];
  user_id = pos 1;
  created_at = 5;
  delivery = delivery;
  metadata = ("locale", "en") ∷ [];
}

abbrev pub rendered : Rendered
rendered = record { subject = "Your code"; body = "Code 42"; content_type = text_plain }

abbrev pub store : MemoryIdempotencyStore
store = record { seen = [] }

abbrev pub empty_world : World
empty_world = record { seen = some store; attempts = []; published = [] }

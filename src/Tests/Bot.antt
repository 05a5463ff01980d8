-- ===== src/Tests/Bot.antt =====
-- The Telegram bot: a notification, and an update that connects a chat.
use message_delivery.Prelude.{ℕ, true, false, ◌≡◌, refl, Option, none, some, List, [], ◌∷◌, arith}
use message_delivery.Prelude.Int.{ℤ, pos}
use message_delivery.Config.{TelegramBotConfig}
use message_delivery.Provider.{Message}
use message_delivery.Provider.TelegramBot.Html.{Parsers, node, nil, cons}
use message_delivery.Provider.TelegramBot.Text.{
  telegram_message, truncate_runes, telegram_target_url,
}
use message_delivery.Provider.TelegramBot.Text.Markup.{
  IsPlainMarkup, telegram_message-IsPlainMarkup,
}
use message_delivery.Webhook.{Traffic, WebhookHandler, WebhookRequest, serve_http}
use message_delivery.Webhook.Connection.{Update, UpdateMessage, Outside, show_int}
use message_delivery.Webhook.Command.{start_token, is_plain_start}
use message_delivery.Webhook.Greeted.{chat_id-greeting_of}
use message_delivery.Webhook.{greeting_of}
use message_delivery.Provider.TelegramBot.Ended
use message_delivery.Provider.TelegramBot.{TelegramBot, BotTransport, response, chat_id, send}
use message_delivery.Delivery.Event.{TelegramConnectionRequestedEvent}
use message_delivery.Webhook.Asked.{IsDigest}
use message_delivery.Webhook.Served.{IsServed, admitted, serve_http-IsServed}
use message_delivery.Tests.Sample.{presentation, willing}

abbrev pub parsers : Parsers
parsers = record {
  parse_html =
      λ text. some (node none (cons (node (some text) nil) (cons (node (some " . ") nil) nil)));
  parse_url = λ text. some (record { scheme = "https"; host = "app.example" });
}

abbrev notification : Message
notification = record {
  event_id = "e1";
  template = "notification";
  subject = "A <b>bold</b> offer";
  body = "<p>Look & see</p>";
  content_type = "text/html; charset=UTF-8";
  recipient_type = "telegram";
  recipient = "77";
  variables = [];
  metadata = ("telegram_target_path", "/offers") ∷ ("locale", "ru-RU") ∷ [];
}

telegram_message-IsPlainMarkup_example :
    IsPlainMarkup (telegram_message parsers notification "https://app.example/" presentation).0
telegram_message-IsPlainMarkup_example =
    telegram_message-IsPlainMarkup parsers notification "https://app.example/" presentation

abbrev bot : TelegramBot
bot = record {
  name = "telegram";
  base_url = "https://api.telegram.org";
  bot_token = "t0ken";
  public_base_url = "https://app.example";
  presentation = presentation;
  timeout = pos 5;
}

-- The bot is told that the chat is gone.
abbrev transport : BotTransport
transport = record {
  parsers = parsers;
  marshal = λ request. some request.text;
  is_url = λ url. true;
  exchange = λ past timeout url body.
      response 400 (some (record { ok = false; description = "Bad Request: chat not found" }));
}

send_runs : (send transport bot [] notification).error_code ≡ "telegram_bot_chat_unavailable"
unfolding send
send_runs = refl

send-IsBotEnd_example :
    Ended.IsBotEnd transport bot [] notification (send transport bot [] notification)
send-IsBotEnd_example = Ended.send-IsBotEnd transport bot [] notification

truncate_runs : truncate_runes "abcdefgh" 6 ≡ "abc..."
unfolding truncate_runes
truncate_runs = refl

target_runs :
    telegram_target_url parsers "https://app.example/" "/offers" ≡ "https://app.example/offers"
unfolding telegram_target_url
target_runs = refl

start_token_runs :
    (start_token "/start@bot  abcdefghij0123456789 " ≡ some "abcdefghij0123456789")
    × (start_token "/start abc" ≡ none)
    × (is_plain_start "/start@bot " ≡ true)
    × (show_int (pos 120) ≡ "120")
unfolding start_token is_plain_start show_int
start_token_runs = (refl, refl, refl, refl)

abbrev pub bot_config : TelegramBotConfig
bot_config = record {
  enabled = true;
  webhook_path = "/bot/webhook";
  webhook_secret_env = "SECRET";
  connection_routing_key = "connection";
  max_body_bytes = pos 65536;
  publish_timeout_sec = pos 5;
  presentation = presentation;
}

abbrev pub handler : WebhookHandler
handler = record {
  cfg = bot_config;
  secret = "s3cret";
  publisher = λ t event. true;
  welcome = willing "telegram";
}

abbrev zeros : ℕ → List ℕ
zeros ℕ.zero = []
zeros (ℕ.suc n) = 0 ∷ zeros n

abbrev pub outside : Outside
outside = record { sha256 = λ token. zeros 32; now = 7 }

abbrev start : UpdateMessage
start = record {
  text = "/start abcdefghij0123456789";
  chat = record { id = pos 77; type = "private"; username = "ann" };
  from = record { id = pos 77; username = "ann"; language_code = "en" };
}

abbrev pub update : Update
update = record { update_id = pos 12; message = some start }

abbrev decode : ℤ → Update → Option Update
decode limit body = some body

abbrev asked : WebhookRequest Update
asked = record { method = "POST"; secret_token = "s3cret"; body = update }

abbrev pub quiet_traffic : Traffic
quiet_traffic = record { published = []; greeted = [] }

serve_http_runs : ((serve_http decode outside handler asked quiet_traffic).0.status ≡ 204)
unfolding serve_http
serve_http_runs = refl

pub outside-IsDigest : IsDigest outside
outside-IsDigest text = (refl, omega arith)

serve_http-IsServed_example :
    IsServed outside handler
      (admitted decode handler asked)
      quiet_traffic
      (serve_http decode outside handler asked quiet_traffic).0
      (serve_http decode outside handler asked quiet_traffic).1
serve_http-IsServed_example =
    serve_http-IsServed decode outside handler asked quiet_traffic outside-IsDigest

abbrev pub connection : TelegramConnectionRequestedEvent
connection = record {
  version = "1.0";
  event_id = "telegram-bot-update-12";
  type = "notification.telegram.connection.requested";
  source = "message-delivery.telegram-bot";
  update_id = pos 12;
  chat_id = pos 9007199254740993;
  chat_username = "ann";
  start_token_hash = "";
  created_at = 7;
}

chat_id-greeting_of_example :
    chat_id (greeting_of connection "en" "welcome").recipient ≡ some (pos 9007199254740993)
chat_id-greeting_of_example =
    chat_id-greeting_of connection "en" "welcome" 9007199254740993 refl (omega arith) (omega arith)

-- ===== src/Lib.antt =====
-- message-delivery: a worker that takes delivery requests from a broker, renders their template and
-- hands the message to a chain of providers, and publishes one result for each request.
--
-- How the parts interact. The worker decodes each delivery, gives the event to the orchestrator, and
-- acknowledges, requeues or rejects the delivery. The orchestrator looks the event up in the
-- idempotency store, makes the plan of providers from the event and the configuration, renders the
-- message, asks the providers of the registry in turn, and publishes the result. The factory makes
-- the registry from the configuration. The webhook of the Telegram bot publishes an event for each
-- chat that asks to be connected, and greets the chat through the bot's provider. The broker carries
-- all events.
--
-- - Prelude and its children: shared names; Go's maps as association lists in the order of iteration
--   (Dict), its signed integers (Int), its pairs of a value and an error (Fallible), and what the
--   program uses of `strings`, `strconv`, `unicode` and `html` (Text).
-- - Delivery.Event, Delivery.Plan: internal/delivery/event.go. `decode_request`, `validate_request`,
--   `validate_connection` and `provider_plan` are DecodeRequest, the two Validate and ProviderPlan.
-- - Delivery.Idempotency: internal/delivery/idempotency.go; `is_seen` and `mark` are Seen and Mark.
-- - Delivery.Orchestrator, Delivery.Reporting, Delivery.EventId: internal/delivery/orchestrator.go.
--   `handle`, `publish` and `new_event_id` are Handle, publish and newEventID. `decide` is what
--   Handle does before its call of publish, `try_all` its loop and `try_provider` one round of the
--   loop. The state `World` holds the store, the calls of Send and those of PublishResult so far.
-- - Worker: internal/worker/worker.go. `handle_delivery` is handle and `run` is Run, over the cases
--   of its select in the order in which they happen.
-- - Provider: internal/provider/provider.go and unavailable.go. Provider.Fake, Provider.Gateway,
--   Provider.Webpush, Provider.TelegramBot and Provider.Email: the packages fake, telegram, webpush,
--   telegrambot and email of internal/provider. Each `send` is the provider's Send. The text of the
--   bot is `telegram_message` (telegramMessage), an e-mail is `message` (SMTP.message) over
--   `build_message` and `apply_layout`.
-- - Provider.Factory: internal/provider/factory/factory.go; `build_provider` is buildProvider and
--   `new_registry_from_config` is NewRegistryFromConfig.
-- - Webhook: internal/telegrambot/webhook.go; `serve_http` is ServeHTTP over the state `Traffic`, the
--   events published and the greetings sent so far. Webhook.Command has the regular expressions, and
--   Webhook.Connection the update and the event made of it.
-- - Broker, Broker.Channel: internal/broker/broker.go; `setup`, `consume`,
--   `consume_results_temporary` and `publish` are the methods of these names, as sequences of the
--   calls of the AMQP client. Its answer to each call may depend on the calls before. `connect` and
--   `close` are Connect and Close, by what they do to connections.
-- - Command.Service, Command.SendTestMessage: cmd/main.go and cmd/send-test-message/main.go;
--   `connect_broker` is connectBroker, `wire` what main makes of a configuration, and `build_request`,
--   `exchange`, `wait_for_result` and `run` are the parts of the test program.
-- - Command.Service.Main: `main` of cmd/main.go from its flags to the server that it starts, with the
--   routes of `withTelegramWebhook` and `healthHandler`. Command.Service.Running: the worker that it
--   starts, with the broker as the publisher of its results. Command.Service.Together: the worker
--   and the webhook side by side over one broker. `run_together` takes deliveries and requests one
--   after the other, in any order; that the server and the worker may also be at work at one time is
--   not modelled, but each publishes on a channel of its own, and the answers of the client and of the
--   providers, which may depend on all that was before, are arbitrary.
-- - Command.GenerateVapid: cmd/generate-vapid/main.go.
-- - FilePath: what the program uses of `path/filepath` on Unix.
-- - Template, Template.Disk: internal/template/render.go. `render` is Render, `template_body` is
--   body, and `read_template_file` and `resolve_template_file` are the functions of these names.
-- - Config and its children: internal/config/config.go. `apply_env`, `set_defaults`, `with_defaults`,
--   `validate`, `allowed_provider` and `default_provider_chain` are the methods of these names, and
--   `string_at`, `bool_at`, `int_at` and `env_string_at` those of AdapterConfig; `load` is Load.
-- - Tests: runs at concrete inputs, and the theorems applied to them.
--
-- What is a parameter: the JSON decoder and encoder, the HTTP, SMTP and AMQP clients, the parsers
-- of URLs, mail addresses and HTML, the flag package, hashing, environment variables, files and the
-- working directory, the clock, randomness, `http.ServeMux`, the publishers, the providers'
-- answers, and the orders in which Go iterates over a map. A provider, a publisher and a client may
-- answer by what happened before, so any sequence of answers is covered.
--
-- Choices. Texts are valid UTF-8, which the JSON decoder makes of any input. A nil map reads as an
-- empty one. Contexts and log lines are left out: the program passes contexts on to the parameters.
-- Times are whole numbers of nanoseconds. Errors are constructors in place of their texts. One
-- goroutine handles the deliveries, so each method of the store is one step. A number from JSON is
-- its sign, its whole part and the rest; a whole part beyond 64 bits, whose conversion Go leaves to
-- the machine, is kept. Loops are recursive on the list that they range over. Two functions are on
-- fuel. `decimal` is given one more than its number and so has enough for all digits.
-- `connect_broker` is given a number of rounds, as the program tries for ever;
-- Command.Service.Connecting says how many are enough. Texts are lowered only to be compared with
-- ASCII texts. The two regular expressions are functions on texts; Webhook.Command.Matches and
-- Webhook.Command.Complete write them out. The paths of `http.ServeMux` are those of plain
-- characters in their shortest form, for which its documentation says what it does.
--
-- Not modelled: of cmd/main.go the flag package, the signals, the listening of the HTTP server and
-- the shutdown; of cmd/send-test-message the printing; log lines.
pub mod Prelude
pub mod Provider
pub mod FilePath
pub mod Config
pub mod Template
pub mod Delivery
pub mod Worker
pub mod Broker
pub mod Webhook
pub mod Command
mod Tests

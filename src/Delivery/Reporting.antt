-- ===== src/Delivery/Reporting.antt =====
-- `publish` of internal/delivery/orchestrator.go, and the state and the surroundings of the
-- orchestrator.
use message_delivery.Prelude.{
  ℕ, String, Bool, Option, none, some, List, [], ◌∷◌, ◌++◌, if◌then◌else◌,
}
use message_delivery.Provider.{Attempt}
use message_delivery.Template.{Files}
use message_delivery.Delivery.Event.{RequestEvent, ResultEvent, event_type_delivery_result}
use message_delivery.Delivery.Idempotency.{MemoryIdempotencyStore}
use message_delivery.Delivery.EventId.{new_event_id}

-- A result given to the publisher, and whether `PublishResult` returned no error.
pub record Publication : Type 0 where
  pub event : ResultEvent
  pub accepted : Bool

-- What the handling of requests changes: the store of the events seen (nil or there), and the calls
-- of `Send` and `PublishResult` so far.
pub record World : Type 0 where
  pub seen : Option MemoryIdempotencyStore
  pub attempts : List Attempt
  pub published : List Publication

-- What is outside of the program: the publisher (nil or there), `rand.Read`, the two readings of the
-- clock in `newEventID` and `publish`, the files.
pub record Env : Type 0 where
  pub publisher : Option (World → ResultEvent → Bool)
  pub random : World → Option (List ℕ)
  pub unix_nano : World → ℕ
  pub now : World → ℕ
  pub files : Files

-- The arguments that a call of `publish` is given.
pub record Report : Type 0 where
  pub provider : String
  pub attempt : ℕ
  pub status : String
  pub error_code : String

-- What `Handle` returns: an error alone, a result, or a result and the publisher's error.
pub data Handled : Type 0 where
  nil_request : Handled
  done : ResultEvent → Handled
  not_published : ResultEvent → Handled

unfoldable pub result_event : Env → RequestEvent → Report → World → ResultEvent
result_event env request report w = record {
  version = request.version;
  event_id = new_event_id (env.random w) (env.unix_nano w);
  type = event_type_delivery_result;
  request_event_id = request.event_id;
  status = report.status;
  recipient_type = request.recipient_type;
  recipient = request.recipient;
  provider = report.provider;
  attempt = report.attempt;
  error_code = report.error_code;
  created_at = env.now w;
}

unfoldable pub publish_with :
    Option (World → ResultEvent → Bool) → ResultEvent → World → Handled × World
publish_with none result w = (done result, w)
publish_with (some publisher) result w =
    let accepted = publisher w result in
    let w' = record w {
      published = w.published ++ record { event = result; accepted = accepted } ∷ [];
    } in
    (if accepted then done result else not_published result, w')

-- `Orchestrator.publish`
unfoldable pub publish : Env → RequestEvent → Report → World → Handled × World
unfolding publish_with
publish env request report w = publish_with env.publisher (result_event env request report w) w

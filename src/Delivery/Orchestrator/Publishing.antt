-- ===== src/Delivery/Orchestrator/Publishing.antt =====
-- The one call of `publish` that ends the handling of a request.
use message_delivery.Prelude.{
  ℕ, ◌+◌, String, ◌≡◌, refl, Bool, Option, some, List, [], ◌∷◌, ◌++◌, arith, ap, ◌∙◌, length,
  if◌then◌else◌,
}
use message_delivery.Delivery.Orchestrator.Cases.{decide_cases}
use message_delivery.Template.{Rendered}
use message_delivery.Delivery.Event.{RequestEvent, ResultEvent, event_type_delivery_result}
use message_delivery.Delivery.Orchestrator.{
  World, Env, Orchestrator, Publication, Handled, done, not_published, result_event, publish,
  publish_with, try_all, try_provider, after_send, decide, handle, plan_of, true,
}

module _ (o : Orchestrator) (e : RequestEvent) (r : Rendered) where
  published-try_provider :
      (name : String) (attempt : ℕ) (w : World)
      → (try_provider o e r name attempt w).1.published ≡ w.published
  unfolding try_provider after_send
  published-try_provider name attempt w = ground arith

  published-try_all :
      (total : ℕ) (names : List String) (attempt : ℕ) (w : World)
      → (try_all o e r total names attempt w).1.published ≡ w.published
  unfolding try_all
  published-try_all total [] attempt w = refl
  published-try_all total (name ∷ names) attempt w = ground (
    arith,
    published-try_provider name attempt w,
    published-try_all total names (attempt + 1) (try_provider o e r name attempt w).1,
  )

-- Nothing is published before the report is made.
published-decide :
    (env : Env) (o : Orchestrator) (e : RequestEvent) (w : World)
    → (decide env o e w).1.published ≡ w.published
published-decide env o e w =
    decide_cases env o e w (λ d. d.1.published ≡ w.published) (λ _. refl) (λ _ _. refl) (λ _. refl)
      (λ _ r _. published-try_all o e r (length (plan_of o e)) (plan_of o e) 1 w)

abbrev pub outcome : Publication → Handled
outcome p = if p.accepted then done p.event else not_published p.event

publish_with-some :
    (found : Option (World → ResultEvent → Bool)) (publisher : World → ResultEvent → Bool)
    (event : ResultEvent) (w : World)
    → found ≡ some publisher
    → publish_with found event w ≡ (
      outcome (record { event = event; accepted = publisher w event }),
      record w {
        published = w.published ++ record { event = event; accepted = publisher w event } ∷ [];
      },
    )
unfolding publish_with
publish_with-some found publisher event w h = rw h

-- With a publisher, handling a request publishes exactly one result, whichever way it goes. The
-- result names the request by its id and has its version, recipient type and recipient; the caller
-- gets it back, with an error exactly where the publisher refused it.
pub handle_publishes_once :
    (env : Env) (o : Orchestrator) (e : RequestEvent) (w : World)
    (publisher : World → ResultEvent → Bool)
    → env.publisher ≡ some publisher
    → (p : Publication) × ((handle env o (some e) w).1.published ≡ w.published ++ p ∷ [])
      × ((handle env o (some e) w).0 ≡ outcome p)
      × (p.event.request_event_id ≡ e.event_id)
      × (p.event.type ≡ event_type_delivery_result)
      × (p.event.version ≡ e.version)
      × (p.event.recipient_type ≡ e.recipient_type)
      × (p.event.recipient ≡ e.recipient)
unfolding handle publish result_event
handle_publishes_once env o e w publisher h =
    let (report, w') = decide env o e w in
    let event : ResultEvent = result_event env e report w' in
    let published = publish_with-some env.publisher publisher event w' h in
    (
      record { event = event; accepted = publisher w' event },
      ap (λ d. d.1.published) published
          ∙ ap (λ l. l ++ record { event = event; accepted = publisher w' event } ∷ [])
              (published-decide env o e w),
      ap (λ d. d.0) published,
      refl,
      refl,
      refl,
      refl,
      refl,
    )

-- The publisher is asked once, before anything else is published, and its answer is what counts.
pub handle_asks_publisher :
    (env : Env) (o : Orchestrator) (e : RequestEvent) (w : World)
    (publisher : World → ResultEvent → Bool)
    → env.publisher ≡ some publisher
    → (result : ResultEvent) × (w' : World) × (w'.published ≡ w.published)
      × (result.request_event_id ≡ e.event_id)
      × (handle env o (some e) w ≡ (
        outcome (record { event = result; accepted = publisher w' result }),
        record w' {
          published = w.published ++ record { event = result; accepted = publisher w' result } ∷ [];
        },
      ))
unfolding handle publish result_event
handle_asks_publisher env o e w publisher h =
    let (report, w') = decide env o e w in
    let event : ResultEvent = result_event env e report w' in
    let before : w'.published ≡ w.published = published-decide env o e w in
    let p : Publication = record { event = event; accepted = publisher w' event } in
    (
      event,
      w',
      before,
      refl,
      publish_with-some env.publisher publisher event w' h
          ∙ ap (λ l. (outcome p, record w' { published = l ++ p ∷ [] })) before,
    )

-- Where the publisher takes whatever it is given before another result is published, a request is
-- handled without an error.
pub handle_accepted :
    (env : Env) (o : Orchestrator) (e : RequestEvent) (w : World)
    (publisher : World → ResultEvent → Bool)
    → env.publisher ≡ some publisher
    → ((later : World) (result : ResultEvent)
        → later.published ≡ w.published
        → publisher later result ≡ true)
    → (result : ResultEvent) × ((handle env o (some e) w).0 ≡ done result)
unfolding handle publish
handle_accepted env o e w publisher h accepts =
    let (report, w') = decide env o e w in
    let event : ResultEvent = result_event env e report w' in
    let taken : publisher w' event ≡ true = accepts w' event (published-decide env o e w) in
    let published = publish_with-some env.publisher publisher event w' h in
    (event, ap (λ d. d.0) published ∙ rw taken)

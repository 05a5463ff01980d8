-- ===== src/Broker/Ended.antt =====
-- How a publication ends, on every branch.
use mathlib.Core.List.{append_assoc}
use message_delivery.Prelude.{
  String, Bool-cases, Option-cases, inl, inr, true, false, ◌≡◌, refl, Option, some, none, List, [],
  ◌∷◌, ◌++◌,
}
use message_delivery.Prelude.Fallible.{Fallible, ok, err}
use message_delivery.Config.{BrokerConfig}
use message_delivery.Broker.{
  Client, Event, Operation, BrokerError, open_channel, close_channel, marshal_event,
  open_publish_channel, publish_failed, call, publish, then_close,
}
use message_delivery.Broker.Published.{publish_operations, published}

-- The ends of a publication: an event that cannot be encoded, with no call made; no channel; or the
-- event's text published on a channel that is closed after it, taken or refused.
pub data IsPublished (client : Client) (marshal : Event → Option String) (cfg : BrokerConfig)
    (routing_key : String) (event : Event) (past : List Operation)
    (r : Fallible BrokerError (Unit {0})) (after : List Operation) : Type 0 where
  not_encoded :
      marshal event ≡ none
      → r ≡ err marshal_event
      → after ≡ past
      → IsPublished client marshal cfg routing_key event past r after
  no_channel :
      client.succeeds past open_channel ≡ false
      → r ≡ err open_publish_channel
      → after ≡ past ++ open_channel ∷ []
      → IsPublished client marshal cfg routing_key event past r after
  taken :
      (body : String)
      → marshal event ≡ some body
      → client.succeeds past open_channel ≡ true
      → client.succeeds (past ++ open_channel ∷ []) (published cfg routing_key body) ≡ true
      → r ≡ ok tt
      → after ≡ past ++ publish_operations cfg routing_key body
      → IsPublished client marshal cfg routing_key event past r after
  refused :
      (body : String)
      → marshal event ≡ some body
      → client.succeeds past open_channel ≡ true
      → client.succeeds (past ++ open_channel ∷ []) (published cfg routing_key body) ≡ false
      → r ≡ err publish_failed
      → after ≡ past ++ publish_operations cfg routing_key body
      → IsPublished client marshal cfg routing_key event past r after

module _ (client : Client) (marshal : Event → Option String) (cfg : BrokerConfig)
    (routing_key : String) (event : Event) (past : List Operation) where
  encoded-IsPublished :
      (body : String)
      → marshal event ≡ some body
      → client.succeeds past open_channel ≡ true
      → IsPublished client marshal cfg routing_key event past
          (publish client marshal cfg routing_key event past).0
          (publish client marshal cfg routing_key event past).1
  unfolding publish call then_close
  encoded-IsPublished body encoded opened =
      let made : (past ++ open_channel ∷ [])
            ++ published cfg routing_key body ∷ []
            ++ close_channel ∷ []
          ≡ past ++ publish_operations cfg routing_key body =
        simp (append_assoc) in
      elim (Bool-cases
        (client.succeeds (past ++ open_channel ∷ []) (published cfg routing_key body))) [
          | inl sent ↦
              rw (encoded, publish)
                (rw (opened) (rw sent (taken body encoded opened sent refl made)))
          | inr failed ↦
              rw (encoded, publish)
                (rw opened (rw failed (refused body encoded opened failed refl made)))
        ]

  -- However a publication ends, it made the calls of that end and no other.
  pub publish-IsPublished :
      IsPublished client marshal cfg routing_key event past
        (publish client marshal cfg routing_key event past).0
        (publish client marshal cfg routing_key event past).1
  unfolding publish call then_close
  publish-IsPublished = elim (Option-cases (marshal event)) [
    | inl unmarshalled ↦ rw (unmarshalled, publish) (not_encoded unmarshalled refl refl)
    | inr (body, encoded) ↦ elim (Bool-cases (client.succeeds past open_channel)) [
      | inl opened ↦ encoded-IsPublished body encoded opened
      | inr closed ↦ rw (encoded, publish) (rw closed (no_channel closed refl refl))
    ]
  ]

-- ===== src/Delivery/Idempotency.antt =====
-- internal/delivery/idempotency.go. One goroutine handles the requests, so the lock is never
-- contended, and each method is one step.
use message_delivery.Prelude.{String, Bool, List, ◌∷◌, contains, if◌then◌else◌}

pub record MemoryIdempotencyStore : Type 0 where
  pub seen : List String

abbrev pub new_memory_idempotency_store : MemoryIdempotencyStore
new_memory_idempotency_store = record { seen = List.[] }

unfoldable pub is_seen : MemoryIdempotencyStore → String → Bool
is_seen s event_id = contains s.seen event_id

-- Marking twice stores one key.
unfoldable pub mark : MemoryIdempotencyStore → String → MemoryIdempotencyStore
mark s event_id = if contains s.seen event_id then s else record { seen = event_id ∷ s.seen }

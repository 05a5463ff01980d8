-- ===== src/Delivery.antt =====
-- internal/delivery: the contracts of requests and results, and the handling of one request.
pub mod Event
pub mod Plan
pub mod Idempotency
pub mod EventId
pub mod Reporting
pub mod Orchestrator

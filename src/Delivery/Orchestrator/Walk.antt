-- ===== src/Delivery/Orchestrator/Walk.antt =====
-- Which providers a request is given to, in which order, and what the report says of their answers.
pub mod Rounds
pub mod Loop

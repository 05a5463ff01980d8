-- ===== src/Command.antt =====
-- cmd: the programs made of the parts.
pub mod SendTestMessage
pub mod Service
pub mod GenerateVapid

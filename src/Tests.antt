-- ===== src/Tests.antt =====
-- Runs of the model at concrete inputs, and the theorems applied to them.
mod Sample
mod Delivery
mod Worker
mod Config
mod Template
mod Provider
mod Webpush
mod Broker
mod Bot
mod Email
mod Service
mod Commands
mod Main
mod Together

-- ===== src/Tests.antt =====
-- Runs of the model at concrete inputs, and each theorem at an input that meets its hypotheses.
mod Data
mod Payments
mod Refunds
mod Webhooks
mod Tenants
mod Settlements
mod Server
mod Http
mod Dashboard
mod ServiceBus
mod Migrations
mod Programs
mod Startup

-- ===== src/Tests.antt =====
-- Concrete data, and the theorems at concrete inputs.
mod Data
mod Handling
mod Wallets
mod Purchases
mod Services
mod Conversation
mod Payments
mod Panel

-- ===== src/Reseller.antt =====
-- The handlers of a reseller's panel.
pub mod OrderReview
pub mod Callbacks
pub mod ChargeStock
pub mod PaymentMethods
pub mod Catalog

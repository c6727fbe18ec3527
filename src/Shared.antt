-- ===== src/Shared.antt =====
-- packages/shared/src: the definitions that the API, the worker and the web client share.
pub mod Text
pub mod Enums
pub mod Transitions
pub mod Pricing
pub mod Decimal
pub mod Money

-- ===== src/Tax.antt =====
-- The tax module, backend/src/tax.
pub mod Errors
pub mod Money
pub mod Types
pub mod Fees
pub mod Sale
pub mod Ledger
pub mod Liability
pub mod Rules
pub mod Refund

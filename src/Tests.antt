-- ===== src/Tests.antt =====
-- The theorems at concrete inputs.
mod Samples
mod Payments
mod Refunds
mod Stock
mod Orders
mod Drawers
mod Quotas
mod Prices
mod Menus
mod Counters
mod Tokens
mod Entries
mod Shifts
mod Keys
mod Limits
mod Expiry

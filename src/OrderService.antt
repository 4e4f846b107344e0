-- ===== src/OrderService.antt =====
-- Orders: backend/src/services/order.
pub mod Status
pub mod Cancellation
pub mod Stock
pub mod Expiry

-- ===== src/Domain.antt =====
-- The transition tables of payments, refunds and cashier payments (backend/src/domain/payment).
pub mod Reach
pub mod PaymentStateMachine
pub mod RefundStateMachine
pub mod CashierPaymentStateMachine

-- ===== src/RefundService.antt =====
-- Refunds: `processRefund` of backend/src/services/payment/refund.service.ts. A refund's payment exists,
-- by the foreign key. What the payment provider answers to a refund, its reference or an error, is a
-- parameter. `requestRefund` and `processProviderRefund` are left out: the client refuses the query of
-- the first, which includes a relation `payment` of an order, and both create rows without the
-- required column `type`, which it refuses too.
pub mod Totals
pub mod Funded
pub mod Once
use coffee_shop_saas_platfor.Prelude.{
  ℕ, not, Option, some, List, [], ◌∷◌, ◌==◌, ◌&&◌, if◌then◌else◌,
}
use coffee_shop_saas_platfor.Int.{ℤ, pos, leb_ℤ}
use coffee_shop_saas_platfor.Table.{find, sum_of}
use coffee_shop_saas_platfor.Action.{
  Result, Error, Action, pure, throw, or_throw, gets, transaction, try_catch, ◌>>=◌, ◌>>◌,
  refund_not_found, record_not_found,
}
use coffee_shop_saas_platfor.Schema.{
  Provider, PaymentStatus, RefundStatus, is_refund, Payment, Refund, refund_processing,
  refund_completed, refund_failed, Db,
}
use coffee_shop_saas_platfor.Store.{emit, update_payment, update_refund}
use coffee_shop_saas_platfor.Domain
use coffee_shop_saas_platfor.Domain.PaymentStateMachine
use coffee_shop_saas_platfor.Domain.RefundStateMachine

-- A completed refund of the payment counts with its amount.
abbrev pub completed_of_payment : ℕ → Refund → ℤ
completed_of_payment k r =
    if r.payment == k && is_refund r.status RefundStatus.completed then r.amount else pos 0

-- The `data` of the updates of a refund row.
abbrev pub mark_processing : Refund → Refund
mark_processing r = record r { status = RefundStatus.processing }

abbrev pub mark_completed : ℕ → ℕ → Refund → Refund
mark_completed now ref r = record r {
  status = RefundStatus.completed;
  provider_ref = some ref;
  processed_at = some now;
}

abbrev pub mark_failed : Refund → Refund
mark_failed r = record r { status = RefundStatus.failed }

abbrev pub set_status : PaymentStatus → Payment → Payment
set_status s p = record p { status = s }

-- The status of a payment after `total` of its `amount` has been refunded.
abbrev pub refund_outcome : ℤ → ℤ → PaymentStatus
refund_outcome amount total =
    if leb_ℤ amount total then PaymentStatus.refunded else PaymentStatus.partially_refunded

-- The end of both transactions: the payment's new status from the completed refunds.
settle_payment : ℕ → Payment → Action Db Payment
unfolding PaymentStateMachine.assert_transition
settle_payment key payment = do
  total ← gets (λ db. sum_of (completed_of_payment key) db.refunds)
  PaymentStateMachine.assert_transition payment.status (refund_outcome payment.amount total)
  update_payment key (set_status (refund_outcome payment.amount total))

complete_write : ℕ → Refund → Payment → ℕ → Action Db Payment
unfolding RefundStateMachine.assert_transition settle_payment
complete_write k refund payment ref = do
  RefundStateMachine.assert_transition RefundStatus.processing RefundStatus.completed
  now ← gets (λ db. db.now)
  update_refund k (mark_completed now ref)
  settle_payment refund.payment payment

fail_refund : ℕ → Error → Action Db Refund
unfolding RefundStateMachine.assert_transition
fail_refund k e = do
  RefundStateMachine.assert_transition RefundStatus.processing RefundStatus.failed
  update_refund k mark_failed
  emit (refund_failed k)
  throw e

module _ (provider_refund : Provider → Option ℕ → ℤ → Result ℕ) where
  complete_refund : ℕ → Refund → Payment → Action Db Refund
  unfolding complete_write
  complete_refund k refund payment = do
    ref ← (λ db. (provider_refund refund.provider payment.provider_ref refund.amount, db))
    transaction (complete_write k refund payment ref)
    emit (refund_completed k refund.payment refund.amount)
    pure refund

  process_requested : ℕ → Refund → Payment → Action Db Refund
  unfolding RefundStateMachine.assert_transition complete_refund fail_refund
  process_requested k refund payment = do
    RefundStateMachine.assert_transition refund.status RefundStatus.processing
    update_refund k mark_processing
    emit (refund_processing k)
    try_catch (complete_refund k refund payment) (fail_refund k)

  unfoldable pub process_refund : ℕ → Action Db Refund
  unfolding process_requested
  process_refund k = do
    refund ← or_throw (← gets (λ db. find k db.refunds)) refund_not_found
    payment ← or_throw (← gets (λ db. find refund.payment db.payments)) record_not_found
    if not (is_refund refund.status RefundStatus.requested)
        then pure refund
        else process_requested k refund payment

  -- The refund job: the refunds of a list, one after the other; a throw ends that refund's call.
  pub process_all : List ℕ → Db → Db
  process_all [] db = db
  process_all (k ∷ ks) db = process_all ks (process_refund k db).1

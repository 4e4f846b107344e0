-- ===== src/PaymentService.antt =====
-- The life of a provider payment: `PaymentService` of backend/src/services/payment/payment.service.ts
-- from the provider's first answer on. `startPayment` is left out: the client refuses its first query,
-- which includes a relation that the schema lacks. The provider is a parameter: what its `lookup` answers, which may be an error.
pub mod Follows
pub mod Effects
use coffee_shop_saas_platfor.Prelude.{ℕ, ◌+◌, some, List, [], ◌∷◌, leb, if◌then◌else◌}
use coffee_shop_saas_platfor.Table.{find}
use coffee_shop_saas_platfor.Action.{
  Result, Error, payment_not_found, max_retries_exceeded, missing_provider_ref, validation_error,
  Action, pure, throw, or_throw, gets, transaction, ◌>>=◌, ◌>>◌, throw_if, when, try_catch,
}
use coffee_shop_saas_platfor.Schema.{
  Provider, FailureCode, NormalizedProviderError, enum_code, Order, Payment, is_payment, Db,
  payment_confirmed, payment_failed, payment_cancelled, provider_declined, PaymentStatus,
  OrderStatus,
}
use coffee_shop_saas_platfor.Store.{emit, update_payment, update_order}
use coffee_shop_saas_platfor.Domain.PaymentStateMachine.{assert_transition}

-- `PaymentLookupResult.status` of backend/src/domain/payment/payment.types.ts
pub data LookupStatus : Type 0 where
  paid failed pending : LookupStatus

-- The `data` of the updates of a payment row.
abbrev mark_paid : ℕ → Payment → Payment
mark_paid now p = record p { status = PaymentStatus.paid; paid_at = some now }

abbrev pub mark_failed : ℕ → NormalizedProviderError → Payment → Payment
mark_failed now code p = record p {
  status = PaymentStatus.failed;
  failure_code = some code;
  failed_at = some now;
}

abbrev pub mark_cancelled : Payment → Payment
mark_cancelled p = record p { status = PaymentStatus.cancelled }

abbrev pub mark_retrying : ℕ → Payment → Payment
mark_retrying now p = record p {
  status = PaymentStatus.retrying;
  retries = p.retries + 1;
  last_retry_at = some now;
}

-- The `data` of the updates of an order row.
abbrev order_paid : Order → Order
order_paid o = record o { status = OrderStatus.paid; payment_status = PaymentStatus.completed }

abbrev order_failed : Order → Order
order_failed o = record o {
  status = OrderStatus.payment_failed;
  payment_status = PaymentStatus.failed;
}

abbrev pub order_cancelled : Order → Order
order_cancelled o = record o {
  status = OrderStatus.cancelled;
  payment_status = PaymentStatus.cancelled;
}

get_payment : ℕ → Action Db Payment
get_payment k = do or_throw (← gets (λ db. find k db.payments)) payment_not_found

-- `paymentAuditSnapshot.create` is given the reason `PAYMENT_CONFIRMED`, which is no value of the enum
-- `SnapshotReason`: the client refuses it.
confirm_write : ℕ → Payment → Action Db Payment
confirm_write k payment = do
  now ← gets (λ db. db.now)
  update_payment k (mark_paid now)
  update_order payment.order order_paid
  throw validation_error

confirm_new : ℕ → Payment → Action Db Payment
unfolding assert_transition confirm_write
confirm_new k payment = do
  assert_transition payment.status PaymentStatus.paid
  updated ← transaction (confirm_write k payment)
  emit (payment_confirmed k payment.order payment.amount)
  pure updated

unfoldable pub confirm_from_provider_event : ℕ → Action Db Payment
unfolding get_payment confirm_new
confirm_from_provider_event k = do
  payment ← get_payment k
  if is_payment payment.status PaymentStatus.paid then pure payment else confirm_new k payment

mark_failed_write : ℕ → Payment → FailureCode → Action Db Payment
mark_failed_write k payment code = do
  now ← gets (λ db. db.now)
  reason ← or_throw (enum_code code) validation_error
  updated ← update_payment k (mark_failed now reason)
  update_order payment.order order_failed
  pure updated

unfoldable pub mark_failed_from_provider : ℕ → FailureCode → Action Db Payment
unfolding get_payment assert_transition mark_failed_write
mark_failed_from_provider k code = do
  payment ← get_payment k
  assert_transition payment.status PaymentStatus.failed
  updated ← transaction (mark_failed_write k payment code)
  emit (payment_failed k payment.order code)
  pure updated

cancel_write : ℕ → Payment → Action Db Payment
cancel_write k payment = do
  updated ← update_payment k mark_cancelled
  update_order payment.order order_cancelled
  pure updated

unfoldable pub cancel_from_provider : ℕ → Action Db Payment
unfolding get_payment assert_transition cancel_write
cancel_from_provider k = do
  payment ← get_payment k
  assert_transition payment.status PaymentStatus.cancelled
  updated ← transaction (cancel_write k payment)
  emit (payment_cancelled k payment.order)
  pure updated

-- What the code does with the provider's answer.
handle_lookup : ℕ → Payment → LookupStatus → Action Db Payment
handle_lookup k payment paid = confirm_from_provider_event k
handle_lookup k payment failed = mark_failed_from_provider k provider_declined
handle_lookup k payment pending = pure payment

-- `increment: 1` on `retries`
pub retry_write : ℕ → Action Db Payment
retry_write k = do now ← gets (λ db. db.now); update_payment k (mark_retrying now)

module _ (lookup : Provider → ℕ → Result LookupStatus) where
  unfoldable pub confirm_by_polling : ℕ → Action Db Payment
  unfolding get_payment handle_lookup
  confirm_by_polling k = do
    payment ← get_payment k
    ref ← or_throw payment.provider_ref missing_provider_ref
    status ← (λ db. (lookup payment.provider ref, db))
    handle_lookup k payment status

  -- The `catch` of `retryFailedPayment`.
  retry_failed : ℕ → Payment → Error → Action Db Payment
  retry_failed k updated e = do
    when (leb updated.max_retries updated.retries)
        (do mark_failed_from_provider k FailureCode.max_retries_exceeded; pure tt)
    throw e

  unfoldable pub retry_failed_payment : ℕ → Action Db Payment
  unfolding get_payment assert_transition retry_write retry_failed
  retry_failed_payment k = do
    payment ← get_payment k
    throw_if (leb payment.max_retries payment.retries) max_retries_exceeded
    assert_transition payment.status PaymentStatus.retrying
    updated ← retry_write k
    try_catch (confirm_by_polling k) (retry_failed k updated)

-- The calls of the webhook controller and of the polling and retry jobs. A poll and a retry come with
-- what the provider answers to that call.
pub data Call : Type 0 where
  confirm cancel : ℕ → Call
  fail : ℕ → FailureCode → Call
  poll retry : (Provider → ℕ → Result LookupStatus) → ℕ → Call

-- A throw ends the call.
apply : Call → Db → Db
apply (confirm k) db = (confirm_from_provider_event k db).1
apply (fail k code) db = (mark_failed_from_provider k code db).1
apply (cancel k) db = (cancel_from_provider k db).1
apply (poll lookup k) db = (confirm_by_polling lookup k db).1
apply (retry lookup k) db = (retry_failed_payment lookup k db).1

pub run : List Call → Db → Db
run [] db = db
run (c ∷ cs) db = run cs (apply c db)

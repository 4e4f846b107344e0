-- ===== src/PartialPayment.antt =====
-- Paying an order in parts: `PartialPaymentService` of
-- backend/src/services/payment/partialPayment.service.ts, over the columns of orders and payments that
-- it reads. The schema makes `Payment.orderUuid` unique, so a second payment row for an order is
-- refused; and its `PaymentStatus` has no `PARTIALLY_PAID`, so an update that writes it is refused.
pub mod Stuck
use coffee_shop_saas_platfor.Prelude.{ℕ, suc, Bool, true, none, some, ◌==◌, ◌||◌, if◌then◌else◌}
use coffee_shop_saas_platfor.Int.{ℤ, pos, ◌+ℤ◌, ◌-ℤ◌, leb_ℤ, ltb_ℤ, max_ℤ}
use coffee_shop_saas_platfor.Table.{Table, find, find_first, find_many, update, create, sum_of}
use coffee_shop_saas_platfor.Action.{
  order_not_found, exceeds_remaining_balance, invalid_partial_amount, unique_violation,
  validation_error, Action, pure, throw, throw_if, or_throw, gets, modify, ◌>>=◌, ◌>>◌,
}
use coffee_shop_saas_platfor.Schema.{PaymentStatus, OrderStatus, is_payment}

pub record CounterOrder : Type 0 where
  pub total_amount : ℤ
  pub status : OrderStatus
  pub payment_status : PaymentStatus

pub record CounterPayment : Type 0 where
  pub order : ℕ
  pub amount : ℤ
  pub status : PaymentStatus
  pub is_partial : Bool

pub record Counter : Type 0 where
  pub orders : Table CounterOrder
  pub payments : Table CounterPayment
  pub next_key : ℕ

abbrev pub is_of_order : ℕ → CounterPayment → Bool
is_of_order k p = p.order == k

abbrev pub is_paid : CounterPayment → Bool
is_paid p = is_payment p.status PaymentStatus.paid || is_payment p.status PaymentStatus.completed

abbrev pub amount_of : CounterPayment → ℤ
amount_of p = if is_paid p then p.amount else pos 0

-- The payments of an order, and what they have paid.
abbrev pub payments_of : ℕ → Counter → Table CounterPayment
payments_of k s = find_many (is_of_order k) s.payments

unfoldable pub paid_amount : ℕ → Counter → ℤ
paid_amount k s = sum_of amount_of (payments_of k s)

abbrev pub partial_payment : ℕ → ℤ → CounterPayment
partial_payment k amount = record {
  order = k;
  amount = amount;
  status = PaymentStatus.completed;
  is_partial = true;
}

abbrev pub in_full : CounterOrder → CounterOrder
in_full o = record o { status = OrderStatus.paid; payment_status = PaymentStatus.completed }

-- `payment.create`
abbrev pub insert_payment : CounterPayment → Action Counter ℕ
insert_payment p s = elim (find_first (is_of_order p.order) s.payments) [
  | some _ ↦ throw unique_violation s
  | none ↦
      pure s.next_key
        (record s { payments = create s.next_key p s.payments; next_key = suc s.next_key })
]

-- What follows the creation of the payment: `paid` is the new sum.
abbrev pub settle_order : ℕ → CounterOrder → ℤ → Action Counter (Unit {0})
settle_order k o paid =
    if leb_ℤ o.total_amount paid
    then modify (λ s. record s { orders = update k in_full s.orders })
    else throw validation_error

unfoldable pub create_partial : ℕ → ℤ → Action Counter ℕ
create_partial k amount = do
  o ← or_throw (← gets (λ s. find k s.orders)) order_not_found
  paid ← gets (paid_amount k)
  throw_if (ltb_ℤ (o.total_amount -ℤ paid) amount) exceeds_remaining_balance
  throw_if (leb_ℤ amount (pos 0)) invalid_partial_amount
  payment ← insert_payment (partial_payment k amount)
  settle_order k o (paid +ℤ amount)
  pure payment

pub record Breakdown : Type 0 where
  pub order_total : ℤ
  pub total_paid : ℤ
  pub remaining : ℤ
  pub payments : Table CounterPayment
  pub is_fully_paid : Bool

unfoldable pub get_payment_breakdown : ℕ → Action Counter Breakdown
get_payment_breakdown k = do
  o ← or_throw (← gets (λ s. find k s.orders)) order_not_found
  paid ← gets (paid_amount k)
  rows ← gets (λ s. find_many is_paid (payments_of k s))
  pure (record {
    order_total = o.total_amount;
    total_paid = paid;
    remaining = max_ℤ (pos 0) (o.total_amount -ℤ paid);
    payments = rows;
    is_fully_paid = leb_ℤ (o.total_amount -ℤ paid) (pos 0);
  })

-- ===== src/OrderService/Cancellation.antt =====
-- backend/src/services/order/orderCancellation.service.ts. The reason and the times are left out.
use coffee_shop_saas_platfor.Prelude.{
  ℕ, suc, ◌+◌, Bool, true, false, not, Option, none, some, [], ◌∷◌, ◌==◌, ◌&&◌, ◌||◌, ltb, zero,
  if◌then◌else◌,
}
use mathlib.Core.Option
use coffee_shop_saas_platfor.Table.{Table, find, find_first, find_many}
use coffee_shop_saas_platfor.Action.{
  Action, pure, or_throw, gets, throw_if, transaction, try_catch, when, ◌>>=◌, ◌>>◌,
  order_not_found, cannot_cancel_paid_order, order_not_cancellable, order_not_paid,
  cannot_cancel_in_status,
}
use coffee_shop_saas_platfor.Schema.{
  Order, OrderItem, OrderStatus, is_order, PaymentStatus, is_payment, order_cancelled,
  order_cancelled_after_payment, Db,
}
use coffee_shop_saas_platfor.Store.{emit, update_order, update_order_items}
use coffee_shop_saas_platfor.Inventory.Orders.{release_for_order}
use coffee_shop_saas_platfor.OrderService.Status.{set_order_status, log_status}

-- `findFirst` by the order's key and its tenant
abbrev pub order_of_tenant : ℕ → ℕ → Db → Option Order
order_of_tenant tenant k db = elim (find k db.orders) [
  | none ↦ none
  | some o ↦ if o.tenant == tenant then some o else none
]

abbrev pub release_item : OrderItem → OrderItem
release_item i = record i { inventory_released = true }

cancel_before_write : ℕ → Order → Action Db (Unit {0})
cancel_before_write k order = do
  update_order k (set_order_status OrderStatus.cancelled)
  release_for_order k
  update_order_items (λ i. i.order == k) release_item
  log_status k order.status OrderStatus.cancelled

unfoldable pub cancel_before_payment : ℕ → ℕ → Action Db Order
unfolding cancel_before_write
cancel_before_payment tenant k = do
  order ← or_throw (← gets (order_of_tenant tenant k)) order_not_found
  throw_if (is_payment order.payment_status PaymentStatus.paid) cannot_cancel_paid_order
  throw_if (not (is_order order.status OrderStatus.pending)) order_not_cancellable
  transaction (cancel_before_write k order)
  emit (order_cancelled k)
  pure order

-- `order.payments[0]?.uuid`
abbrev payment_key : ℕ → Db → Option ℕ
payment_key k db = Option.map (λ p. p.0) (find_first (λ p. p.order == k) db.payments)

cancel_after_write : ℕ → Order → Action Db (Unit {0})
cancel_after_write k order = do
  update_order k (set_order_status OrderStatus.cancelled)
  when order.inventory_committed (release_for_order k)
  log_status k order.status OrderStatus.cancelled

unfoldable pub cancel_after_payment : ℕ → ℕ → Action Db Order
unfolding cancel_after_write
cancel_after_payment tenant k = do
  order ← or_throw (← gets (order_of_tenant tenant k)) order_not_found
  payment ← gets (payment_key k)
  throw_if (not (is_payment order.payment_status PaymentStatus.paid)) order_not_paid
  throw_if
      (not (is_order order.status OrderStatus.paid || is_order order.status OrderStatus.preparing))
      cannot_cancel_in_status
  transaction (cancel_after_write k order)
  emit (order_cancelled_after_payment k payment order.total_amount)
  pure order

-- The `where` of the expired orders: 15 minutes old, in milliseconds.
abbrev pub is_expired : ℕ → Order → Bool
is_expired now o =
    is_order o.status OrderStatus.pending
    && is_payment o.payment_status PaymentStatus.pending
    && ltb (o.created_at + 900000) now

-- `take`
abbrev pub take_rows : ℕ → Table Order → Table Order
take_rows zero t = []
take_rows (suc n) [] = []
take_rows (suc n) (e ∷ t) = e ∷ take_rows n t

-- `cancelled` counts the calls that do not throw.
abbrev tried : {A : Type 0} → Action Db A → Action Db Bool
tried m = try_catch (m >> pure true) (λ e. pure false)

unfoldable pub cancel_each : Table Order → Action Db ℕ
cancel_each [] = pure 0
cancel_each ((k, o) ∷ rest) = do
  done ← tried (cancel_before_payment o.tenant k)
  n ← cancel_each rest
  pure (if done then suc n else n)

unfoldable pub cancel_expired_orders : Action Db ℕ
cancel_expired_orders = do
  now ← gets (λ db. db.now)
  expired ← gets (λ db. take_rows 50 (find_many (is_expired now) db.orders))
  cancel_each expired

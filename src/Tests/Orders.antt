-- ===== src/Tests/Orders.antt =====
-- The status of orders and their cancellation.
use coffee_shop_saas_platfor.Prelude.{◌≡◌, refl, true, [], ◌∷◌}
use coffee_shop_saas_platfor.Schema.{Order, OrderStatus, PaymentStatus, Db}
use coffee_shop_saas_platfor.OrderService.Status.{
  order_moves, set_order_status, transitions_run, OrdersFollow, transitions_run-OrdersFollow,
}
use coffee_shop_saas_platfor.Tests.Samples.{an_order, a_shop}

abbrev paid_order : Order
paid_order = set_order_status OrderStatus.paid an_order

abbrev kitchen : Db
kitchen = record (a_shop PaymentStatus.paid) { orders = (5, paid_order) ∷ [] }

paid_preparing : order_moves OrderStatus.paid OrderStatus.preparing ≡ true
unfolding order_moves
paid_preparing = refl

transitions_run-OrdersFollow_example :
    OrdersFollow kitchen
      (transitions_run ((5, OrderStatus.preparing) ∷ (5, OrderStatus.cancelled) ∷ []) kitchen)
transitions_run-OrdersFollow_example =
    transitions_run-OrdersFollow ((5, OrderStatus.preparing) ∷ (5, OrderStatus.cancelled) ∷ [])
      kitchen

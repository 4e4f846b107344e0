-- ===== src/Tests/Expiry.antt =====
-- The job that cancels expired orders.
use coffee_shop_saas_platfor.Prelude.{◌≡◌, refl, inl, some, [], ◌∷◌}
use coffee_shop_saas_platfor.Table.{find}
use coffee_shop_saas_platfor.Action.{ok}
use coffee_shop_saas_platfor.Schema.{Order, OrderStatus, Db}
use coffee_shop_saas_platfor.Inventory.Orders.{release_for_order, release_one}
use coffee_shop_saas_platfor.OrderService.Status.{set_order_status}
use coffee_shop_saas_platfor.OrderService.Cancellation.{
  cancel_expired_orders, cancel_each, cancel_before_payment,
}
use coffee_shop_saas_platfor.OrderService.Expiry.{cancel_expired_spares}
use coffee_shop_saas_platfor.Tests.Samples.{an_order, held_shop}

abbrev paid_order : Order
paid_order = set_order_status OrderStatus.paid an_order

-- An hour later: order 5 is still PENDING, and order 8 is PAID.
abbrev late_shop : Db
late_shop = record held_shop { orders = (5, an_order) ∷ (8, paid_order) ∷ []; now = 3600000 }

late_cancelled : (cancel_expired_orders late_shop).0 ≡ ok 1
unfolding cancel_expired_orders cancel_each cancel_before_payment release_for_order release_one
late_cancelled = refl

cancel_expired_spares_example : find 8 (cancel_expired_orders late_shop).1.orders ≡ some paid_order
cancel_expired_spares_example =
    cancel_expired_spares 8 late_shop paid_order (refl, (refl, tt)) refl (inl refl)

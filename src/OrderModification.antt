-- ===== src/OrderModification.antt =====
-- Changing an order that is not paid: `OrderModificationService` of
-- backend/src/services/order/orderModification.service.ts, its
-- `addItem`, `removeItem` and `updateItemQuantity`.
-- `Math.round(subtotal * 0.1)` is a parameter, `tax_of`. `InventoryService` has no method
-- `reserveStock`, so that a call of it throws a `TypeError`.
pub mod Effects
pub mod Sums
pub mod Upwards
use coffee_shop_saas_platfor.Prelude.{
  ℕ, suc, false, not, Option, none, some, List, [], ◌∷◌, ◌==◌, length, if◌then◌else◌,
}
use coffee_shop_saas_platfor.Int.{ℤ, pos, ◌+ℤ◌, ◌-ℤ◌, ◌*ℤ◌, leb_ℤ, ltb_ℤ}
use coffee_shop_saas_platfor.Table.{Table, find, find_many, update, delete, create}
use coffee_shop_saas_platfor.Action.{
  order_not_found, cannot_modify_paid_order, order_item_not_found, cannot_remove_last_item,
  quantity_must_be_positive, type_error, validation_error, Result, Action, pure, throw, throw_if,
  or_throw, gets, modify, when, transaction, ◌>>=◌, ◌>>◌,
}
use coffee_shop_saas_platfor.Schema.{
  Db, Order, OrderItem, PaymentStatus, is_payment, order_item_removed, order_item_quantity_updated,
}
use coffee_shop_saas_platfor.Store.{emit, update_order}
use coffee_shop_saas_platfor.Pricing.Items.{Menu, OrderItemInput, ResolvedItem}
use coffee_shop_saas_platfor.Pricing.{PricingDb, PricingResult, from_result, resolve_items}

abbrev of_tenant : ℕ → Option Order → Option Order
of_tenant tenant none = none
of_tenant tenant (some o) = if o.tenant == tenant then some o else none

-- `order.items`
abbrev pub items_of : ℕ → Table OrderItem → Table OrderItem
items_of k t = find_many (λ i. i.order == k) t

-- The order, if it may be changed.
unfoldable pub modifiable : ℕ → ℕ → Action Db Order
modifiable tenant k = do
  o ← or_throw (← gets (λ db. of_tenant tenant (find k db.orders))) order_not_found
  throw_if (not (is_payment o.payment_status PaymentStatus.pending)) cannot_modify_paid_order
  pure o

abbrev pub set_quantity : ℤ → OrderItem → OrderItem
set_quantity n i = record i {
  quantity = n;
  subtotal = i.unit_price *ℤ n;
  final_price = i.unit_price *ℤ n -ℤ i.discount_amount;
}

module _ (tax_of : ℤ → ℤ) where
  abbrev pub set_totals : ℤ → Order → Order
  set_totals subtotal o = record o {
    subtotal = subtotal;
    tax_amount = tax_of subtotal;
    total_amount = subtotal +ℤ tax_of subtotal;
  }

  unfoldable pub remove_write : ℕ → Order → ℕ → OrderItem → Action Db (Unit {0})
  remove_write k o j i = do
    modify (λ db. record db { order_items = delete j db.order_items })
    update_order k (set_totals (o.subtotal -ℤ i.subtotal))
    pure tt

  unfoldable pub remove_item : ℕ → ℕ → ℕ → Action Db Order
  remove_item tenant k j = do
    o ← modifiable tenant k
    i ← or_throw (← gets (λ db. find j (items_of k db.order_items))) order_item_not_found
    count ← gets (λ db. length (items_of k db.order_items))
    throw_if (count == 1) cannot_remove_last_item
    transaction (remove_write k o j i)
    emit (order_item_removed k i.product i.quantity)
    pure o

  unfoldable pub quantity_write : ℕ → Order → ℕ → OrderItem → ℤ → Action Db (Unit {0})
  quantity_write k o j i n = do
    modify (λ db. record db { order_items = update j (set_quantity n) db.order_items })
    when (ltb_ℤ (pos 0) (n -ℤ i.quantity)) (throw type_error)
    update_order k (set_totals (o.subtotal +ℤ i.unit_price *ℤ (n -ℤ i.quantity)))
    pure tt

  unfoldable pub update_item_quantity : ℕ → ℕ → ℕ → ℤ → Action Db Order
  update_item_quantity tenant k j n = do
    throw_if (leb_ℤ n (pos 0)) quantity_must_be_positive
    o ← modifiable tenant k
    i ← or_throw (← gets (λ db. find j (items_of k db.order_items))) order_item_not_found
    transaction (quantity_write k o j i n)
    emit (order_item_quantity_updated k j i.quantity n)
    pure o

-- `orderItem.create` for a priced item: a number that is none is refused.
unfoldable pub row_of : ℕ → ResolvedItem → Option OrderItem
row_of k i = elim i.discount_amount [
  | none ↦ none
  | some d ↦ elim i.final_price [
    | none ↦ none
    | some f ↦ elim i.tax_amount [
      | none ↦ none
      | some _ ↦ some (record {
        order = k;
        product = i.product;
        quantity = i.quantity;
        unit_price = i.unit_price;
        subtotal = i.subtotal;
        discount_amount = d;
        final_price = f;
        inventory_reserved = false;
        inventory_released = false;
      })
    ]
  ]
]

abbrev insert_item : OrderItem → Action Db (Unit {0})
insert_item i = modify (λ db. record db {
  order_items = create db.next_key i db.order_items;
  next_key = suc db.next_key;
})

-- What stands after the call of `reserveStock` is not reached.
unfoldable pub add_write : ℕ → ResolvedItem → Action Db (Unit {0})
add_write k item = do
  row ← or_throw (row_of k item) validation_error
  insert_item row
  throw type_error

abbrev first_of {ℓ} : {A : Type ℓ} → List A → Option A
first_of [] = none
first_of (x ∷ _) = some x

-- `store_menu` is what the menu service answers; the other parameters are those of `resolve_items`.
module _ {Rate : Type 0} (times : ℤ → Rate → ℤ) (share : ℤ → ℤ → ℤ → ℤ) (over_hundred : Rate → Rate)
    (tenth nothing : Rate) (rates : PricingDb Rate) (store_menu : ℕ → Result Menu) where
  abbrev pub price_item : ℕ → Menu → OrderItemInput → Result (PricingResult Rate)
  price_item store menu input =
      (resolve_items times share over_hundred tenth nothing store menu (input ∷ []) none rates).0

  unfoldable pub add_item : ℕ → ℕ → OrderItemInput → Action Db Order
  add_item tenant k input = do
    o ← modifiable tenant k
    menu ← from_result (store_menu o.store)
    priced ← from_result (price_item o.store menu input)
    item ← or_throw (first_of priced.items) type_error
    transaction (add_write k item)
    pure o

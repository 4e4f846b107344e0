-- ===== src/OrderModification/Upwards.antt =====
-- Changing the quantity of an item: upwards, and to what it is.
use coffee_shop_saas_platfor.Prelude.{ℕ, ◌≡◌, refl, sym, ap, ◌∙◌, some, arith}
use coffee_shop_saas_platfor.Int.{
  ℤ, pos, ◌+ℤ◌, ◌-ℤ◌, ◌*ℤ◌, ◌<ℤ◌, lt→ltb_ℤ, lt→leb_ℤ, le→ltb_ℤ, int_laws, parts_of_eq, mul_sub,
}
use coffee_shop_saas_platfor.Table.{find, find-update_self}
use coffee_shop_saas_platfor.Action.{ok, err, type_error}
use coffee_shop_saas_platfor.Schema.{Db, Order, OrderItem, PaymentStatus}
use coffee_shop_saas_platfor.OrderModification.{
  items_of, modifiable, set_totals, quantity_write, update_item_quantity,
}

is_modifiable :
    (tenant k : ℕ) (db : Db) (o : Order)
    → find k db.orders ≡ some o
    → o.tenant ≡ tenant
    → o.payment_status ≡ PaymentStatus.pending
    → modifiable tenant k db ≡ (ok o, db)
unfolding modifiable
is_modifiable tenant k db o h t p = ground (arith, h, t, p)

module _ (tax_of : ℤ → ℤ) (k j : ℕ) (n : ℤ) (db : Db) (o : Order) (i : OrderItem)
    (order : find k db.orders ≡ some o) (pending : o.payment_status ≡ PaymentStatus.pending)
    (item : find j (items_of k db.order_items) ≡ some i) (positive : pos 0 <ℤ n) where
  -- An order of the table that is not paid, one of its items, and a positive quantity that is greater
  -- than the item's: `updateItemQuantity` throws a `TypeError`, and nothing is changed.
  pub more_fails :
      i.quantity <ℤ n → update_item_quantity tax_of o.tenant k j n db ≡ (err type_error, db)
  unfolding update_item_quantity quantity_write
  more_fails more =
      let may = is_modifiable o.tenant k db o order refl pending in
      let good = lt→leb_ℤ n (pos 0) positive in
      let up = lt→ltb_ℤ (pos 0) (n -ℤ i.quantity) (omega (int_laws, more)) in
      ground (arith, may, good, item, up)

  same_quantity :
      n ≡ i.quantity
      → find k (update_item_quantity tax_of o.tenant k j n db).1.orders
        ≡ some (set_totals tax_of (o.subtotal +ℤ i.unit_price *ℤ (n -ℤ i.quantity)) o)
  unfolding update_item_quantity quantity_write
  same_quantity same =
      let may = is_modifiable o.tenant k db o order refl pending in
      let good = lt→leb_ℤ n (pos 0) positive in
      let level = le→ltb_ℤ (pos 0) (n -ℤ i.quantity) (omega (int_laws, parts_of_eq same)) in
      let row =
        find-update_self k (set_totals tax_of (o.subtotal +ℤ i.unit_price *ℤ (n -ℤ i.quantity)))
          db.orders o order in
      ground (arith, may, good, item, level, order, row)

  -- An order of the table that is not paid, whose total is its subtotal less the discount, with the
  -- tax for the subtotal and the service charge; one of its items, with a positive quantity; and that
  -- same quantity asked for. `updateItemQuantity` leaves the subtotal, the discount and the service
  -- charge of the order as they are, but from its total they drop out.
  pub same_quantity_drops_discount :
      n ≡ i.quantity
      → o.tax_amount ≡ tax_of o.subtotal
      → o.total_amount ≡ o.subtotal -ℤ o.discount_amount +ℤ o.tax_amount +ℤ o.service_charge
      → (o' : Order) × (find k (update_item_quantity tax_of o.tenant k j n db).1.orders ≡ some o')
        × (o'.subtotal ≡ o.subtotal)
        × (o'.discount_amount ≡ o.discount_amount)
        × (o'.service_charge ≡ o.service_charge)
        × (o'.total_amount ≡ o.total_amount +ℤ o.discount_amount -ℤ o.service_charge)
  same_quantity_drops_discount same tax total =
      let new = o.subtotal +ℤ i.unit_price *ℤ (n -ℤ i.quantity) in
      let price : i.unit_price *ℤ n ≡ i.unit_price *ℤ i.quantity =
        ap (λ x. i.unit_price *ℤ x) same in
      let level : new ≡ o.subtotal =
        omega (int_laws, parts_of_eq (mul_sub i.unit_price n i.quantity), parts_of_eq price) in
      let taxes : tax_of new ≡ o.tax_amount = ap tax_of level ∙ sym tax in
      (
        set_totals tax_of new o,
        same_quantity same,
        level,
        refl,
        refl,
        omega (int_laws, parts_of_eq level, parts_of_eq taxes, parts_of_eq total),
      )

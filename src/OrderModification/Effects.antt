-- ===== src/OrderModification/Effects.antt =====
-- The rows that a modification writes.
use coffee_shop_saas_platfor.Prelude.{
  ℕ, ◌≡◌, ◌⊎◌, inl, inr, some, arith, ◌==◌, length, Bool-cases, Option-cases,
}
use coffee_shop_saas_platfor.Int.{ℤ, pos, ◌+ℤ◌, ◌-ℤ◌, ◌*ℤ◌, leb_ℤ, ltb_ℤ}
use coffee_shop_saas_platfor.Table.{find, update, delete}
use coffee_shop_saas_platfor.Action.{
  Error, Result, validation_error, ok, err, type_error, Result-cases,
}
use coffee_shop_saas_platfor.Schema.{Db, Order, OrderItem}
use coffee_shop_saas_platfor.Pricing.Items.{Menu, OrderItemInput, ResolvedItem}
use coffee_shop_saas_platfor.Pricing.{PricingDb}
use coffee_shop_saas_platfor.OrderModification.{
  row_of, add_write, price_item, add_item, first_of, items_of, modifiable, set_totals, remove_write,
  remove_item, set_quantity, quantity_write, update_item_quantity,
}

pub modifiable_lem :
    (tenant k : ℕ) (db : Db)
    → ((modifiable tenant k db).1 ≡ db)
      × ((o : Order) → (modifiable tenant k db).0 ≡ ok o → find k db.orders ≡ some o)
unfolding modifiable
modifiable_lem tenant k db = elim (Option-cases (find k db.orders)) [
  | inl e ↦ (ground (arith, e), λ o h. absurd (ground (arith, e, h)))
  | inr (o', e) ↦ (ground (arith, e), λ o h. ground (arith, e, h))
]

abbrev pub Same : Db → Db → Type 0
Same db db' = (db'.orders ≡ db.orders) × (db'.order_items ≡ db.order_items)

module _ (tax_of : ℤ → ℤ) where
  -- The rows that a modification of item `j` of order `k` writes.
  abbrev pub Removed : ℕ → ℕ → Db → Db → Type 0
  Removed k j db db' =
      (o : Order) × (i : OrderItem) × (find k db.orders ≡ some o)
      × (find j (items_of k db.order_items) ≡ some i)
      × (db'.orders ≡ update k (set_totals tax_of (o.subtotal -ℤ i.subtotal)) db.orders)
      × (db'.order_items ≡ delete j db.order_items)

  remove_write_lem :
      (k j : ℕ) (o : Order) (i : OrderItem) (db : Db)
      → find k db.orders ≡ some o
      → (remove_write tax_of k o j i db).0 ≡ ok tt
        × ((remove_write tax_of k o j i db).1.orders
            ≡ update k (set_totals tax_of (o.subtotal -ℤ i.subtotal)) db.orders)
        × ((remove_write tax_of k o j i db).1.order_items ≡ delete j db.order_items)
  unfolding remove_write
  remove_write_lem k j o i db h = (ground (arith, h), ground (arith, h), ground (arith, h))

  pub remove_effect :
      (tenant k j : ℕ) (db : Db)
      → Same db (remove_item tax_of tenant k j db).1
        ⊎ Removed k j db (remove_item tax_of tenant k j db).1
  unfolding remove_item
  remove_effect tenant k j db =
      let (keep, found) = modifiable_lem tenant k db in
      elim (Result-cases (modifiable tenant k db).0) [
        | inr (x, e) ↦ inl (ground (arith, e, keep), ground (arith, e, keep))
        | inl (o, e) ↦ elim (Option-cases (find j (items_of k db.order_items))) [
          | inl none' ↦ inl (ground (arith, e, keep, none'), ground (arith, e, keep, none'))
          | inr (i, there) ↦ elim (Bool-cases (length (items_of k db.order_items) == 1)) [
            | inl last ↦
                inl (ground (arith, e, keep, there, last), ground (arith, e, keep, there, last))
            | inr more ↦
                let (done, orders, items) = remove_write_lem k j o i db (found o e) in
                inr (
                  o,
                  i,
                  found o e,
                  there,
                  ground (arith, e, keep, there, more, done, orders),
                  ground (arith, e, keep, there, more, done, items),
                )
          ]
        ]
      ]

  abbrev pub Recounted : ℕ → ℕ → ℤ → Db → Db → Type 0
  Recounted k j n db db' =
      (o : Order) × (i : OrderItem) × (find k db.orders ≡ some o)
      × (find j (items_of k db.order_items) ≡ some i)
      × (db'.orders
          ≡ update k (set_totals tax_of (o.subtotal +ℤ i.unit_price *ℤ (n -ℤ i.quantity)))
              db.orders)
      × (db'.order_items ≡ update j (set_quantity n) db.order_items)

  quantity_write_lem :
      (k j : ℕ) (o : Order) (i : OrderItem) (n : ℤ) (db : Db)
      → find k db.orders ≡ some o
      → let (r, db') = quantity_write tax_of k o j i n db in
        (r ≡ err type_error)
        ⊎ ((r ≡ ok tt)
            × (db'.orders
                ≡ update k
                    (set_totals tax_of (o.subtotal +ℤ i.unit_price *ℤ (n -ℤ i.quantity)))
                    db.orders)
            × (db'.order_items ≡ update j (set_quantity n) db.order_items))
  unfolding quantity_write
  quantity_write_lem k j o i n db h = elim (Bool-cases (ltb_ℤ (pos 0) (n -ℤ i.quantity))) [
    | inl up ↦ inl (ground (arith, up))
    | inr down ↦ inr (ground (arith, h, down), ground (arith, h, down), ground (arith, h, down))
  ]

  pub quantity_effect :
      (tenant k j : ℕ) (n : ℤ) (db : Db)
      → Same db (update_item_quantity tax_of tenant k j n db).1
        ⊎ Recounted k j n db (update_item_quantity tax_of tenant k j n db).1
  unfolding update_item_quantity
  quantity_effect tenant k j n db =
      let (keep, found) = modifiable_lem tenant k db in
      elim (Bool-cases (leb_ℤ n (pos 0))) [
        | inl bad ↦ inl (ground (arith, bad), ground (arith, bad))
        | inr good ↦ elim (Result-cases (modifiable tenant k db).0) [
          | inr (x, e) ↦ inl (ground (arith, good, e, keep), ground (arith, good, e, keep))
          | inl (o, e) ↦ elim (Option-cases (find j (items_of k db.order_items))) [
            | inl none' ↦
                inl (ground (arith, good, e, keep, none'), ground (arith, good, e, keep, none'))
            | inr (i, there) ↦ elim (quantity_write_lem k j o i n db (found o e)) [
              | inl wrong ↦ inl (
                ground (arith, good, e, keep, there, wrong),
                ground (arith, good, e, keep, there, wrong),
              )
              | inr (done, orders, items) ↦ inr (
                o,
                i,
                found o e,
                there,
                ground (arith, good, e, keep, there, done, orders),
                ground (arith, good, e, keep, there, done, items),
              )
            ]
          ]
        ]
      ]

add_write_lem :
    (k : ℕ) (item : ResolvedItem) (db : Db) → (e : Error) × ((add_write k item db).0 ≡ err e)
unfolding add_write
add_write_lem k item db = elim (Option-cases (row_of k item)) [
  | inl e ↦ (validation_error, ground (arith, e))
  | inr (row, e) ↦ (type_error, ground (arith, e))
]

module _ {Rate : Type 0} (times : ℤ → Rate → ℤ) (share : ℤ → ℤ → ℤ → ℤ) (over_hundred : Rate → Rate)
    (tenth nothing : Rate) (rates : PricingDb Rate) (store_menu : ℕ → Result Menu) where
  pub add_effect :
      (tenant k : ℕ) (input : OrderItemInput) (db : Db)
      → Same db
          (add_item times share over_hundred tenth nothing rates store_menu tenant k input db).1
  unfolding add_item
  add_effect tenant k input db =
      let (keep, found) = modifiable_lem tenant k db in
      elim (Result-cases (modifiable tenant k db).0) [
        | inr (x, e) ↦ (ground (arith, e, keep), ground (arith, e, keep))
        | inl (o, e) ↦ elim (Result-cases (store_menu o.store)) [
          | inr (x, m) ↦ (ground (arith, e, keep, m), ground (arith, e, keep, m))
          | inl (menu, m) ↦
              elim (Result-cases (
                price_item times share over_hundred tenth nothing rates store_menu o.store menu
                  input)) [
                    | inr (x, p) ↦ (ground (arith, e, keep, m, p), ground (arith, e, keep, m, p))
                    | inl (priced, p) ↦ elim (Option-cases (first_of priced.items)) [
                      | inl f ↦ (ground (arith, e, keep, m, p, f), ground (arith, e, keep, m, p, f))
                      | inr (item, f) ↦
                          let (x, wrong) = add_write_lem k item db in
                          (
                            ground (arith, e, keep, m, p, f, wrong),
                            ground (arith, e, keep, m, p, f, wrong),
                          )
                    ]
                  ]
        ]
      ]

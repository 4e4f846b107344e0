-- ===== src/Inventory/Orders/Spares.antt =====
-- Releasing the stock of an order writes to no other order.
use coffee_shop_saas_platfor.Prelude.{ℕ, ◌≡◌, ◌≢◌, refl, inl, inr, [], ◌∷◌, arith, Option-cases}
use coffee_shop_saas_platfor.Table.{Table, find, find_many, find-update_ne}
use coffee_shop_saas_platfor.Action.{for_each, Result-cases}
use coffee_shop_saas_platfor.Schema.{InventoryItem, Reservation, Db}
use coffee_shop_saas_platfor.Inventory.Orders.{
  release_one, release_rows, release_for_order, is_open, set_released,
}

release_one-orders :
    (items : Table InventoryItem) (e : ℕ × Reservation) (db : Db)
    → (release_one items e db).1.orders ≡ db.orders
unfolding release_one
release_one-orders items (k, r) db = ground arith

loop-orders :
    (items : Table InventoryItem) (rows : Table Reservation) (db : Db)
    → (for_each rows (release_one items) db).1.orders ≡ db.orders
loop-orders items [] db = refl
loop-orders items (r ∷ rows) db =
    let first = release_one-orders items r db in
    let rest = loop-orders items rows (release_one items r db).1 in
    elim (Result-cases (release_one items r db).0) [
      | inl (u, e) ↦ ground (arith, first, rest)
      | inr (x, e) ↦ ground (arith, first)
    ]

release_rows-find :
    (order j : ℕ) (items : Table InventoryItem) (rows : Table Reservation) (db : Db)
    → j ≢ order
    → find j (release_rows order items rows db).1.orders ≡ find j db.orders
unfolding release_rows
release_rows-find order j items [] db ne = refl
release_rows-find order j items (r ∷ rows) db ne =
    let loop = for_each (r ∷ rows) (release_one items) db in
    let same = loop-orders items (r ∷ rows) db in
    elim (Result-cases loop.0) [
      | inl (u, e) ↦ elim (Option-cases (find order loop.1.orders)) [
        | inl h ↦ ground (arith, same)
        | inr (o, h) ↦ ground (arith, same, find-update_ne j order set_released loop.1.orders ne)
      ]
      | inr (x, e) ↦ ground (arith, same)
    ]

-- Releasing an order, whether it ends well or not, leaves every other order as it was.
pub release-find :
    (order j : ℕ) (db : Db)
    → j ≢ order
    → find j (release_for_order order db).1.orders ≡ find j db.orders
unfolding release_for_order
release-find order j db ne =
    let rows = find_many (is_open order) db.reservations in
    let same = release_rows-find order j db.inventory rows db ne in
    elim (Result-cases (release_rows order db.inventory rows db).0) [
      | inl (u, e) ↦ ground (arith, same)
      | inr (x, e) ↦ ground (arith, same)
    ]

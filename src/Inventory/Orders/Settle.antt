-- ===== src/Inventory/Orders/Settle.antt =====
-- What `commitForOrder` and `releaseForOrder` do to each stock row and to the reservations.
use coffee_shop_saas_platfor.Prelude.{ℕ, ◌≡◌, refl, inl, inr, [], ◌∷◌, arith, Option-cases}
use coffee_shop_saas_platfor.Int.{ℤ, pos, ◌+ℤ◌, ◌-ℤ◌, int_laws, parts_of_eq}
use coffee_shop_saas_platfor.Table.{Table, find, update}
use coffee_shop_saas_platfor.Action.{ok, for_each}
use coffee_shop_saas_platfor.Schema.{InventoryItem, Reservation, Db}
use coffee_shop_saas_platfor.Inventory.Orders.{
  commit_stock, release_stock, mark_committed, mark_released, commit_one, release_one, commit_rows,
  release_rows,
}

-- Stock of `q` has left the shop: it was reserved, and is now neither there nor reserved.
abbrev pub Committed : ℤ → InventoryItem → InventoryItem → Type 0
Committed q a b =
    (b.current_stock +ℤ q ≡ a.current_stock)
    × (b.reserved_stock +ℤ q ≡ a.reserved_stock)
    × (b.available_stock ≡ a.available_stock)
    × (b.quantity +ℤ q ≡ a.quantity)
    × (b.reserved_quantity +ℤ q ≡ a.reserved_quantity)

-- Stock of `q` is for sale again.
abbrev pub Released : ℤ → InventoryItem → InventoryItem → Type 0
Released q a b =
    (b.current_stock ≡ a.current_stock)
    × (b.reserved_stock +ℤ q ≡ a.reserved_stock)
    × (b.available_stock ≡ a.available_stock +ℤ q)
    × (b.quantity ≡ a.quantity)
    × (b.reserved_quantity +ℤ q ≡ a.reserved_quantity)

pub Committed-zero : (a : InventoryItem) → Committed (pos 0) a a
Committed-zero a = (omega int_laws, omega int_laws, refl, omega int_laws, omega int_laws)

pub Committed-more :
    (q s d : ℤ) (a b : InventoryItem) → Committed d (commit_stock q s a) b → Committed (q +ℤ d) a b
Committed-more q s d a b (c, r, v, n, m) = (
  omega (int_laws, parts_of_eq c),
  omega (int_laws, parts_of_eq r),
  v,
  omega (int_laws, parts_of_eq n),
  omega (int_laws, parts_of_eq m),
)

pub Committed-same : (d : ℤ) (a b : InventoryItem) → Committed d a b → Committed (pos 0 +ℤ d) a b
Committed-same d a b (c, r, v, n, m) = (
  omega (int_laws, parts_of_eq c),
  omega (int_laws, parts_of_eq r),
  v,
  omega (int_laws, parts_of_eq n),
  omega (int_laws, parts_of_eq m),
)

pub Released-zero : (a : InventoryItem) → Released (pos 0) a a
Released-zero a = (refl, omega int_laws, omega int_laws, refl, omega int_laws)

pub Released-more :
    (q s d : ℤ) (a b : InventoryItem) → Released d (release_stock q s a) b → Released (q +ℤ d) a b
Released-more q s d a b (c, r, v, n, m) = (
  c,
  omega (int_laws, parts_of_eq r),
  omega (int_laws, parts_of_eq v),
  n,
  omega (int_laws, parts_of_eq m),
)

pub Released-same : (d : ℤ) (a b : InventoryItem) → Released d a b → Released (pos 0 +ℤ d) a b
Released-same d a b (c, r, v, n, m) = (
  c,
  omega (int_laws, parts_of_eq r),
  omega (int_laws, parts_of_eq v),
  n,
  omega (int_laws, parts_of_eq m),
)

module _ (items : Table InventoryItem) where
  pub commit_step :
      (k : ℕ) (r : Reservation) (db : Db)
      → (commit_one items (k, r) db).0 ≡ ok tt
      → let db' = (commit_one items (k, r) db).1 in
        (s : ℤ) × (db'.inventory ≡ update r.item (commit_stock r.quantity s) db.inventory)
        × (db'.reservations ≡ update k mark_committed db.reservations)
        × (db'.next_key ≡ db.next_key)
  unfolding commit_one
  commit_step k r db h = elim (Option-cases (find r.item items)) [
    | inl e ↦ absurd (ground arith)
    | inr (i, e) ↦ (i.current_stock -ℤ r.quantity, ground arith, ground arith, ground arith)
  ]

  pub release_step :
      (k : ℕ) (r : Reservation) (db : Db)
      → (release_one items (k, r) db).0 ≡ ok tt
      → let db' = (release_one items (k, r) db).1 in
        (s : ℤ) × (db'.inventory ≡ update r.item (release_stock r.quantity s) db.inventory)
        × (db'.reservations ≡ update k mark_released db.reservations)
        × (db'.next_key ≡ db.next_key)
  unfolding release_one
  release_step k r db h = elim (Option-cases (find r.item items)) [
    | inl e ↦ absurd (ground arith)
    | inr (i, e) ↦ (i.available_stock +ℤ r.quantity, ground arith, ground arith, ground arith)
  ]

  -- The order's own row is written after the loop.
  pub commit_rows_loop :
      (order : ℕ) (rows : Table Reservation) (db : Db)
      → (commit_rows order items rows db).0 ≡ ok tt
      → ((for_each rows (commit_one items) db).0 ≡ ok tt)
        × ((commit_rows order items rows db).1.inventory
            ≡ (for_each rows (commit_one items) db).1.inventory)
        × ((commit_rows order items rows db).1.reservations
            ≡ (for_each rows (commit_one items) db).1.reservations)
        × ((commit_rows order items rows db).1.next_key
            ≡ (for_each rows (commit_one items) db).1.next_key)
  unfolding commit_rows
  commit_rows_loop order [] db h = (refl, refl, refl, refl)
  commit_rows_loop order (r ∷ rs) db h = (ground arith, ground arith, ground arith, ground arith)

  pub release_rows_loop :
      (order : ℕ) (rows : Table Reservation) (db : Db)
      → (release_rows order items rows db).0 ≡ ok tt
      → ((for_each rows (release_one items) db).0 ≡ ok tt)
        × ((release_rows order items rows db).1.inventory
            ≡ (for_each rows (release_one items) db).1.inventory)
        × ((release_rows order items rows db).1.reservations
            ≡ (for_each rows (release_one items) db).1.reservations)
        × ((release_rows order items rows db).1.next_key
            ≡ (for_each rows (release_one items) db).1.next_key)
  unfolding release_rows
  release_rows_loop order [] db h = (refl, refl, refl, refl)
  release_rows_loop order (r ∷ rs) db h = (ground arith, ground arith, ground arith, ground arith)

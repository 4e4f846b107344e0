-- ===== src/Inventory/Orders/Runs.antt =====
-- `commitForOrder` and `releaseForOrder` end well when the rows that they name exist.
use coffee_shop_saas_platfor.Prelude.{
  ℕ, ◌≡◌, refl, ap, ◌∙◌, inl, inr, some, [], ◌∷◌, arith, ◌==◌, Bool-cases, All,
}
use coffee_shop_saas_platfor.Int.{ℤ}
use coffee_shop_saas_platfor.Table.{Table, find, update}
use coffee_shop_saas_platfor.Table.Keys.{
  IsKeyed, IsKeyed-find_many, Listed, Listed-find_many, Listed-update,
}
use coffee_shop_saas_platfor.Action.{Action, ok, for_each, ◌>>◌}
use coffee_shop_saas_platfor.Schema.{InventoryItem, Order, Reservation, Db}
use coffee_shop_saas_platfor.Inventory.Orders.{
  is_open, mark_committed, mark_released, commit_one, release_one, commit_stock, release_stock,
  commit_rows, release_rows, commit_for_order, release_for_order,
}
use coffee_shop_saas_platfor.Inventory.Orders.Settle.{commit_step, release_step}
use coffee_shop_saas_platfor.Inventory.Orders.Effects.{rows_of}

-- The table has a row of that key.
abbrev pub Has {ℓ} : {A : Type ℓ} → Table A → ℕ → Type ℓ
Has {A = A} t k = (a : A) × (find k t ≡ some a)

Has-update : {A : Type 0} (j k : ℕ) (f : A → A) (t : Table A) → Has t j → Has (update k f t) j
Has-update j k f [] h = h
Has-update {A} j k f ((i, v) ∷ t) (a, h) = elim (Bool-cases (k == i)) [
  | inl here ↦ elim (Bool-cases (j == i)) [
    | inl first ↦ rw here (f v, rw first)
    | inr later ↦ rw here (a, rw later (rw later at h))
  ]
  | inr there ↦ elim (Bool-cases (j == i)) [
    | inl first ↦ rw there (v, rw first)
    | inr later ↦ let (b, e) = Has-update j k f t (a, rw later at h) in rw there (b, rw later e)
  ]
]

-- The second of two actions runs where the first ended well.
next_ok :
    (m n : Action Db (Unit {0})) (db : Db)
    → (m db).0 ≡ ok tt
    → (((m >> n) db).0 ≡ (n (m db).1).0) × (((m >> n) db).1 ≡ (n (m db).1).1)
next_ok m n db h = (ground arith, ground arith)

module _ (items : Table InventoryItem) (one : ℕ × Reservation → Action Db (Unit {0}))
    (mark : Reservation → Reservation) (change : ℤ → ℤ → InventoryItem → InventoryItem)
    (step : (k : ℕ) (r : Reservation) (db : Db)
      → (one (k, r) db).0 ≡ ok tt
      → let db' = (one (k, r) db).1 in
        (s : ℤ) × (db'.inventory ≡ update r.item (change r.quantity s) db.inventory)
        × (db'.reservations ≡ update k mark db.reservations)
        × (db'.next_key ≡ db.next_key))
    (runs : (k : ℕ) (r : Reservation) (db : Db)
      → Has items r.item
      → Has db.inventory r.item
      → find k db.reservations ≡ some r
      → ((one (k, r) db).0 ≡ ok tt) × ((one (k, r) db).1.orders ≡ db.orders)) where
  loop_runs :
      (rows : Table Reservation) (db : Db)
      → Listed db.reservations rows
      → IsKeyed rows
      → All (λ e. Has items e.1.item) rows
      → ((i : ℕ) → Has items i → Has db.inventory i)
      → ((for_each rows one db).0 ≡ ok tt) × ((for_each rows one db).1.orders ≡ db.orders)
  loop_runs [] db listed keyed there kept = (refl, refl)
  loop_runs ((k, r) ∷ rows) db listed keyed there kept =
      let (first, orders) = runs k r db there.0 (kept r.item there.0) listed.0 in
      let (s, stock, closed, key) = step k r db first in
      let db1 = (one (k, r) db).1 in
      let (rest, orders') =
        loop_runs rows db1 (rw closed (Listed-update k mark db.reservations rows keyed.0 listed.1))
          keyed.1 there.1
          (λ i h. rw stock (Has-update i r.item (change r.quantity s) db.inventory (kept i h))) in
      let (go, end) = next_ok (one (k, r)) (for_each rows one) db first in
      (go ∙ rest, ap (λ (d : Db). d.orders) end ∙ orders' ∙ orders)

commit_one_runs :
    (items : Table InventoryItem) (k : ℕ) (r : Reservation) (db : Db)
    → Has items r.item
    → Has db.inventory r.item
    → find k db.reservations ≡ some r
    → ((commit_one items (k, r) db).0 ≡ ok tt) × ((commit_one items (k, r) db).1.orders ≡ db.orders)
unfolding commit_one
commit_one_runs items k r db (a, ha) (b, hb) hr = (ground arith, ground arith)

release_one_runs :
    (items : Table InventoryItem) (k : ℕ) (r : Reservation) (db : Db)
    → Has items r.item
    → Has db.inventory r.item
    → find k db.reservations ≡ some r
    → ((release_one items (k, r) db).0 ≡ ok tt)
      × ((release_one items (k, r) db).1.orders ≡ db.orders)
unfolding release_one
release_one_runs items k r db (a, ha) (b, hb) hr = (ground arith, ground arith)

rows_commit :
    (items : Table InventoryItem) (order : ℕ) (rows : Table Reservation) (db : Db) (o : Order)
    → (for_each rows (commit_one items) db).0 ≡ ok tt
    → (for_each rows (commit_one items) db).1.orders ≡ db.orders
    → find order db.orders ≡ some o
    → (commit_rows order items rows db).0 ≡ ok tt
unfolding commit_rows
rows_commit items order [] db o h k f = refl
rows_commit items order (r ∷ rs) db o h k f =
    let there = ap (find order) k ∙ f in ground (arith, there)

rows_release :
    (items : Table InventoryItem) (order : ℕ) (rows : Table Reservation) (db : Db) (o : Order)
    → (for_each rows (release_one items) db).0 ≡ ok tt
    → (for_each rows (release_one items) db).1.orders ≡ db.orders
    → find order db.orders ≡ some o
    → (release_rows order items rows db).0 ≡ ok tt
unfolding release_rows
rows_release items order [] db o h k f = refl
rows_release items order (r ∷ rs) db o h k f =
    let there = ap (find order) k ∙ f in ground (arith, there)

module _ (order : ℕ) (db : Db) (o : Order) (f : find order db.orders ≡ some o)
    (keyed : IsKeyed db.reservations)
    (there : All (λ e. Has db.inventory e.1.item) (rows_of order db)) where
  -- Committing an order that exists ends well, if keys are unique and each of its open reservations
  -- names a stock row that exists.
  pub commit_ends_well : (commit_for_order order db).0 ≡ ok tt
  unfolding commit_for_order
  commit_ends_well =
      let (done, orders) =
        loop_runs db.inventory (commit_one db.inventory) mark_committed commit_stock
          (commit_step db.inventory) (commit_one_runs db.inventory) (rows_of order db) db
          (Listed-find_many (is_open order) db.reservations keyed)
          (IsKeyed-find_many (is_open order) db.reservations keyed) there (λ i h. h) in
      ground (arith, rows_commit db.inventory order (rows_of order db) db o done orders f)

  -- Releasing an order that exists ends well, if keys are unique and each of its open reservations
  -- names a stock row that exists.
  pub release_ends_well : (release_for_order order db).0 ≡ ok tt
  unfolding release_for_order
  release_ends_well =
      let (done, orders) =
        loop_runs db.inventory (release_one db.inventory) mark_released release_stock
          (release_step db.inventory) (release_one_runs db.inventory) (rows_of order db) db
          (Listed-find_many (is_open order) db.reservations keyed)
          (IsKeyed-find_many (is_open order) db.reservations keyed) there (λ i h. h) in
      ground (arith, rows_release db.inventory order (rows_of order db) db o done orders f)

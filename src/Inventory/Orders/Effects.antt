-- ===== src/Inventory/Orders/Effects.antt =====
-- The effect of `commitForOrder` and `releaseForOrder` on each stock row.
use coffee_shop_saas_platfor.Prelude.{
  ℕ, ◌≡◌, refl, true, none, some, [], ◌∷◌, arith, if◌then◌else◌, All,
}
use coffee_shop_saas_platfor.Int.{ℤ, pos, ◌+ℤ◌, ◌≤ℤ◌, int_laws}
use coffee_shop_saas_platfor.Table.{Table, find, find_many, sum_of}
use coffee_shop_saas_platfor.Table.Keys.{
  IsKeyed, Listed-find_many, IsKeyed-find_many, All-find_many, sum_of-find_many,
}
use coffee_shop_saas_platfor.Action.{Error, ok, err, transaction-ok, transaction-err}
use coffee_shop_saas_platfor.Schema.{InventoryItem, Reservation, Db}
use coffee_shop_saas_platfor.Inventory.Orders.{
  is_active, is_open, commit_stock, release_stock, mark_committed, mark_released, commit_one,
  release_one, commit_rows, release_rows, commit_for_order, release_for_order,
}
use coffee_shop_saas_platfor.Inventory.Orders.Loop.{
  held, held_active, loop-Moved, loop_held, loop_keys,
}
use coffee_shop_saas_platfor.Inventory.Orders.Settle.{
  Committed, Committed-zero, Committed-more, Committed-same, Released, Released-zero, Released-more,
  Released-same, commit_step, release_step, commit_rows_loop, release_rows_loop,
}

-- What the open reservations of an order hold for item `i`.
abbrev pub held_open : ℕ → ℕ → Reservation → ℤ
held_open order i r = if is_open order r then held i r else pos 0

abbrev pub rows_of : ℕ → Db → Table Reservation
rows_of order db = find_many (is_open order) db.reservations

active_of_open :
    (order : ℕ) (t : Table Reservation)
    → All (λ e. is_open order e.1 ≡ true) t
    → All (λ e. is_active e.1.status ≡ true) t
active_of_open order [] h = tt
active_of_open order (e ∷ t) h = (ground arith, active_of_open order t h.1)

-- Committing an order, where the call ends well, takes from the current and the reserved stock of
-- every row exactly what the order's open reservations held of it, from the two older columns too,
-- and leaves the available stock as it was.
pub commit_effect :
    (order i : ℕ) (db : Db) (a : InventoryItem)
    → (commit_for_order order db).0 ≡ ok tt
    → find i db.inventory ≡ some a
    → (b : InventoryItem) × (find i (commit_for_order order db).1.inventory ≡ some b)
      × Committed (sum_of (held_open order i) db.reservations) a b
unfolding commit_for_order
commit_effect order i db a done h =
    let rows = rows_of order db in
    let (fine, final) = transaction-ok (commit_rows order db.inventory rows) db tt done in
    let (loop, stock, closed, key) = commit_rows_loop db.inventory order rows db fine in
    let (b, h', moved) =
      loop-Moved (commit_one db.inventory) mark_committed commit_stock (commit_step db.inventory)
        Committed Committed-zero Committed-more Committed-same rows db i a loop h in
    (
      b,
      rw (final, stock) h',
      rw (← sum_of-find_many (held i) (is_open order) db.reservations) moved,
    )

-- Releasing an order, where the call ends well, gives back to the available stock of every row
-- exactly what the order's open reservations held of it, takes it from the reserved stock, and
-- leaves the current stock.
pub release_effect :
    (order i : ℕ) (db : Db) (a : InventoryItem)
    → (release_for_order order db).0 ≡ ok tt
    → find i db.inventory ≡ some a
    → (b : InventoryItem) × (find i (release_for_order order db).1.inventory ≡ some b)
      × Released (sum_of (held_open order i) db.reservations) a b
unfolding release_for_order
release_effect order i db a done h =
    let rows = rows_of order db in
    let (fine, final) = transaction-ok (release_rows order db.inventory rows) db tt done in
    let (loop, stock, closed, key) = release_rows_loop db.inventory order rows db fine in
    let (b, h', moved) =
      loop-Moved (release_one db.inventory) mark_released release_stock (release_step db.inventory)
        Released Released-zero Released-more Released-same rows db i a loop h in
    (
      b,
      rw (final, stock) h',
      rw (← sum_of-find_many (held i) (is_open order) db.reservations) moved,
    )

-- The active reservations lose what the order held.
pub commit_held :
    (order i : ℕ) (db : Db)
    → (commit_for_order order db).0 ≡ ok tt
    → IsKeyed db.reservations
    → sum_of (held_active i) (commit_for_order order db).1.reservations
        +ℤ sum_of (held_open order i) db.reservations
      ≡ sum_of (held_active i) db.reservations
unfolding commit_for_order
commit_held order i db done keyed =
    let rows = rows_of order db in
    let (fine, final) = transaction-ok (commit_rows order db.inventory rows) db tt done in
    let (loop, stock, closed, key) = commit_rows_loop db.inventory order rows db fine in
    rw (final, closed, ← sum_of-find_many (held i) (is_open order) db.reservations)
      (loop_held (commit_one db.inventory) mark_committed commit_stock (commit_step db.inventory)
        (λ r. refl) rows db i loop (IsKeyed-find_many (is_open order) db.reservations keyed)
        (Listed-find_many (is_open order) db.reservations keyed)
        (active_of_open order rows (All-find_many (is_open order) db.reservations)))

pub release_held :
    (order i : ℕ) (db : Db)
    → (release_for_order order db).0 ≡ ok tt
    → IsKeyed db.reservations
    → sum_of (held_active i) (release_for_order order db).1.reservations
        +ℤ sum_of (held_open order i) db.reservations
      ≡ sum_of (held_active i) db.reservations
unfolding release_for_order
release_held order i db done keyed =
    let rows = rows_of order db in
    let (fine, final) = transaction-ok (release_rows order db.inventory rows) db tt done in
    let (loop, stock, closed, key) = release_rows_loop db.inventory order rows db fine in
    rw (final, closed, ← sum_of-find_many (held i) (is_open order) db.reservations)
      (loop_held (release_one db.inventory) mark_released release_stock (release_step db.inventory)
        (λ r. refl) rows db i loop (IsKeyed-find_many (is_open order) db.reservations keyed)
        (Listed-find_many (is_open order) db.reservations keyed)
        (active_of_open order rows (All-find_many (is_open order) db.reservations)))

-- No reservation is negative.
abbrev pub IsNonneg : Table Reservation → Type 0
IsNonneg = All (λ e. pos 0 ≤ℤ e.1.quantity)

-- No key is added or changed by a call that ends well.
abbrev pub KeepsKeys : Db → Db → Type 0
KeepsKeys db db' =
    (IsKeyed db.inventory → IsKeyed db'.inventory)
    × (IsKeyed db.reservations → IsKeyed db'.reservations)
    × ((j : ℕ) → find j db.inventory ≡ none → find j db'.inventory ≡ none)
    × ((j : ℕ) → find j db.reservations ≡ none → find j db'.reservations ≡ none)
    × (db'.next_key ≡ db.next_key)
    × (IsNonneg db.reservations → IsNonneg db'.reservations)

pub commit_keys :
    (order : ℕ) (db : Db)
    → (commit_for_order order db).0 ≡ ok tt
    → KeepsKeys db (commit_for_order order db).1
unfolding commit_for_order
commit_keys order db done =
    let rows = rows_of order db in
    let (fine, final) = transaction-ok (commit_rows order db.inventory rows) db tt done in
    let (loop, stock, closed, key) = commit_rows_loop db.inventory order rows db fine in
    let (a, b, c, d, e, f) =
      loop_keys (commit_one db.inventory) mark_committed commit_stock (commit_step db.inventory)
        rows db loop in
    rw (final, stock, closed, key) (a, b, c, d, e, f (λ r. pos 0 ≤ℤ r.quantity) (λ v h. h))

pub release_keys :
    (order : ℕ) (db : Db)
    → (release_for_order order db).0 ≡ ok tt
    → KeepsKeys db (release_for_order order db).1
unfolding release_for_order
release_keys order db done =
    let rows = rows_of order db in
    let (fine, final) = transaction-ok (release_rows order db.inventory rows) db tt done in
    let (loop, stock, closed, key) = release_rows_loop db.inventory order rows db fine in
    let (a, b, c, d, e, f) =
      loop_keys (release_one db.inventory) mark_released release_stock (release_step db.inventory)
        rows db loop in
    rw (final, stock, closed, key) (a, b, c, d, e, f (λ r. pos 0 ≤ℤ r.quantity) (λ v h. h))

pub held_open_nonneg :
    (order i : ℕ) (t : Table Reservation) → IsNonneg t → pos 0 ≤ℤ sum_of (held_open order i) t
held_open_nonneg order i [] h = omega arith
held_open_nonneg order i (e ∷ t) h =
    let row : pos 0 ≤ℤ held_open order i e.1 = ground (arith, h.0) in
    omega (int_laws, row, held_open_nonneg order i t h.1)

-- A call that fails takes back all that it wrote.
pub commit_failed :
    (order : ℕ) (db : Db) (e : Error)
    → (commit_for_order order db).0 ≡ err e
    → (commit_for_order order db).1 ≡ db
unfolding commit_for_order
commit_failed order db e h =
    transaction-err (commit_rows order db.inventory (rows_of order db)) db e h

pub release_failed :
    (order : ℕ) (db : Db) (e : Error)
    → (release_for_order order db).0 ≡ err e
    → (release_for_order order db).1 ≡ db
unfolding release_for_order
release_failed order db e h =
    transaction-err (release_rows order db.inventory (rows_of order db)) db e h

-- ===== src/Inventory/Orders/Once.antt =====
-- An order's reservations are settled once.
use coffee_shop_saas_platfor.Prelude.{
  ℕ, ◌≡◌, refl, inl, inr, Bool, false, some, [], ◌∷◌, arith, Bool-cases, ◌≢◌, ==_of_ne,
}
use coffee_shop_saas_platfor.Table.{Table, find, find_many, update}
use coffee_shop_saas_platfor.Table.Keys.{IsKeyed, IsKeyed-update, Listed, Listed-find_many}
use coffee_shop_saas_platfor.Action.{Action, ok, for_each, >>=-ok, transaction-ok}
use coffee_shop_saas_platfor.Schema.{Reservation, Db}
use coffee_shop_saas_platfor.Inventory.Orders.{
  is_open, mark_committed, mark_released, commit_one, release_one, commit_rows, release_rows,
  commit_for_order, release_for_order,
}
use coffee_shop_saas_platfor.Inventory.Orders.Settle.{
  commit_step, release_step, commit_rows_loop, release_rows_loop,
}
use coffee_shop_saas_platfor.Inventory.Orders.Effects.{rows_of}

-- Closing the first row that a query finds leaves the others.
first_closed :
    (q : Reservation → Bool) (f : Reservation → Reservation) (t rows : Table Reservation) (k : ℕ)
    (r : Reservation)
    → ((v : Reservation) → q (f v) ≡ false)
    → IsKeyed t
    → find_many q t ≡ (k, r) ∷ rows
    → find_many q (update k f t) ≡ rows
first_closed q f [] rows k r closes keyed h = absurd (ground arith)
first_closed q f ((j, v) ∷ t) rows k r closes keyed h = elim (Bool-cases (q v)) [
  | inl found ↦ ground (arith, closes v)
  | inr other ↦
      let later : find_many q t ≡ (k, r) ∷ rows = rw other at h in
      let listed : Listed t (find_many q t) = Listed-find_many q t keyed.1 in
      let row : find k t ≡ some r = (rw later at listed).0 in
      let apart : k ≢ j = λ same. (ground (arith, keyed.0)) in
      rw (==_of_ne k j apart, other) (first_closed q f t rows k r closes keyed.1 later)
]

-- The loop over all the rows that a query finds leaves none.
loop_closes :
    (q : Reservation → Bool) (mark : Reservation → Reservation)
    (one : ℕ × Reservation → Action Db (Unit {0}))
    → ((k : ℕ) (r : Reservation) (db : Db)
        → (one (k, r) db).0 ≡ ok tt
        → (one (k, r) db).1.reservations ≡ update k mark db.reservations)
    → ((v : Reservation) → q (mark v) ≡ false)
    → (rows : Table Reservation) (db : Db) → (for_each rows one db).0 ≡ ok tt
    → IsKeyed db.reservations
    → find_many q db.reservations ≡ rows
    → find_many q (for_each rows one db).1.reservations ≡ []
loop_closes q mark one step closes [] db done keyed h = h
loop_closes q mark one step closes ((k, r) ∷ rows) db done keyed h =
    let (u, first, rest, final) = >>=-ok (one (k, r)) (λ _. for_each rows one) db tt done in
    let closed = step k r db first in
    rw final (
      loop_closes q mark one step closes rows (one (k, r) db).1 rest
        (rw closed (IsKeyed-update k mark db.reservations keyed))
        (rw closed (first_closed q mark db.reservations rows k r closes keyed h)))

-- With no open reservation there is nothing to settle.
settled_already :
    (order : ℕ) (db : Db)
    → rows_of order db ≡ []
    → (commit_for_order order db ≡ (ok tt, db)) × (release_for_order order db ≡ (ok tt, db))
unfolding commit_for_order release_for_order commit_rows release_rows
settled_already order db h = (ground arith, ground arith)

committed :
    (order : ℕ) (db : Db)
    → (commit_for_order order db).0 ≡ ok tt
    → IsKeyed db.reservations
    → rows_of order (commit_for_order order db).1 ≡ []
unfolding commit_for_order
committed order db done keyed =
    let rows = rows_of order db in
    let (fine, final) = transaction-ok (commit_rows order db.inventory rows) db tt done in
    let (loop, stock, closed, key) = commit_rows_loop db.inventory order rows db fine in
    rw (final, closed)
      (loop_closes (is_open order) mark_committed (commit_one db.inventory)
        (λ k r db' e. (commit_step db.inventory k r db' e).2) (λ v. ground arith) rows db loop keyed
        refl)

-- After an order was committed, in a table of reservations with unique keys, committing it again and
-- releasing it both answer with success and change nothing: no stock is taken off twice, and none is
-- given back.
pub commit_once :
    (order : ℕ) (db : Db)
    → (commit_for_order order db).0 ≡ ok tt
    → IsKeyed db.reservations
    → let db' = (commit_for_order order db).1 in
      (commit_for_order order db' ≡ (ok tt, db')) × (release_for_order order db' ≡ (ok tt, db'))
commit_once order db done keyed =
    settled_already order (commit_for_order order db).1 (committed order db done keyed)

released :
    (order : ℕ) (db : Db)
    → (release_for_order order db).0 ≡ ok tt
    → IsKeyed db.reservations
    → rows_of order (release_for_order order db).1 ≡ []
unfolding release_for_order
released order db done keyed =
    let rows = rows_of order db in
    let (fine, final) = transaction-ok (release_rows order db.inventory rows) db tt done in
    let (loop, stock, closed, key) = release_rows_loop db.inventory order rows db fine in
    rw (final, closed)
      (loop_closes (is_open order) mark_released (release_one db.inventory)
        (λ k r db' e. (release_step db.inventory k r db' e).2) (λ v. ground arith) rows db loop
        keyed refl)

-- After an order was released, in a table of reservations with unique keys, releasing it again and
-- committing it both answer with success and change nothing: no stock is given back twice, and none
-- is taken off.
pub release_once :
    (order : ℕ) (db : Db)
    → (release_for_order order db).0 ≡ ok tt
    → IsKeyed db.reservations
    → let db' = (release_for_order order db).1 in
      (release_for_order order db' ≡ (ok tt, db')) × (commit_for_order order db' ≡ (ok tt, db'))
release_once order db done keyed =
    let (c, r) =
      settled_already order (release_for_order order db).1 (released order db done keyed) in
    (r, c)

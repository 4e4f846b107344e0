-- ===== src/Inventory/Orders/Reserve.antt =====
-- Reserving stock for an order.
use coffee_shop_saas_platfor.Prelude.{
  ℕ, suc, ◌≡◌, ◌≢◌, sym, ◌∙◌, inl, inr, Bool, Option, none, some, List, [], ◌∷◌, arith, ◌==◌,
  eq_of_==, Bool-cases, Option-cases, All,
}
use mathlib.Core.Option.{some-injective}
use coffee_shop_saas_platfor.Int.{pos, ◌+ℤ◌, ◌≤ℤ◌, int_laws, parts_of_eq}
use coffee_shop_saas_platfor.Table.{
  find, find_first, update, create, sum_of, sum_of-create, find-update_self, find-update_ne,
  find-create_ne,
}
use coffee_shop_saas_platfor.Table.Keys.{
  IsKeyed-update, IsKeyed-create, All-create, find_first-find,
}
use coffee_shop_saas_platfor.Action.{
  transaction, ok, for_each, >>=-ok, Result-cases, transaction-ok, transaction-err,
}
use coffee_shop_saas_platfor.Schema.{InventoryItem, Reservation, Db}
use coffee_shop_saas_platfor.Inventory.Adjust.{Line, is_at}
use coffee_shop_saas_platfor.Inventory.Orders.{
  reserve_line, reserve_for_order, reserve_stock, new_reservation,
}
use coffee_shop_saas_platfor.Inventory.Orders.Loop.{held_active}
use coffee_shop_saas_platfor.Inventory.Orders.Consistent.{IsBalanced, IsConsistent}

module _ (tracks : ℕ → Bool) (tenant store order : ℕ) where
  -- The stock row of a line's product in the store.
  abbrev pub row_of : Line → Db → Option (ℕ × InventoryItem)
  row_of l db =
      find_first (is_at (record { tenant = tenant; store = store; product = l.product }))
        db.inventory

  pub pass_line :
      (l : Line) (db : Db)
      → row_of l db ≡ none
      → (reserve_line tracks tenant store order l db).1 ≡ db
  unfolding reserve_line
  pass_line l db e = ground arith

  pub take_line :
      (l : Line) (db : Db) (key : ℕ) (a : InventoryItem)
      → row_of l db ≡ some (key, a)
      → (reserve_line tracks tenant store order l db).0 ≡ ok tt
      → let db' = (reserve_line tracks tenant store order l db).1 in
        (l.quantity ≤ℤ a.available_stock)
        × (db'.inventory ≡ update key (reserve_stock l.quantity) db.inventory)
        × (db'.reservations
            ≡ create db.next_key (new_reservation key order l db.now) db.reservations)
        × (db'.next_key ≡ suc db.next_key)
  unfolding reserve_line
  take_line l db key a e done = ground arith

  module _ (l : Line) (db : Db) (key : ℕ) (a : InventoryItem) (e : row_of l db ≡ some (key, a))
      (done : (reserve_line tracks tenant store order l db).0 ≡ ok tt) (c : IsConsistent db) where
    abbrev pub after : Db
    after = (reserve_line tracks tenant store order l db).1

    abbrev pub new : Reservation
    new = new_reservation key order l db.now

    pub row_found : find key db.inventory ≡ some a
    row_found =
        find_first-find (is_at (record { tenant = tenant; store = store; product = l.product }))
          db.inventory key a c.items_keyed e

    held_after :
        (i : ℕ)
        → sum_of (held_active i) after.reservations
          ≡ sum_of (held_active i) db.reservations +ℤ held_active i new
    held_after i =
        rw (take_line l db key a e done).2
          (sum_of-create (held_active i) db.next_key new db.reservations)

    pub row_taken : find key after.inventory ≡ some (reserve_stock l.quantity a)
    row_taken =
        rw (take_line l db key a e done).1
          (find-update_self key (reserve_stock l.quantity) db.inventory a row_found)

    pub row_other : (i : ℕ) → i ≢ key → find i after.inventory ≡ find i db.inventory
    row_other i ne =
        rw (take_line l db key a e done).1
          (find-update_ne i key (reserve_stock l.quantity) db.inventory ne)

    IsBalanced-reserve_stock : IsBalanced (reserve_stock l.quantity a)
    IsBalanced-reserve_stock =
        let (sum, n, m, p) = c.balanced key a row_found in
        let enough = (take_line l db key a e done).0 in
        (
          omega (int_laws, parts_of_eq sum),
          n,
          omega (int_laws, parts_of_eq m),
          omega (int_laws, enough),
        )

    line_row :
        (i : ℕ) (y : InventoryItem)
        → find i after.inventory ≡ some y
        → IsBalanced y × (y.reserved_stock ≡ sum_of (held_active i) after.reservations)
    line_row i y h = elim (Bool-cases (key == i)) [
      | inl same ↦
          let at : key ≡ i = eq_of_== key i same in
          let row : reserve_stock l.quantity a ≡ y = some-injective _ _ (cc (row_taken, h, at)) in
          let adds : held_active i new ≡ l.quantity = rw same in
          let backed = parts_of_eq (c.backed i a (rw (← at) row_found)) in
          let sums : a.reserved_stock +ℤ l.quantity ≡ sum_of (held_active i) after.reservations =
            omega (int_laws, backed, parts_of_eq (held_after i), parts_of_eq adds) in
          rw (← row) (IsBalanced-reserve_stock, sums)
      | inr other ↦
          let old : find i db.inventory ≡ some y = sym (row_other i (λ same. (ground arith))) ∙ h in
          let adds : held_active i new ≡ pos 0 = rw other in
          (
            c.balanced i y old,
            omega (
              int_laws,
              parts_of_eq (c.backed i y old),
              parts_of_eq (held_after i),
              parts_of_eq adds,
            ),
          )
    ]

    line_kept : pos 0 ≤ℤ l.quantity → IsConsistent after
    line_kept q =
        let (enough, stock, rows, next) = take_line l db key a e done in
        record {
          balanced = λ i y h. (line_row i y h).0;
          backed = λ i y h. (line_row i y h).1;
          items_keyed =
              rw stock (IsKeyed-update key (reserve_stock l.quantity) db.inventory c.items_keyed);
          reservations_keyed = rw rows (
              IsKeyed-create db.next_key new db.reservations (c.unused db.next_key (omega arith))
                c.reservations_keyed);
          nonneg =
              rw rows
                (All-create (λ r. pos 0 ≤ℤ r.quantity) db.next_key new db.reservations q c.nonneg);
          unused = λ j le. rw rows (
              find-create_ne j db.next_key new db.reservations (λ same. omega (arith, next, same))
              ∙ c.unused j (omega (arith, next)));
        }

  pub line-IsConsistent :
      (l : Line) (db : Db)
      → (reserve_line tracks tenant store order l db).0 ≡ ok tt
      → pos 0 ≤ℤ l.quantity
      → IsConsistent db
      → IsConsistent (reserve_line tracks tenant store order l db).1
  line-IsConsistent l db done q c = elim (Option-cases (row_of l db)) [
    | inl e ↦ rw (pass_line l db e) c
    | inr ((key, a), e) ↦ line_kept l db key a e done c q
  ]

  pub lines-IsConsistent :
      (ls : List Line) (db : Db)
      → (for_each ls (reserve_line tracks tenant store order) db).0 ≡ ok tt
      → All (λ l. pos 0 ≤ℤ l.quantity) ls
      → IsConsistent db
      → IsConsistent (for_each ls (reserve_line tracks tenant store order) db).1
  lines-IsConsistent [] db done q c = c
  lines-IsConsistent (l ∷ ls) db done q c =
      let (u, first, rest, final) =
        >>=-ok (reserve_line tracks tenant store order l)
          (λ _. for_each ls (reserve_line tracks tenant store order)) db tt done in
      rw final (lines-IsConsistent ls _ rest q.1 (line-IsConsistent l db first q.0 c))

  -- Reserving an order of no negative quantities, whether the call ends well or fails part of the
  -- way through, keeps the database consistent: every stock row is balanced and its reserved stock
  -- is what the active reservations hold of it, keys are unique and new ones unused, and no
  -- reservation is negative.
  pub reserve-IsConsistent :
      (ls : List Line) (db : Db)
      → All (λ l. pos 0 ≤ℤ l.quantity) ls
      → IsConsistent db
      → IsConsistent (reserve_for_order tracks tenant store order ls db).1
  unfolding reserve_for_order
  reserve-IsConsistent ls db q c =
      let loop = for_each ls (reserve_line tracks tenant store order) in
      elim (Result-cases (transaction loop db).0) [
        | inr (x, failed) ↦ rw (transaction-err loop db x failed) c
        | inl (u, done) ↦
            let (fine, final) = transaction-ok loop db tt done in
            rw final (lines-IsConsistent ls db fine q c)
      ]

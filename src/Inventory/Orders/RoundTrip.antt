-- ===== src/Inventory/Orders/RoundTrip.antt =====
-- Reserving an order and then releasing or committing it.
use coffee_shop_saas_platfor.Prelude.{
  ℕ, ◌≡◌, refl, ◌∙◌, inl, inr, Bool, some, List, [], ◌∷◌, arith, ◌==◌, eq_of_==, ==_refl,
  Bool-cases, Option-cases, All,
}
use mathlib.Core.Option.{some-injective}
use coffee_shop_saas_platfor.Int.{ℤ, pos, ◌+ℤ◌, ◌≤ℤ◌, int_laws, parts_of_eq}
use coffee_shop_saas_platfor.Table.{find, sum_of, sum_of-create}
use coffee_shop_saas_platfor.Action.{ok, for_each, >>=-ok, transaction-ok}
use coffee_shop_saas_platfor.Schema.{InventoryItem, Db}
use coffee_shop_saas_platfor.Inventory.Adjust.{Line}
use coffee_shop_saas_platfor.Inventory.Orders.{
  reserve_line, reserve_for_order, release_for_order, commit_for_order, reserve_stock,
  new_reservation,
}
use coffee_shop_saas_platfor.Inventory.Orders.Effects.{held_open, commit_effect, release_effect}
use coffee_shop_saas_platfor.Inventory.Orders.Consistent.{IsConsistent}
use coffee_shop_saas_platfor.Inventory.Orders.Reserve.{
  row_of, pass_line, take_line, row_found, row_taken, row_other, line-IsConsistent,
}

-- `d` of the row has been set aside.
abbrev pub Reserved : ℤ → InventoryItem → InventoryItem → Type 0
Reserved d a b =
    (b.current_stock ≡ a.current_stock)
    × (b.available_stock +ℤ d ≡ a.available_stock)
    × (b.reserved_stock ≡ a.reserved_stock +ℤ d)

module _ (tracks : ℕ → Bool) (tenant store order : ℕ) (i : ℕ) where
  -- From `a` in `db` to a row of `db'`, with what the order's open reservations hold of it.
  abbrev Sets : InventoryItem → Db → Db → Type 0
  Sets a db db' =
      (b : InventoryItem) × (d : ℤ) × (find i db'.inventory ≡ some b)
      × Reserved d a b
      × (sum_of (held_open order i) db'.reservations
          ≡ sum_of (held_open order i) db.reservations +ℤ d)

  Sets-none : (a : InventoryItem) (db : Db) → find i db.inventory ≡ some a → Sets a db db
  Sets-none a db h = (a, pos 0, h, (refl, omega int_laws, omega int_laws), omega int_laws)

  Sets-line :
      (l : Line) (db : Db) (a : InventoryItem)
      → (reserve_line tracks tenant store order l db).0 ≡ ok tt
      → IsConsistent db
      → find i db.inventory ≡ some a
      → Sets a db (reserve_line tracks tenant store order l db).1
  Sets-line l db a done c h = elim (Option-cases (row_of tracks tenant store order l db)) [
    | inl e ↦ rw (pass_line tracks tenant store order l db e) (Sets-none a db h)
    | inr ((key, x), e) ↦
        let (enough, stock, rows, next) = take_line tracks tenant store order l db key x e done in
        let new = new_reservation key order l db.now in
        let held : sum_of (held_open order i)
              (reserve_line tracks tenant store order l db).1.reservations
            ≡ sum_of (held_open order i) db.reservations +ℤ held_open order i new =
          rw rows (sum_of-create (held_open order i) db.next_key new db.reservations) in
        elim (Bool-cases (key == i)) [
          | inl same ↦
              let at : key ≡ i = eq_of_== key i same in
              let there = row_found tracks tenant store order l db key x e done c in
              let row : x ≡ a = some-injective _ _ (cc (there, h, at)) in
              let adds : held_open order i new ≡ l.quantity = rw (==_refl order, same) in
              let taken : find i (reserve_line tracks tenant store order l db).1.inventory
                  ≡ some (reserve_stock l.quantity a) =
                rw (← row, ← at) (row_taken tracks tenant store order l db key x e done c) in
              (
                reserve_stock l.quantity a,
                l.quantity,
                taken,
                (refl, omega int_laws, refl),
                rw adds at held,
              )
          | inr other ↦
              let adds : held_open order i new ≡ pos 0 = rw (==_refl order, other) in
              let kept : find i (reserve_line tracks tenant store order l db).1.inventory ≡ some a =
                row_other tracks tenant store order l db key x e done c i (λ same. (ground arith))
                ∙ h in
              (a, pos 0, kept, (refl, omega int_laws, omega int_laws), rw adds at held)
        ]
  ]

  Sets-lines :
      (ls : List Line) (db : Db) (a : InventoryItem)
      → (for_each ls (reserve_line tracks tenant store order) db).0 ≡ ok tt
      → All (λ l. pos 0 ≤ℤ l.quantity) ls
      → IsConsistent db
      → find i db.inventory ≡ some a
      → Sets a db (for_each ls (reserve_line tracks tenant store order) db).1
  Sets-lines [] db a done q c h = Sets-none a db h
  Sets-lines (l ∷ ls) db a done q c h =
      let (u, first, rest, final) =
        >>=-ok (reserve_line tracks tenant store order l)
          (λ _. for_each ls (reserve_line tracks tenant store order)) db tt done in
      let (b, d, hb, (s, v, r), sum) = Sets-line l db a first c h in
      let (b', d', hb', (s', v', r'), sum') =
        Sets-lines ls _ b rest q.1 (line-IsConsistent tracks tenant store order l db first q.0 c)
          hb in
      rw final (
        b',
        d +ℤ d',
        hb',
        (
          s' ∙ s,
          omega (int_laws, parts_of_eq v, parts_of_eq v'),
          omega (int_laws, parts_of_eq r, parts_of_eq r'),
        ),
        omega (int_laws, parts_of_eq sum, parts_of_eq sum'),
      )

  reserve_Sets :
      (ls : List Line) (db : Db) (a : InventoryItem)
      → (reserve_for_order tracks tenant store order ls db).0 ≡ ok tt
      → All (λ l. pos 0 ≤ℤ l.quantity) ls
      → IsConsistent db
      → find i db.inventory ≡ some a
      → Sets a db (reserve_for_order tracks tenant store order ls db).1
  unfolding reserve_for_order
  reserve_Sets ls db a done q c h =
      let (fine, final) =
        transaction-ok (for_each ls (reserve_line tracks tenant store order)) db tt done in
      rw final (Sets-lines ls db a fine q c h)

  -- In a consistent database, for an order that holds nothing of a stock row yet and lines of no
  -- negative quantity: reserving the lines and then releasing the order, where both calls end
  -- well, gives the row back its current, available and reserved stock.
  pub reserve_release :
      (ls : List Line) (db : Db) (a : InventoryItem)
      → IsConsistent db
      → All (λ l. pos 0 ≤ℤ l.quantity) ls
      → sum_of (held_open order i) db.reservations ≡ pos 0
      → find i db.inventory ≡ some a
      → let (x, db1) = reserve_for_order tracks tenant store order ls db in
        let (y, db2) = release_for_order order db1 in
        x ≡ ok tt
        → y ≡ ok tt
        → (b : InventoryItem) × (find i db2.inventory ≡ some b)
          × (b.current_stock ≡ a.current_stock)
          × (b.available_stock ≡ a.available_stock)
          × (b.reserved_stock ≡ a.reserved_stock)
  reserve_release ls db a c q none_yet h x y =
      let (b, d, hb, (s, v, r), sum) = reserve_Sets ls db a x q c h in
      let (z, hz, (s', r', v', n, m)) =
        release_effect order i (reserve_for_order tracks tenant store order ls db).1 b y hb in
      let facts = parts_of_eq none_yet in
      (
        z,
        hz,
        s' ∙ s,
        omega (int_laws, facts, parts_of_eq sum, parts_of_eq v, parts_of_eq v'),
        omega (int_laws, facts, parts_of_eq sum, parts_of_eq r, parts_of_eq r'),
      )

  -- In a consistent database, for an order that holds nothing of a stock row yet and lines of no
  -- negative quantity: reserving the lines and then committing the order, where both calls end
  -- well, takes the same amount off the current and the available stock of the row and leaves its
  -- reserved stock as it was, and that amount is what the order's reservations held of it in
  -- between.
  pub reserve_commit :
      (ls : List Line) (db : Db) (a : InventoryItem)
      → IsConsistent db
      → All (λ l. pos 0 ≤ℤ l.quantity) ls
      → sum_of (held_open order i) db.reservations ≡ pos 0
      → find i db.inventory ≡ some a
      → let (x, db1) = reserve_for_order tracks tenant store order ls db in
        let (y, db2) = commit_for_order order db1 in
        x ≡ ok tt
        → y ≡ ok tt
        → (b : InventoryItem) × (find i db2.inventory ≡ some b)
          × (b.current_stock +ℤ sum_of (held_open order i) db1.reservations ≡ a.current_stock)
          × (b.available_stock +ℤ sum_of (held_open order i) db1.reservations ≡ a.available_stock)
          × (b.reserved_stock ≡ a.reserved_stock)
  reserve_commit ls db a c q none_yet h x y =
      let (b, d, hb, (s, v, r), sum) = reserve_Sets ls db a x q c h in
      let (z, hz, (s', r', v', n, m)) =
        commit_effect order i (reserve_for_order tracks tenant store order ls db).1 b y hb in
      let facts = parts_of_eq none_yet in
      (
        z,
        hz,
        s' ∙ s,
        omega (int_laws, facts, parts_of_eq sum, parts_of_eq v, parts_of_eq v'),
        omega (int_laws, facts, parts_of_eq sum, parts_of_eq r, parts_of_eq r'),
      )

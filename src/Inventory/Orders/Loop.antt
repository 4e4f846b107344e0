-- ===== src/Inventory/Orders/Loop.antt =====
-- The loop over the open reservations that `commitForOrder` and `releaseForOrder` share: each round
-- closes one reservation and updates the one stock row that it names.
use coffee_shop_saas_platfor.Prelude.{
  ℕ, ◌≡◌, refl, ap, ◌∙◌, inl, inr, true, false, none, some, [], ◌∷◌, arith, ◌==◌, eq_of_==,
  if◌then◌else◌, Bool-cases, All,
}
use coffee_shop_saas_platfor.Int.{ℤ, pos, ◌+ℤ◌, int_laws, parts_of_eq}
use coffee_shop_saas_platfor.Table.{
  Table, find, update, sum_of, find-update_self, find-update_ne, sum_of-update, All-update,
}
use coffee_shop_saas_platfor.Table.Keys.{
  IsKeyed, Listed, Listed-update, IsKeyed-update, find-update-none,
}
use coffee_shop_saas_platfor.Action.{Action, ok, for_each, >>=-ok}
use coffee_shop_saas_platfor.Schema.{InventoryItem, Reservation, Db}
use coffee_shop_saas_platfor.Inventory.Orders.{is_active}

-- What the rows hold for item `i`.
abbrev pub held : ℕ → Reservation → ℤ
held i r = if r.item == i then r.quantity else pos 0

-- What the active reservations hold for item `i`.
abbrev pub held_active : ℕ → Reservation → ℤ
held_active i r = if is_active r.status then held i r else pos 0

module _ (one : ℕ × Reservation → Action Db (Unit {0})) (mark : Reservation → Reservation)
    (change : ℤ → ℤ → InventoryItem → InventoryItem)
    (step : (k : ℕ) (r : Reservation) (db : Db)
      → (one (k, r) db).0 ≡ ok tt
      → let db' = (one (k, r) db).1 in
        (s : ℤ) × (db'.inventory ≡ update r.item (change r.quantity s) db.inventory)
        × (db'.reservations ≡ update k mark db.reservations)
        × (db'.next_key ≡ db.next_key)) where
  -- `Moved q a b`: a row has gone from `a` to `b` by reservations of `q` in all.
  module _ (Moved : ℤ → InventoryItem → InventoryItem → Type 0)
      (none_moved : (a : InventoryItem) → Moved (pos 0) a a)
      (more_moved : (q s d : ℤ) (a b : InventoryItem)
        → Moved d (change q s a) b
        → Moved (q +ℤ d) a b)
      (same_moved : (d : ℤ) (a b : InventoryItem) → Moved d a b → Moved (pos 0 +ℤ d) a b) where
    pub loop-Moved :
        (rows : Table Reservation) (db : Db) (i : ℕ) (a : InventoryItem)
        → (for_each rows one db).0 ≡ ok tt
        → find i db.inventory ≡ some a
        → (b : InventoryItem) × (find i (for_each rows one db).1.inventory ≡ some b)
          × Moved (sum_of (held i) rows) a b
    loop-Moved [] db i a done h = (a, h, none_moved a)
    loop-Moved ((k, r) ∷ rows) db i a done h =
        let (u, first, rest, final) = >>=-ok (one (k, r)) (λ _. for_each rows one) db tt done in
        let (s, stock, closed, key) = step k r db first in
        elim (Bool-cases (r.item == i)) [
          | inl here ↦
              let at : r.item ≡ i = eq_of_== r.item i here in
              let found : find i (one (k, r) db).1.inventory ≡ some (change r.quantity s a) =
                rw (stock, at) (find-update_self i (change r.quantity s) db.inventory a h) in
              let (b, h', moved) =
                loop-Moved rows (one (k, r) db).1 i (change r.quantity s a) rest found in
              (b, rw final h', rw here (more_moved r.quantity s _ a b moved))
          | inr there ↦
              let found : find i (one (k, r) db).1.inventory ≡ some a = rw stock (
                find-update_ne i r.item (change r.quantity s) db.inventory (λ e. ground arith)
                ∙ h) in
              let (b, h', moved) = loop-Moved rows (one (k, r) db).1 i a rest found in
              (b, rw final h', rw there (same_moved _ a b moved))
        ]

  -- The loop adds no row and changes no key.
  pub loop_keys :
      (rows : Table Reservation) (db : Db)
      → (for_each rows one db).0 ≡ ok tt
      → let db' = (for_each rows one db).1 in
        (IsKeyed db.inventory → IsKeyed db'.inventory)
        × (IsKeyed db.reservations → IsKeyed db'.reservations)
        × ((j : ℕ) → find j db.inventory ≡ none → find j db'.inventory ≡ none)
        × ((j : ℕ) → find j db.reservations ≡ none → find j db'.reservations ≡ none)
        × (db'.next_key ≡ db.next_key)
        × ((P : Reservation → Type 0)
            → ((v : Reservation) → P v → P (mark v))
            → All (λ e. P e.1) db.reservations
            → All (λ e. P e.1) db'.reservations)
  loop_keys [] db done = (λ h. h, λ h. h, λ j h. h, λ j h. h, refl, λ P keep h. h)
  loop_keys ((k, r) ∷ rows) db done =
      let (u, first, rest, final) = >>=-ok (one (k, r)) (λ _. for_each rows one) db tt done in
      let (s, stock, closed, key) = step k r db first in
      let (a, b, c, d, e, f) = loop_keys rows (one (k, r) db).1 rest in
      (
        λ h. rw final (a (rw stock (IsKeyed-update r.item (change r.quantity s) db.inventory h))),
        λ h. rw final (b (rw closed (IsKeyed-update k mark db.reservations h))),
        λ j h.
            rw final
              (c j (rw stock (find-update-none j r.item (change r.quantity s) db.inventory h))),
        λ j h. rw final (d j (rw closed (find-update-none j k mark db.reservations h))),
        rw final (e ∙ key),
        λ P keep h. rw final (f P keep (rw closed (All-update P k mark db.reservations keep h))),
      )

  module _ (closes : (r : Reservation) → is_active (mark r).status ≡ false) where
    -- What the loop takes off the active reservations of an item is what its rows hold.
    pub loop_held :
        (rows : Table Reservation) (db : Db) (i : ℕ)
        → (for_each rows one db).0 ≡ ok tt
        → IsKeyed rows
        → Listed db.reservations rows
        → All (λ e. is_active e.1.status ≡ true) rows
        → sum_of (held_active i) (for_each rows one db).1.reservations +ℤ sum_of (held i) rows
          ≡ sum_of (held_active i) db.reservations
    loop_held [] db i done keyed listed act = omega int_laws
    loop_held ((k, r) ∷ rows) db i done keyed listed act =
        let (u, first, rest, final) = >>=-ok (one (k, r)) (λ _. for_each rows one) db tt done in
        let (s, stock, closed, key) = step k r db first in
        let db1 = (one (k, r) db).1 in
        let listed1 : Listed db1.reservations rows =
          rw closed (Listed-update k mark db.reservations rows keyed.0 listed.1) in
        let later = parts_of_eq (loop_held rows db1 i rest keyed.1 listed1 act.1) in
        let now = parts_of_eq (sum_of-update (held_active i) k mark db.reservations r listed.0) in
        let before : held_active i r ≡ held i r = rw act.0 in
        let after : held_active i (mark r) ≡ pos 0 = rw (closes r) in
        let rows1 : sum_of (held_active i) db1.reservations
            ≡ sum_of (held_active i) (update k mark db.reservations) =
          ap (sum_of (held_active i)) closed in
        let last : sum_of (held_active i) (for_each ((k, r) ∷ rows) one db).1.reservations
            ≡ sum_of (held_active i) (for_each rows one db1).1.reservations =
          ap (λ (d : Db). sum_of (held_active i) d.reservations) final in
        omega (
          int_laws,
          later,
          now,
          parts_of_eq before,
          parts_of_eq after,
          parts_of_eq rows1,
          parts_of_eq last,
        )

-- ===== src/Inventory/Drift.antt =====
-- Corrections of stock by hand against the reservations.
use coffee_shop_saas_platfor.Prelude.{
  ℕ, ◌≡◌, sym, ◌∙◌, true, false, some, arith, if◌then◌else◌, ap, ◌↔◌, ◌⊎◌, inl, inr, Bool-cases,
}
use coffee_shop_saas_platfor.Int.{
  ℤ, pos, ◌+ℤ◌, ◌-ℤ◌, ◌≤ℤ◌, ◌<ℤ◌, int_laws, parts_of_eq, max_ℤ, ltb_ℤ, ltb→lt_ℤ, ltb→le_ℤ, le→leb_ℤ,
}
use coffee_shop_saas_platfor.Table.{find, find_first, update, find-update_self, sum_of}
use coffee_shop_saas_platfor.Action.{ok, err, insufficient_stock}
use coffee_shop_saas_platfor.Schema.{InventoryItem, MovementKind, Db}
use coffee_shop_saas_platfor.Inventory.Adjust.{
  Place, is_at, is_low, adjust_stock, adjusted, set_alerts,
}
use coffee_shop_saas_platfor.Inventory.Orders.{release_for_order}
use coffee_shop_saas_platfor.Inventory.Orders.Effects.{held_open, release_effect}
use coffee_shop_saas_platfor.Inventory.Orders.Consistent.{IsBalanced}

-- The row that an accepted correction to `stock` leaves.
abbrev pub row_after : ℤ → InventoryItem → InventoryItem
row_after stock a =
    if is_low a.reorder_point stock
    then (if a.low_stock_alert_sent then adjusted stock a else set_alerts true (adjusted stock a))
    else (if a.low_stock_alert_sent then set_alerts false (adjusted stock a) else adjusted stock a)

module _ (place : Place) (q : ℤ) (kind : MovementKind) (db : Db) (key : ℕ) (a : InventoryItem)
    (first : find_first (is_at place) db.inventory ≡ some (key, a))
    (there : find key db.inventory ≡ some a) where
  adjust_refused :
      a.current_stock +ℤ q <ℤ pos 0 → adjust_stock place q kind db ≡ (err insufficient_stock, db)
  unfolding adjust_stock
  adjust_refused low = ground arith

  adjust_accepted :
      pos 0 ≤ℤ a.current_stock +ℤ q
      → let (x, db') = adjust_stock place q kind db in
        (x ≡ ok (adjusted (a.current_stock +ℤ q) a))
        × (find key db'.inventory ≡ some (row_after (a.current_stock +ℤ q) a))
        × (db'.reservations ≡ db.reservations)
  unfolding adjust_stock
  adjust_accepted fine =
      let stock = a.current_stock +ℤ q in
      let once = find-update_self key (adjusted stock) db.inventory a there in
      let told =
        find-update_self key (set_alerts true) (update key (adjusted stock) db.inventory)
          (adjusted stock a) once in
      let cleared =
        find-update_self key (set_alerts false) (update key (adjusted stock) db.inventory)
          (adjusted stock a) once in
      (
        ground (arith, once, told, cleared),
        ground (arith, once, told, cleared),
        ground (arith, once, told, cleared),
      )

  -- What a correction writes, alerts aside.
  abbrev Corrected : ℤ → InventoryItem → Type 0
  Corrected stock b =
      (b.current_stock ≡ stock)
      × (b.quantity ≡ stock)
      × (b.available_stock ≡ max_ℤ (pos 0) (stock -ℤ a.reserved_stock))
      × (b.reserved_stock ≡ a.reserved_stock)
      × (b.reserved_quantity ≡ a.reserved_quantity)

  row_after-Corrected : (stock : ℤ) → Corrected stock (row_after stock a)
  row_after-Corrected stock = (ground arith, ground arith, ground arith, ground arith, ground arith)

  IsBalanced-iff :
      (stock : ℤ) (b : InventoryItem)
      → IsBalanced a
      → Corrected stock b
      → IsBalanced b ↔ a.reserved_stock ≤ℤ b.current_stock
  IsBalanced-iff stock b (sum, n, m, p) (s, k, v, r, t) = (
    (λ (sum', n', m', p'). omega (int_laws, p', parts_of_eq sum', parts_of_eq r)),
    (λ enough.
        let top : max_ℤ (pos 0) (stock -ℤ a.reserved_stock) ≡ stock -ℤ a.reserved_stock = rw (
          le→leb_ℤ (pos 0) (stock -ℤ a.reserved_stock) (omega (int_laws, enough, parts_of_eq s))) in
        (
          omega (int_laws, parts_of_eq s, parts_of_eq (v ∙ top), parts_of_eq r),
          k ∙ sym s,
          t ∙ m ∙ sym r,
          omega (int_laws, enough, parts_of_eq s, parts_of_eq (v ∙ top)),
        )),
  )

  -- A correction of the stock row that the query finds, if the row is balanced, is refused exactly
  -- when it would leave a negative stock, and then nothing is written. Otherwise it is accepted,
  -- the row's current stock moves by the quantity, and the row stays balanced exactly when the new
  -- stock covers what is reserved; the reservations are not touched.
  pub adjust_effect :
      IsBalanced a
      → let (x, db') = adjust_stock place q kind db in
        ((a.current_stock +ℤ q <ℤ pos 0) × (x ≡ err insufficient_stock) × (db' ≡ db))
        ⊎ ((pos 0 ≤ℤ a.current_stock +ℤ q)
            × (x ≡ ok (adjusted (a.current_stock +ℤ q) a))
            × (b : InventoryItem) × (find key db'.inventory ≡ some b)
            × (b.current_stock ≡ a.current_stock +ℤ q)
            × (IsBalanced b ↔ a.reserved_stock ≤ℤ b.current_stock)
            × (db'.reservations ≡ db.reservations))
  adjust_effect bal = elim (Bool-cases (ltb_ℤ (a.current_stock +ℤ q) (pos 0))) [
    | inl low ↦
        let neg = ltb→lt_ℤ (a.current_stock +ℤ q) (pos 0) low in
        let r = adjust_refused neg in inl (neg, ap (λ p. p.0) r, ap (λ p. p.1) r)
    | inr fine ↦
        let nonneg = ltb→le_ℤ (a.current_stock +ℤ q) (pos 0) fine in
        let (answer, row, kept) = adjust_accepted nonneg in
        let stock = a.current_stock +ℤ q in
        let columns = row_after-Corrected stock in
        inr (
          nonneg,
          answer,
          row_after stock a,
          row,
          columns.0,
          IsBalanced-iff stock (row_after stock a) bal columns,
          kept,
        )
  ]

  -- A stock row is corrected below what an order's open reservations hold of it, but not below 0,
  -- and the order is then released, where the release ends well: the row then offers more stock
  -- than there is, since its available stock exceeds its current stock.
  pub phantom_stock :
      (order : ℕ)
      → pos 0 ≤ℤ a.current_stock +ℤ q
      → a.current_stock +ℤ q <ℤ sum_of (held_open order key) db.reservations
      → let db1 = (adjust_stock place q kind db).1 in
        let (y, db2) = release_for_order order db1 in
        y ≡ ok tt
        → (b : InventoryItem) × (find key db2.inventory ≡ some b)
          × (b.current_stock <ℤ b.available_stock)
  phantom_stock order nonneg short done =
      let (x, row, kept) = adjust_accepted nonneg in
      let stock = a.current_stock +ℤ q in
      let (b, h, (s, r, v, n, m)) =
        release_effect order key (adjust_stock place q kind db).1 (row_after stock a) done row in
      let (s', k, v', r', t) = row_after-Corrected stock in
      let clipped : pos 0 ≤ℤ max_ℤ (pos 0) (stock -ℤ a.reserved_stock) = ground arith in
      let held : sum_of (held_open order key) (adjust_stock place q kind db).1.reservations
          ≡ sum_of (held_open order key) db.reservations =
        rw kept in
      (
        b,
        h,
        omega (
          int_laws,
          short,
          clipped,
          parts_of_eq s,
          parts_of_eq v,
          parts_of_eq held,
          parts_of_eq s',
          parts_of_eq v',
        ),
      )

-- ===== src/OrderModification/Sums.antt =====
-- What a modification does to the sums of an order.
use coffee_shop_saas_platfor.Prelude.{
  ℕ, ◌≡◌, ◌≢◌, refl, sym, ap, ◌∙◌, inl, inr, true, false, some, List, [], ◌∷◌, arith, ◌==◌,
  ==_of_ne, eq_of_==, All, if◌then◌else◌, Bool-cases,
}
use mathlib.Core.Option.{some-injective}
use coffee_shop_saas_platfor.Int.{ℤ, pos, ◌+ℤ◌, ◌-ℤ◌, ◌*ℤ◌, int_laws, parts_of_eq, mul_sub}
use coffee_shop_saas_platfor.Table.{
  Table, find, update, sum_of, find-update_self, find-update_ne, sum_of-update, All-update,
}
use coffee_shop_saas_platfor.Table.Keys.{
  IsKeyed, IsKeyed-update, IsKeyed-delete, sum_of-delete, All-delete, All-find, find-find_many,
}
use coffee_shop_saas_platfor.Schema.{Db, Order, OrderItem}
use coffee_shop_saas_platfor.OrderModification.Effects.{
  add_effect, Same, Removed, Recounted, remove_effect, quantity_effect,
}
use coffee_shop_saas_platfor.Action.{Result}
use coffee_shop_saas_platfor.Pricing.Items.{Menu, OrderItemInput}
use coffee_shop_saas_platfor.Pricing.{PricingDb}
use coffee_shop_saas_platfor.OrderModification.{
  add_item, set_totals, remove_item, set_quantity, update_item_quantity,
}

abbrev pub weight : ℕ → OrderItem → ℤ
weight k i = if i.order == k then i.subtotal else pos 0

abbrev pub IsMultiplied : OrderItem → Type 0
IsMultiplied i = i.subtotal ≡ i.unit_price *ℤ i.quantity

-- The subtotal of each order is the sum over its items, and that of an item its price by its quantity.
pub record IsSummed (db : Db) : Type 0 where
  pub items_keyed : IsKeyed db.order_items
  pub multiplied : All (λ e. IsMultiplied e.1) db.order_items
  pub summed :
      (k : ℕ) (o : Order)
      → find k db.orders ≡ some o
      → o.subtotal ≡ sum_of (weight k) db.order_items

update_keeps :
    (tax_of : ℤ → ℤ) (k m : ℕ) (new : ℤ) (o o' : Order) (orders : Table Order) (sum : ℕ → ℤ)
    → find k orders ≡ some o
    → new ≡ sum k
    → (m ≢ k → (x : Order) → find m orders ≡ some x → x.subtotal ≡ sum m)
    → find m (update k (set_totals tax_of new) orders) ≡ some o'
    → o'.subtotal ≡ sum m
update_keeps tax_of k m new o o' orders sum h e others found = elim (Bool-cases (m == k)) [
  | inl same ↦
      let key = eq_of_== m k same in
      let row = some-injective _ _ (
        sym (find-update_self k (set_totals tax_of new) orders o h)
        ∙ ap (λ x. find x (update k (set_totals tax_of new) orders)) (sym key)
        ∙ found) in
      ap Order.subtotal (sym row) ∙ e ∙ ap sum (sym key)
  | inr other ↦
      let ne : m ≢ k = λ key. (ground (arith, key, other)) in
      others ne o' (sym (find-update_ne m k (set_totals tax_of new) orders ne) ∙ found)
]

-- The weight of an item of order `k`, for `k` and for another order.
own_weight : (k : ℕ) (i : OrderItem) → (i.order == k) ≡ true → weight k i ≡ i.subtotal
own_weight k i h = rw h refl

other_weight : (k m : ℕ) (i : OrderItem) → (i.order == k) ≡ true → m ≢ k → weight m i ≡ pos 0
other_weight k m i h ne =
    let key = eq_of_== i.order k h in
    let apart : (i.order == m) ≡ false = ==_of_ne i.order m (λ e. ne (sym e ∙ key)) in rw apart refl

-- A modification of an order.
pub data Change : Type 0 where
  removes : ℕ → ℕ → ℕ → Change
  recounts : ℕ → ℕ → ℕ → ℤ → Change
  adds : ℕ → ℕ → OrderItemInput → Change

module _ (tax_of : ℤ → ℤ) where
  IsSummed-Removed :
      (k j : ℕ) (db db' : Db) → IsSummed db → Removed tax_of k j db db' → IsSummed db'
  IsSummed-Removed k j db db' c (o, i, order, item, orders, items) =
      let (row, mine) = find-find_many (λ x. x.order == k) j db.order_items i c.items_keyed item in
      let sums = λ (m : ℕ). parts_of_eq (sum_of-delete (weight m) j db.order_items i row) in
      let sum = λ (m : ℕ). sum_of (weight m) db'.order_items in
      let own : o.subtotal -ℤ i.subtotal ≡ sum k = rw items (
        omega (
          int_laws,
          sums k,
          parts_of_eq (own_weight k i mine),
          parts_of_eq (c.summed k o order),
        )) in
      record {
        items_keyed = rw items (IsKeyed-delete j db.order_items c.items_keyed);
        multiplied = rw items (All-delete IsMultiplied j db.order_items c.multiplied);
        summed = λ m o' found.
            update_keeps tax_of k m (o.subtotal -ℤ i.subtotal) o o' db.orders sum order own
              (λ ne x at.
                c.summed m x at
                ∙ (rw items (omega (int_laws, sums m, parts_of_eq (other_weight k m i mine ne)))))
              (ap (find m) (sym orders) ∙ found);
      }

  IsSummed-Recounted :
      (k j : ℕ) (n : ℤ) (db db' : Db) → IsSummed db → Recounted tax_of k j n db db' → IsSummed db'
  IsSummed-Recounted k j n db db' c (o, i, order, item, orders, items) =
      let (row, mine) = find-find_many (λ x. x.order == k) j db.order_items i c.items_keyed item in
      let product = All-find (λ e. IsMultiplied e.1) j db.order_items i c.multiplied row in
      let sums =
        λ (m : ℕ). parts_of_eq (sum_of-update (weight m) j (set_quantity n) db.order_items i row) in
      let sum = λ (m : ℕ). sum_of (weight m) db'.order_items in
      let new = o.subtotal +ℤ i.unit_price *ℤ (n -ℤ i.quantity) in
      let own : new ≡ sum k = rw items (
        omega (
          int_laws,
          sums k,
          parts_of_eq (own_weight k i mine),
          parts_of_eq (own_weight k (set_quantity n i) mine),
          parts_of_eq (c.summed k o order),
          parts_of_eq product,
          parts_of_eq (mul_sub i.unit_price n i.quantity),
        )) in
      record {
        items_keyed = rw items (IsKeyed-update j (set_quantity n) db.order_items c.items_keyed);
        multiplied =
            rw items (
              All-update IsMultiplied j (set_quantity n) db.order_items (λ x h. refl) c.multiplied);
        summed = λ m o' found.
            update_keeps tax_of k m new o o' db.orders sum order own
              (λ ne x at.
                c.summed m x at
                ∙ (rw items (
                    omega (
                      int_laws,
                      sums m,
                      parts_of_eq (other_weight k m i mine ne),
                      parts_of_eq (other_weight k m (set_quantity n i) mine ne),
                    ))))
              (ap (find m) (sym orders) ∙ found);
      }

  IsSummed-Same : (db db' : Db) → IsSummed db → Same db db' → IsSummed db'
  IsSummed-Same db db' c (orders, items) = record {
    items_keyed = rw items c.items_keyed;
    multiplied = rw items c.multiplied;
    summed = λ m o found. rw items (c.summed m o (ap (find m) (sym orders) ∙ found));
  }

module _ {Rate : Type 0} (times : ℤ → Rate → ℤ) (share : ℤ → ℤ → ℤ → ℤ) (over_hundred : Rate → Rate)
    (tenth nothing : Rate) (rates : PricingDb Rate) (store_menu : ℕ → Result Menu)
    (tax_of : ℤ → ℤ) where
  pub change_step : Change → Db → Db
  change_step (removes tenant k j) db = (remove_item tax_of tenant k j db).1
  change_step (recounts tenant k j n) db = (update_item_quantity tax_of tenant k j n db).1
  change_step (adds tenant k input) db =
      (add_item times share over_hundred tenth nothing rates store_menu tenant k input db).1

  pub changes_run : List Change → Db → Db
  changes_run [] db = db
  changes_run (c ∷ cs) db = changes_run cs (change_step c db)

  -- Whatever items are added and removed and whatever quantities are changed, also where a call throws: if each
  -- order's subtotal is the sum over its items and each item's subtotal its unit price by its
  -- quantity, and the keys of items differ, then this holds afterwards too.
  pub changes_run-IsSummed :
      (cs : List Change) (db : Db) → IsSummed db → IsSummed (changes_run cs db)
  unfolding changes_run change_step
  changes_run-IsSummed [] db c = c
  changes_run-IsSummed (removes tenant k j ∷ cs) db c =
      let db' = (remove_item tax_of tenant k j db).1 in
      changes_run-IsSummed cs db' (elim (remove_effect tax_of tenant k j db) [
        | inl same ↦ IsSummed-Same tax_of db db' c same
        | inr removed ↦ IsSummed-Removed tax_of k j db db' c removed
      ])
  changes_run-IsSummed (recounts tenant k j n ∷ cs) db c =
      let db' = (update_item_quantity tax_of tenant k j n db).1 in
      changes_run-IsSummed cs db' (elim (quantity_effect tax_of tenant k j n db) [
        | inl same ↦ IsSummed-Same tax_of db db' c same
        | inr recounted ↦ IsSummed-Recounted tax_of k j n db db' c recounted
      ])
  changes_run-IsSummed (adds tenant k input ∷ cs) db c =
      let db' =
        (add_item times share over_hundred tenth nothing rates store_menu tenant k input db).1 in
      changes_run-IsSummed cs db' (
        IsSummed-Same tax_of db db' c
          (add_effect times share over_hundred tenth nothing rates store_menu tenant k input db))

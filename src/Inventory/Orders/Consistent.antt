-- ===== src/Inventory/Orders/Consistent.antt =====
-- The columns of a stock row agree with one another and with the reservations, whatever orders are
-- reserved, committed and released.
use coffee_shop_saas_platfor.Prelude.{ℕ, ◌≤◌, ◌≡◌, sym, ◌∙◌, inl, inr, none, some, Option-cases}
use mathlib.Core.Option.{some-injective}
use coffee_shop_saas_platfor.Int.{ℤ, pos, ◌+ℤ◌, ◌≤ℤ◌, int_laws, parts_of_eq}
use coffee_shop_saas_platfor.Table.{find, sum_of}
use coffee_shop_saas_platfor.Table.Keys.{IsKeyed}
use coffee_shop_saas_platfor.Action.{Result-cases}
use coffee_shop_saas_platfor.Schema.{InventoryItem, Db}
use coffee_shop_saas_platfor.Inventory.Orders.{commit_for_order, release_for_order}
use coffee_shop_saas_platfor.Inventory.Orders.Loop.{held_active}
use coffee_shop_saas_platfor.Inventory.Orders.Settle.{Committed, Released}
use coffee_shop_saas_platfor.Inventory.Orders.Effects.{
  held_open, IsNonneg, held_open_nonneg, commit_failed, release_failed, commit_effect,
  release_effect, commit_held, release_held, KeepsKeys, commit_keys, release_keys,
}

-- What is there is what is for sale and what is reserved, the older columns agree with the newer
-- ones, and no more has been reserved than there was.
abbrev pub IsBalanced : InventoryItem → Type 0
IsBalanced a =
    (a.available_stock +ℤ a.reserved_stock ≡ a.current_stock)
    × (a.quantity ≡ a.current_stock)
    × (a.reserved_quantity ≡ a.reserved_stock)
    × (pos 0 ≤ℤ a.available_stock)

-- Every stock row is balanced, and its reserved stock is what the active reservations hold of it;
-- keys are unique and new ones unused, and no reservation is negative.
pub record IsConsistent (db : Db) : Type 0 where
  pub balanced : (i : ℕ) (a : InventoryItem) → find i db.inventory ≡ some a → IsBalanced a
  pub backed :
      (i : ℕ) (a : InventoryItem)
      → find i db.inventory ≡ some a
      → a.reserved_stock ≡ sum_of (held_active i) db.reservations
  pub items_keyed : IsKeyed db.inventory
  pub reservations_keyed : IsKeyed db.reservations
  pub nonneg : IsNonneg db.reservations
  pub unused : (j : ℕ) → db.next_key ≤ j → find j db.reservations ≡ none

Committed-IsBalanced : (q : ℤ) (a b : InventoryItem) → IsBalanced a → Committed q a b → IsBalanced b
Committed-IsBalanced q a b (sum, n, m, p) (c, r, v, n', m') = (
  omega (int_laws, parts_of_eq sum, parts_of_eq c, parts_of_eq r, parts_of_eq v),
  omega (int_laws, parts_of_eq n, parts_of_eq n', parts_of_eq c),
  omega (int_laws, parts_of_eq m, parts_of_eq m', parts_of_eq r),
  rw v p,
)

Released-IsBalanced :
    (q : ℤ) (a b : InventoryItem) → pos 0 ≤ℤ q → IsBalanced a → Released q a b → IsBalanced b
Released-IsBalanced q a b nonneg (sum, n, m, p) (c, r, v, n', m') = (
  omega (int_laws, parts_of_eq sum, parts_of_eq c, parts_of_eq r, parts_of_eq v),
  omega (int_laws, parts_of_eq n, parts_of_eq n', parts_of_eq c),
  omega (int_laws, parts_of_eq m, parts_of_eq m', parts_of_eq r),
  omega (int_laws, p, nonneg, parts_of_eq v),
)

-- A row of which `q` is no longer reserved.
abbrev Settles : ℤ → InventoryItem → InventoryItem → Type 0
Settles q a b = IsBalanced b × (b.reserved_stock +ℤ q ≡ a.reserved_stock)

settle-IsConsistent :
    (held_of : ℕ → ℤ) (db db' : Db)
    → IsConsistent db
    → KeepsKeys db db'
    → ((i : ℕ) (a : InventoryItem)
        → find i db.inventory ≡ some a
        → (b : InventoryItem) × (find i db'.inventory ≡ some b) × Settles (held_of i) a b)
    → ((i : ℕ)
        → sum_of (held_active i) db'.reservations +ℤ held_of i
          ≡ sum_of (held_active i) db.reservations)
    → IsConsistent db'
settle-IsConsistent held_of db db' c (a, b, missing, gone, key, pos') effect left = record {
  balanced = λ i y h. (row i y h).0;
  backed = λ i y h. (row i y h).1;
  items_keyed = a c.items_keyed;
  reservations_keyed = b c.reservations_keyed;
  nonneg = pos' c.nonneg;
  unused = λ j le. gone j (c.unused j (rw (← key) le));
}
  where
    settled :
        (i : ℕ) (y x z : InventoryItem)
        → find i db'.inventory ≡ some y
        → find i db.inventory ≡ some x
        → find i db'.inventory ≡ some z
        → Settles (held_of i) x z
        → IsBalanced y × (y.reserved_stock ≡ sum_of (held_active i) db'.reservations)
    settled i y x z h hx hz (bal, res) =
        let same : z ≡ y = some-injective _ _ (sym hz ∙ h) in
        let sums : z.reserved_stock ≡ sum_of (held_active i) db'.reservations =
          omega (int_laws, parts_of_eq res, parts_of_eq (left i), parts_of_eq (c.backed i x hx)) in
        rw (← same) (bal, sums)

    row :
        (i : ℕ) (y : InventoryItem)
        → find i db'.inventory ≡ some y
        → IsBalanced y × (y.reserved_stock ≡ sum_of (held_active i) db'.reservations)
    row i y h = elim (Option-cases (find i db.inventory)) [
      | inl e ↦ absurd (cc (missing i e))
      | inr (x, hx) ↦ let (z, hz, s) = effect i x hx in settled i y x z h hx hz s
    ]

-- Committing an order, whether the call ends well or fails, keeps the database consistent: every
-- stock row is balanced and its reserved stock is what the active reservations hold of it, keys
-- are unique and new ones unused, and no reservation is negative.
pub commit-IsConsistent :
    (order : ℕ) (db : Db) → IsConsistent db → IsConsistent (commit_for_order order db).1
commit-IsConsistent order db c = elim (Result-cases (commit_for_order order db).0) [
  | inr (e, failed) ↦ rw (commit_failed order db e failed) c
  | inl (u, done) ↦
      settle-IsConsistent (λ i. sum_of (held_open order i) db.reservations) db
        (commit_for_order order db).1 c (commit_keys order db done)
        (λ i a h.
          let (b, h', moved) = commit_effect order i db a done h in
          (b, h', (Committed-IsBalanced _ a b (c.balanced i a h) moved, moved.1)))
        (λ i. commit_held order i db done c.reservations_keyed)
]

-- Releasing an order, whether the call ends well or fails, keeps the database consistent: every
-- stock row is balanced and its reserved stock is what the active reservations hold of it, keys
-- are unique and new ones unused, and no reservation is negative.
pub release-IsConsistent :
    (order : ℕ) (db : Db) → IsConsistent db → IsConsistent (release_for_order order db).1
release-IsConsistent order db c = elim (Result-cases (release_for_order order db).0) [
  | inr (e, failed) ↦ rw (release_failed order db e failed) c
  | inl (u, done) ↦
      settle-IsConsistent (λ i. sum_of (held_open order i) db.reservations) db
        (release_for_order order db).1 c (release_keys order db done)
        (λ i a h.
          let (b, h', moved) = release_effect order i db a done h in
          (
            b,
            h',
            (
              Released-IsBalanced _ a b (held_open_nonneg order i db.reservations c.nonneg)
                  (c.balanced i a h) moved,
              moved.1,
            ),
          ))
        (λ i. release_held order i db done c.reservations_keyed)
]

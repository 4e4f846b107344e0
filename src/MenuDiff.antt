-- ===== src/MenuDiff.antt =====
-- The differences between two snapshots of a menu: `MenuDiffService` of
-- backend/src/services/menu/MenuDiff.service.ts. A snapshot's arrays are tables by `uuid`; names and
-- descriptions are numbers. `getDiffSummary` is left out.
pub mod Changes
pub mod Found
pub mod Lists
pub mod Patch
pub mod Record
use coffee_shop_saas_platfor.Prelude.{
  ℕ, suc, ◌+◌, Bool, Option, none, some, [], ◌∷◌, ltb, ◌==◌, ◌&&◌, ◌||◌, length,
}
use coffee_shop_saas_platfor.Table.{Table, find, find_first, create}
use coffee_shop_saas_platfor.Action.{Action, snapshot_not_found, pure, throw, ◌>>=◌, ◌>>◌}
use coffee_shop_saas_platfor.MenuDiff.Changes.{
  Category, Diff, Product, map_of, miss_category, miss_product, no_diff, see_category, see_product,
}

-- `for (const [uuid, row] of map) { ... }`
abbrev pub each {ℓ} : {A : Type ℓ} → (ℕ → A → Diff → Diff) → Table A → Diff → Diff
each f [] d = d
each f ((k, v) ∷ t) d = each f t (f k v d)

unfoldable pub calculate_diff :
    Table Category → Table Category → Table Product → Table Product → Diff
calculate_diff old_categories new_categories old_products new_products =
    let old_cats = map_of old_categories in
    let new_cats = map_of new_categories in
    let old_prods = map_of old_products in
    let new_prods = map_of new_products in
    let d1 = each (λ k c. see_category (find k old_cats) k c) new_cats no_diff in
    let d2 = each (λ k c. miss_category (find k new_cats) k c) old_cats d1 in
    let d3 = each (λ k p. see_product (find k old_prods) k p) new_prods d2 in
    each (λ k p. miss_product (find k new_prods) k p) old_prods d3

pub record Snapshot : Type 0 where
  pub categories : Table Category
  pub products : Table Product

pub record DiffRecord : Type 0 where
  pub from_snapshot : ℕ
  pub to_snapshot : ℕ
  pub total_changes : ℕ
  pub has_breaking_changes : Bool
  pub diff : Diff

pub record Menus : Type 0 where
  pub snapshots : Table Snapshot
  pub diffs : Table DiffRecord
  pub next_key : ℕ

abbrev pub is_diff_of : ℕ → ℕ → DiffRecord → Bool
is_diff_of from to r = r.from_snapshot == from && r.to_snapshot == to

-- `availability_changes` is not counted.
abbrev pub count_changes : Diff → ℕ
count_changes d =
    length d.added_categories
    + length d.removed_categories
    + length d.modified_categories
    + length d.added_products
    + length d.removed_products
    + length d.modified_products
    + length d.price_increases
    + length d.price_decreases

abbrev pub is_breaking : Diff → Bool
is_breaking d = ltb 0 (length d.removed_products) || ltb 0 (length d.price_increases)

unfoldable pub diff_record : ℕ → ℕ → Snapshot → Snapshot → DiffRecord
diff_record from to a b =
    let d = calculate_diff a.categories b.categories a.products b.products in
    record {
      from_snapshot = from;
      to_snapshot = to;
      total_changes = count_changes d;
      has_breaking_changes = is_breaking d;
      diff = d;
    }

abbrev pub both : Option Snapshot → Option Snapshot → Option (Snapshot × Snapshot)
both (some a) (some b) = some (a, b)
both _ _ = none

-- The rest, where there is no row yet. The answer is the row, and its key.
abbrev pub make_diff : ℕ → ℕ → Option (Snapshot × Snapshot) → Action Menus (ℕ × DiffRecord)
make_diff from to none s = throw snapshot_not_found s
make_diff from to (some (a, b)) s =
    let row = diff_record from to a b in
    pure (s.next_key, row)
      (record s { diffs = create s.next_key row s.diffs; next_key = suc s.next_key })

unfoldable pub create_diff : ℕ → ℕ → Action Menus (ℕ × DiffRecord)
create_diff from to s = elim (find_first (is_diff_of from to) s.diffs) [
  | some row ↦ pure row s
  | none ↦ make_diff from to (both (find from s.snapshots) (find to s.snapshots)) s
]

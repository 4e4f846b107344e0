-- ===== src/MenuDiff/Found.antt =====
-- What the lists of a diff hold for each product.
use coffee_shop_saas_platfor.Prelude.{
  ℕ, ◌≡◌, refl, sym, ap, ◌∙◌, Bool, true, false, not, Option, none, some, [], ◌++◌, ◌&&◌,
}
use mathlib.Core.List.{append-nil}
use coffee_shop_saas_platfor.Table.{Table, find}
use coffee_shop_saas_platfor.MenuDiff.{each, calculate_diff}
use coffee_shop_saas_platfor.MenuDiff.Changes.{
  Category, Product, ProductEntry, PriceChange, AvailabilityChange, Modification, Diff, map_of,
  push_if, see_category, miss_category, see_product, miss_product, price_change,
  availability_change, modification, entry_of, is_same_price, is_increase, is_decrease, is_modified,
  is_moved, no_diff,
}
use coffee_shop_saas_platfor.MenuDiff.Lists.{
  one, gather, given, find-gather, each-gather, each-same, IsKeyed-map_of,
}

module _ {κ} {B : Type κ} where
  append_empty : (t : Table B) → t ≡ t ++ []
  append_empty t = sym (append-nil t)

  abbrev pub when_some : Bool → B → Option B
  when_some true b = some b
  when_some false b = none

  push_lem : (c : Bool) (k : ℕ) (v : B) (t : Table B) → push_if c k v t ≡ t ++ one k (when_some c v)
  push_lem true k v t = refl
  push_lem false k v t = append_empty t

-- What is pushed for a product that the other menu has or has not.
abbrev pub added : Option Product → Product → Option ProductEntry
added none p = some (entry_of p)
added (some _) p = none

abbrev pub paired {κ} :
    {B : Type κ}
    → (Product → Product → Bool)
    → (Product → Product → B)
    → Option Product
    → Product
    → Option B
paired c f none p = none
paired c f (some o) p = when_some (c o p) (f o p)

abbrev pub is_dearer : Product → Product → Bool
is_dearer o new = not (is_same_price o.base_price new.base_price) && is_increase o new

-- The lists of products of a diff.
record Products : Type 0 where
  added_products : Table ProductEntry
  removed_products : Table ProductEntry
  modified_products : Table Modification
  price_increases : Table PriceChange
  price_decreases : Table PriceChange
  availability_changes : Table AvailabilityChange

abbrev products_of : Diff → Products
products_of d = record {
  added_products = d.added_products;
  removed_products = d.removed_products;
  modified_products = d.modified_products;
  price_increases = d.price_increases;
  price_decreases = d.price_decreases;
  availability_changes = d.availability_changes;
}

see_category_lem :
    (o : Option Category) (k : ℕ) (c : Category) (d : Diff)
    → products_of (see_category o k c d) ≡ products_of d
see_category_lem none k c d = refl
see_category_lem (some _) k c d = refl

miss_category_lem :
    (o : Option Category) (k : ℕ) (c : Category) (d : Diff)
    → products_of (miss_category o k c d) ≡ products_of d
miss_category_lem none k c d = refl
miss_category_lem (some _) k c d = refl

abbrev seen : Option Product → ℕ → Product → Products → Products
seen o k p d = record d {
  added_products = d.added_products ++ one k (added o p);
  modified_products = d.modified_products ++ one k (paired is_modified modification o p);
  price_increases = d.price_increases ++ one k (paired is_dearer price_change o p);
  price_decreases = d.price_decreases ++ one k (paired is_decrease price_change o p);
  availability_changes = d.availability_changes ++ one k (paired is_moved availability_change o p);
}

abbrev missed : Option Product → ℕ → Product → Products → Products
missed o k p d = record d { removed_products = d.removed_products ++ one k (added o p) }

see_product_lem :
    (o : Option Product) (k : ℕ) (p : Product) (d : Diff)
    → products_of (see_product o k p d) ≡ seen o k p (products_of d)
see_product_lem none k p d = λ i. record (seen none k p (products_of d)) {
  modified_products = append_empty d.modified_products i;
  price_increases = append_empty d.price_increases i;
  price_decreases = append_empty d.price_decreases i;
  availability_changes = append_empty d.availability_changes i;
}
see_product_lem (some o) k p d = λ i. record (seen (some o) k p (products_of d)) {
  added_products = append_empty d.added_products i;
  modified_products = push_lem (is_modified o p) k (modification o p) d.modified_products i;
  price_increases = push_lem (is_dearer o p) k (price_change o p) d.price_increases i;
  price_decreases = push_lem (is_decrease o p) k (price_change o p) d.price_decreases i;
  availability_changes =
      push_lem (is_moved o p) k (availability_change o p) d.availability_changes i;
}

miss_product_lem :
    (o : Option Product) (k : ℕ) (p : Product) (d : Diff)
    → products_of (miss_product o k p d) ≡ missed o k p (products_of d)
miss_product_lem none k p d = refl
miss_product_lem (some o) k p d =
    λ i. record (products_of d) { removed_products = append_empty d.removed_products i }

module _ (oc nc : Table Category) (op np : Table Product) where
  abbrev old_map : Table Product
  old_map = map_of op

  abbrev new_map : Table Product
  new_map = map_of np

  abbrev see : ℕ → Product → Diff → Diff
  see k p = see_product (find k old_map) k p

  abbrev miss : ℕ → Product → Diff → Diff
  miss k p = miss_product (find k new_map) k p

  module _ {κ} {B : Type κ} (field : Products → Table B) (g : Option Product → Product → Option B)
      (empty : field (products_of no_diff) ≡ []) where
    abbrev of : Diff → Table B
    of d = field (products_of d)

    categories_lem :
        of (
          each
            (λ k c. miss_category (find k (map_of nc)) k c)
            (map_of oc)
            (each (λ k c. see_category (find k (map_of oc)) k c) (map_of nc) no_diff))
        ≡ []
    categories_lem =
        each-same of (λ k c. miss_category (find k (map_of nc)) k c)
          (λ k c d. ap field (miss_category_lem (find k (map_of nc)) k c d)) (map_of oc) _
        ∙ each-same of (λ k c. see_category (find k (map_of oc)) k c)
            (λ k c d. ap field (see_category_lem (find k (map_of oc)) k c d)) (map_of nc) no_diff
        ∙ empty

    seen_list :
        ((o : Option Product) (k : ℕ) (p : Product) (d : Diff)
          → field (seen o k p (products_of d)) ≡ of d ++ one k (g o p))
        → ((o : Option Product) (k : ℕ) (p : Product) (d : Diff)
            → field (missed o k p (products_of d)) ≡ of d)
        → (k : ℕ)
        → find k (of (calculate_diff oc nc op np))
          ≡ given (λ j p. g (find j old_map) p) k (find k new_map)
    unfolding calculate_diff
    seen_list first second k =
        ap (find k) (
          each-same of miss
            (λ k p d.
              ap field (miss_product_lem (find k new_map) k p d) ∙ second (find k new_map) k p d)
            old_map _
          ∙ each-gather of see (λ k p. g (find k old_map) p)
              (λ k p d.
                ap field (see_product_lem (find k old_map) k p d) ∙ first (find k old_map) k p d)
              new_map _
          ∙ ap (λ l. l ++ gather (λ k p. g (find k old_map) p) new_map) categories_lem)
        ∙ find-gather (λ j p. g (find j old_map) p) k new_map (IsKeyed-map_of np)

    missed_list :
        ((o : Option Product) (k : ℕ) (p : Product) (d : Diff)
          → field (seen o k p (products_of d)) ≡ of d)
        → ((o : Option Product) (k : ℕ) (p : Product) (d : Diff)
            → field (missed o k p (products_of d)) ≡ of d ++ one k (g o p))
        → (k : ℕ)
        → find k (of (calculate_diff oc nc op np))
          ≡ given (λ j p. g (find j new_map) p) k (find k old_map)
    unfolding calculate_diff
    missed_list first second k =
        ap (find k) (
          each-gather of miss (λ k p. g (find k new_map) p)
            (λ k p d.
              ap field (miss_product_lem (find k new_map) k p d) ∙ second (find k new_map) k p d)
            old_map _
          ∙ ap (λ l. l ++ gather (λ k p. g (find k new_map) p) old_map)
              (each-same of see
                  (λ k p d.
                    ap field (see_product_lem (find k old_map) k p d)
                    ∙ first (find k old_map) k p d)
                  new_map _
                ∙ categories_lem))
        ∙ find-gather (λ j p. g (find j new_map) p) k old_map (IsKeyed-map_of op)

  abbrev diff : Diff
  diff = calculate_diff oc nc op np

  pub find-added :
      (k : ℕ)
      → find k diff.added_products ≡ given (λ j p. added (find j old_map) p) k (find k new_map)
  find-added = seen_list (λ d. d.added_products) added refl (λ o k p d. refl) (λ o k p d. refl)

  pub find-removed :
      (k : ℕ)
      → find k diff.removed_products ≡ given (λ j p. added (find j new_map) p) k (find k old_map)
  find-removed =
      missed_list (λ d. d.removed_products) added refl (λ o k p d. refl) (λ o k p d. refl)

  pub find-increase :
      (k : ℕ)
      → find k diff.price_increases
        ≡ given (λ j p. paired is_dearer price_change (find j old_map) p) k (find k new_map)
  find-increase =
      seen_list (λ d. d.price_increases) (paired is_dearer price_change) refl (λ o k p d. refl)
        (λ o k p d. refl)

  pub find-decrease :
      (k : ℕ)
      → find k diff.price_decreases
        ≡ given (λ j p. paired is_decrease price_change (find j old_map) p) k (find k new_map)
  find-decrease =
      seen_list (λ d. d.price_decreases) (paired is_decrease price_change) refl (λ o k p d. refl)
        (λ o k p d. refl)

  pub find-moved :
      (k : ℕ)
      → find k diff.availability_changes
        ≡ given (λ j p. paired is_moved availability_change (find j old_map) p) k (find k new_map)
  find-moved =
      seen_list (λ d. d.availability_changes) (paired is_moved availability_change) refl
        (λ o k p d. refl) (λ o k p d. refl)

  pub find-modified :
      (k : ℕ)
      → find k diff.modified_products
        ≡ given (λ j p. paired is_modified modification (find j old_map) p) k (find k new_map)
  find-modified =
      seen_list (λ d. d.modified_products) (paired is_modified modification) refl (λ o k p d. refl)
        (λ o k p d. refl)

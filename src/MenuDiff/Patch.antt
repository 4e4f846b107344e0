-- ===== src/MenuDiff/Patch.antt =====
-- What a diff tells of the new menu.
use coffee_shop_saas_platfor.Prelude.{
  ℕ, ◌≡◌, ◌↔◌, refl, sym, ap, ◌∙◌, Bool, true, false, not, Option, none, some, arith,
}
use mathlib.Core.Option.{some-ne-none}
use coffee_shop_saas_platfor.Int.{eq_of_parts, ℤ}
use coffee_shop_saas_platfor.Table.{Table, find}
use coffee_shop_saas_platfor.MenuDiff.{calculate_diff}
use coffee_shop_saas_platfor.MenuDiff.Changes.{
  Category, Product, ProductEntry, PriceChange, AvailabilityChange, Modification, Diff, map_of,
  price_change, availability_change, modification, is_decrease, is_modified, is_moved, is_equal,
}
use coffee_shop_saas_platfor.MenuDiff.Lists.{given}
use coffee_shop_saas_platfor.MenuDiff.Found.{
  added, paired, is_dearer, when_some, find-added, find-removed, find-increase, find-decrease,
  find-moved, find-modified,
}

-- What a diff says of one product.
pub record Told : Type 0 where
  pub added_entry : Option ProductEntry
  pub removed_entry : Option ProductEntry
  pub increase : Option PriceChange
  pub decrease : Option PriceChange
  pub moved : Option AvailabilityChange
  pub modified : Option Modification

abbrev pub told : ℕ → Diff → Told
told k d = record {
  added_entry = find k d.added_products;
  removed_entry = find k d.removed_products;
  increase = find k d.price_increases;
  decrease = find k d.price_decreases;
  moved = find k d.availability_changes;
  modified = find k d.modified_products;
}

-- The reference: what is to be said of a product that is so in the old menu and so in the new.
abbrev pub compare_products : Option Product → Option Product → Told
compare_products o n = record {
  added_entry = given (λ _ p. added o p) 0 n;
  removed_entry = given (λ _ p. added n p) 0 o;
  increase = given (λ _ p. paired is_dearer price_change o p) 0 n;
  decrease = given (λ _ p. paired is_decrease price_change o p) 0 n;
  moved = given (λ _ p. paired is_moved availability_change o p) 0 n;
  modified = given (λ _ p. paired is_modified modification o p) 0 n;
}

given_same :
    {A B : Type 0} (g : ℕ → A → Option B) (k : ℕ) (o : Option A)
    → given g k o ≡ given (λ _ p. g k p) 0 o
given_same g k none = refl
given_same g k (some _) = refl

pub told_lem :
    (oc nc : Table Category) (op np : Table Product) (k : ℕ)
    → told k (calculate_diff oc nc op np)
      ≡ compare_products (find k (map_of op)) (find k (map_of np))
told_lem oc nc op np k =
    let o = find k (map_of op) in
    let n = find k (map_of np) in
    λ i. record {
      added_entry =
          (find-added oc nc op np k ∙ given_same (λ j p. added (find j (map_of op)) p) k n) i;
      removed_entry =
          (find-removed oc nc op np k ∙ given_same (λ j p. added (find j (map_of np)) p) k o) i;
      increase =
          (find-increase oc nc op np k
              ∙ given_same (λ j p. paired is_dearer price_change (find j (map_of op)) p) k n)
            i;
      decrease =
          (find-decrease oc nc op np k
              ∙ given_same (λ j p. paired is_decrease price_change (find j (map_of op)) p) k n)
            i;
      moved =
          (find-moved oc nc op np k
              ∙ given_same (λ j p. paired is_moved availability_change (find j (map_of op)) p) k n)
            i;
      modified =
          (find-modified oc nc op np k
              ∙ given_same (λ j p. paired is_modified modification (find j (map_of op)) p) k n)
            i;
    }

abbrev pub price_of : Option Product → Option ℤ
price_of none = none
price_of (some p) = some p.base_price

abbrev changed_to : Option PriceChange → Option ℤ → Option ℤ
changed_to none price = price
changed_to (some c) _ = some c.new_price

abbrev put_in : Option ProductEntry → Option ℤ → Option ℤ
put_in none price = price
put_in (some e) _ = some e.base_price

abbrev taken_out : Option ProductEntry → Option ℤ → Option ℤ
taken_out none price = price
taken_out (some _) _ = none

-- The price after a diff, from the price before.
abbrev pub patch : Told → Option ℤ → Option ℤ
patch t price =
    taken_out t.removed_entry
      (put_in t.added_entry (changed_to t.increase (changed_to t.decrease price)))

patch_lem : (o n : Option Product) → price_of n ≡ patch (compare_products o n) (price_of o)
patch_lem none none = refl
patch_lem none (some q) = refl
patch_lem (some p) none = refl
patch_lem (some p) (some q) = ground arith

patch-calculate_diff :
    (oc nc : Table Category) (op np : Table Product) (k : ℕ)
    → patch (told k (calculate_diff oc nc op np)) (price_of (find k (map_of op)))
      ≡ price_of (find k (map_of np))
patch-calculate_diff oc nc op np k =
    ap (λ t. patch t (price_of (find k (map_of op)))) (told_lem oc nc op np k)
    ∙ sym (patch_lem (find k (map_of op)) (find k (map_of np)))

abbrev pub untold : Told
untold = record {
  added_entry = none;
  removed_entry = none;
  increase = none;
  decrease = none;
  moved = none;
  modified = none;
}

when_none : {B : Type 0} (c : Bool) (b : B) → when_some c b ≡ none → c ≡ false
when_none true b h = absurd (some-ne-none b h)
when_none false b h = refl

names_same :
    (p q : Product) → is_modified p q ≡ false → (p.name ≡ q.name) × (p.description ≡ q.description)
names_same p q h = (ground arith, ground arith)

prices_same :
    (p q : Product) → is_dearer p q ≡ false → is_decrease p q ≡ false → p.base_price ≡ q.base_price
prices_same p q h h' = eq_of_parts p.base_price q.base_price (ground arith)

available_same : (a b : Bool) → not (is_equal a b) ≡ false → a ≡ b
available_same true true h = refl
available_same true false h = absurd (ground arith)
available_same false true h = absurd (ground arith)
available_same false false h = refl

untold_same : (o n : Option Product) → compare_products o n ≡ untold → o ≡ n
untold_same none none h = refl
untold_same none (some q) h = absurd (some-ne-none _ (ap (λ t. t.added_entry) h))
untold_same (some p) none h = absurd (some-ne-none _ (ap (λ t. t.removed_entry) h))
untold_same (some p) (some q) h =
    let (name, description) =
      names_same p q (when_none (is_modified p q) (modification p q) (ap (λ t. t.modified) h)) in
    let price =
      prices_same p q (when_none (is_dearer p q) (price_change p q) (ap (λ t. t.increase) h))
        (when_none (is_decrease p q) (price_change p q) (ap (λ t. t.decrease) h)) in
    let available =
      available_same p.is_available q.is_available
        (when_none (is_moved p q) (availability_change p q) (ap (λ t. t.moved) h)) in
    λ i. some (record {
      name = name i;
      description = description i;
      base_price = price i;
      is_available = available i;
    })

not_equal_self : (a : Bool) → not (is_equal a a) ≡ false
not_equal_self true = refl
not_equal_self false = refl

same_untold : (o : Option Product) → compare_products o o ≡ untold
same_untold none = refl
same_untold (some p) =
    let modified : is_modified p p ≡ false = ground arith in
    let dearer : is_dearer p p ≡ false = ground arith in
    let cheaper : is_decrease p p ≡ false = ground arith in
    let moved = not_equal_self p.is_available in
    λ i. record {
      added_entry = none;
      removed_entry = none;
      increase = when_some (dearer i) (price_change p p);
      decrease = when_some (cheaper i) (price_change p p);
      moved = when_some (moved i) (availability_change p p);
      modified = when_some (modified i) (modification p p);
    }

untold_iff :
    (oc nc : Table Category) (op np : Table Product) (k : ℕ)
    → (told k (calculate_diff oc nc op np) ≡ untold) ↔ (find k (map_of op) ≡ find k (map_of np))
untold_iff oc nc op np k =
    let all = told_lem oc nc op np k in
    (
      λ h. untold_same (find k (map_of op)) (find k (map_of np)) (sym all ∙ h),
      λ e.
          all
          ∙ ap (λ o. compare_products o (find k (map_of np))) e
          ∙ same_untold (find k (map_of np)),
    )

-- For each product: its price in the new menu is got back from that in the old one by the lists of
-- removed and added products, price increases and price decreases of the diff; and the lists of
-- products of the diff name it exactly when it is not the same in both menus, that is, when one of
-- them alone has it, or its name, description, price or availability differs.
pub diff_tells :
    (oc nc : Table Category) (op np : Table Product) (k : ℕ)
    → (patch (told k (calculate_diff oc nc op np)) (price_of (find k (map_of op)))
        ≡ price_of (find k (map_of np)))
      × ((told k (calculate_diff oc nc op np) ≡ untold) ↔ (find k (map_of op) ≡ find k (map_of np)))
diff_tells oc nc op np k = (patch-calculate_diff oc nc op np k, untold_iff oc nc op np k)

-- ===== src/MenuDiff/Changes.antt =====
-- What `calculateDiff` of backend/src/services/menu/MenuDiff.service.ts compares and lists, and the
-- bodies of its loops.
use coffee_shop_saas_platfor.Prelude.{
  ℕ, Bool, true, false, not, Option, none, some, [], ◌∷◌, ◌++◌, ◌==◌, ◌&&◌, ◌||◌, if◌then◌else◌,
}
use coffee_shop_saas_platfor.Int.{ℤ, ◌-ℤ◌, leb_ℤ, ltb_ℤ}
use coffee_shop_saas_platfor.Table.{Table}

pub record Category : Type 0 where
  pub name : ℕ

pub record Product : Type 0 where
  pub name : ℕ
  pub description : ℕ
  pub base_price : ℤ
  pub is_available : Bool

-- What is pushed onto the lists of the result, each under the `uuid` that it names.
pub record Renamed : Type 0 where
  pub old_name : ℕ
  pub new_name : ℕ

pub record ProductEntry : Type 0 where
  pub name : ℕ
  pub base_price : ℤ

pub record PriceChange : Type 0 where
  pub name : ℕ
  pub old_price : ℤ
  pub new_price : ℤ
  pub difference : ℤ

pub record AvailabilityChange : Type 0 where
  pub name : ℕ
  pub was_available : Bool
  pub is_available : Bool

pub record Modification : Type 0 where
  pub name : Bool
  pub description : Bool

pub record Diff : Type 0 where
  pub added_categories : Table Category
  pub removed_categories : Table Category
  pub modified_categories : Table Renamed
  pub added_products : Table ProductEntry
  pub removed_products : Table ProductEntry
  pub modified_products : Table Modification
  pub price_increases : Table PriceChange
  pub price_decreases : Table PriceChange
  pub availability_changes : Table AvailabilityChange

abbrev pub no_diff : Diff
no_diff = record {
  added_categories = [];
  removed_categories = [];
  modified_categories = [];
  added_products = [];
  removed_products = [];
  modified_products = [];
  price_increases = [];
  price_decreases = [];
  availability_changes = [];
}

module _ {ℓ} {A : Type ℓ} where
  -- `map.set(key, value)`: a key that is there keeps its place.
  abbrev pub set_key : ℕ → A → Table A → Table A
  set_key k v [] = (k, v) ∷ []
  set_key k v ((j, w) ∷ t) = if k == j then (j, v) ∷ t else (j, w) ∷ set_key k v t

  abbrev pub set_all : Table A → Table A → Table A
  set_all [] m = m
  set_all ((k, v) ∷ t) m = set_all t (set_key k v m)

  -- `new Map(rows.map((r) => [r.uuid, r]))`
  unfoldable pub map_of : Table A → Table A
  map_of t = set_all t []

  -- `if (c) list.push({ uuid, ... })`
  abbrev pub push_if : Bool → ℕ → A → Table A → Table A
  push_if c k v t = if c then t ++ (k, v) ∷ [] else t

abbrev pub is_equal : Bool → Bool → Bool
is_equal true b = b
is_equal false b = not b

abbrev pub is_same_price : ℤ → ℤ → Bool
is_same_price a b = leb_ℤ a b && leb_ℤ b a

abbrev pub price_change : Product → Product → PriceChange
price_change old new = record {
  name = new.name;
  old_price = old.base_price;
  new_price = new.base_price;
  difference = new.base_price -ℤ old.base_price;
}

abbrev pub availability_change : Product → Product → AvailabilityChange
availability_change old new = record {
  name = new.name;
  was_available = old.is_available;
  is_available = new.is_available;
}

abbrev pub modification : Product → Product → Modification
modification old new = record {
  name = not (old.name == new.name);
  description = not (old.description == new.description);
}

abbrev pub entry_of : Product → ProductEntry
entry_of p = record { name = p.name; base_price = p.base_price }

-- The bodies of the four loops.
abbrev pub see_category : Option Category → ℕ → Category → Diff → Diff
see_category none k new d = record d { added_categories = d.added_categories ++ (k, new) ∷ [] }
see_category (some o) k new d = record d {
  modified_categories =
      push_if (not (o.name == new.name)) k (record { old_name = o.name; new_name = new.name })
        d.modified_categories;
}

abbrev pub miss_category : Option Category → ℕ → Category → Diff → Diff
miss_category none k old d = record d { removed_categories = d.removed_categories ++ (k, old) ∷ [] }
miss_category (some _) k old d = d

abbrev pub is_increase : Product → Product → Bool
is_increase o new = ltb_ℤ o.base_price new.base_price

abbrev pub is_decrease : Product → Product → Bool
is_decrease o new = not (is_same_price o.base_price new.base_price) && not (is_increase o new)

abbrev pub is_modified : Product → Product → Bool
is_modified o new = not (o.name == new.name) || not (o.description == new.description)

abbrev pub is_moved : Product → Product → Bool
is_moved o new = not (is_equal o.is_available new.is_available)

abbrev pub see_product : Option Product → ℕ → Product → Diff → Diff
see_product none k new d = record d { added_products = d.added_products ++ (k, entry_of new) ∷ [] }
see_product (some o) k new d = record d {
  price_increases =
      push_if (not (is_same_price o.base_price new.base_price) && is_increase o new) k
        (price_change o new) d.price_increases;
  price_decreases = push_if (is_decrease o new) k (price_change o new) d.price_decreases;
  availability_changes =
      push_if (is_moved o new) k (availability_change o new) d.availability_changes;
  modified_products = push_if (is_modified o new) k (modification o new) d.modified_products;
}

abbrev pub miss_product : Option Product → ℕ → Product → Diff → Diff
miss_product none k old d = record d {
  removed_products = d.removed_products ++ (k, entry_of old) ∷ [];
}
miss_product (some _) k old d = d

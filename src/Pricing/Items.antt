-- ===== src/Pricing/Items.antt =====
-- The items of an order as the menu prices them: the loops of `resolveItems`, in
-- backend/src/services/order/orderPricing.service.ts.
use coffee_shop_saas_platfor.Prelude.{ℕ, Bool, Option, none, some, List, [], ◌∷◌, ◌++◌, ◌&&◌}
use coffee_shop_saas_platfor.Int.{ℤ, pos, ◌+ℤ◌, ◌-ℤ◌, ◌*ℤ◌, leb_ℤ}
use coffee_shop_saas_platfor.Table.{Table, find}
use coffee_shop_saas_platfor.Action.{Result, ok, err, product_not_found, option_not_found}

-- A JavaScript number that is a whole number, or none.
abbrev pub Num : Type 0
Num = Option ℤ

abbrev pub add_num : Num → Num → Num
add_num (some a) (some b) = some (a +ℤ b)
add_num _ _ = none

abbrev pub sub_num : Num → Num → Num
sub_num (some a) (some b) = some (a -ℤ b)
sub_num _ _ = none

-- A falsy number.
abbrev pub is_zero : ℤ → Bool
is_zero a = leb_ℤ a (pos 0) && leb_ℤ (pos 0) a

pub record MenuOption : Type 0 where
  pub extra_cost : ℤ

pub record OptionGroup : Type 0 where
  pub options : Table MenuOption

pub record MenuProduct : Type 0 where
  pub base_price : ℤ
  pub option_groups : Option (List OptionGroup)

pub record MenuCategory : Type 0 where
  pub products : Option (Table MenuProduct)

pub record Menu : Type 0 where
  pub categories : Option (List MenuCategory)

pub record Modifier : Type 0 where
  pub option_key : ℕ
  pub quantity : Option ℤ

pub record OrderItemInput : Type 0 where
  pub product : ℕ
  pub quantity : ℤ
  pub modifiers : Option (List Modifier)

pub record SelectedOption : Type 0 where
  pub option_key : ℕ
  pub cost : ℤ

pub record ResolvedItem : Type 0 where
  pub product : ℕ
  pub quantity : ℤ
  pub base_price : ℤ
  pub options_cost : ℤ
  pub unit_price : ℤ
  pub subtotal : ℤ
  pub discount_amount : Num
  pub final_price : Num
  pub tax_amount : Num
  pub selected : List SelectedOption

abbrev pub list_or_empty {ℓ} : {A : Type ℓ} → Option (List A) → List A
list_or_empty none = []
list_or_empty (some xs) = xs

abbrev find_in : ℕ → List MenuCategory → Option MenuProduct
find_in k [] = none
find_in k (c ∷ cs) = elim (find k (list_or_empty c.products)) [
  | some p ↦ some p
  | none ↦ find_in k cs
]

unfoldable pub find_product : Menu → ℕ → Option MenuProduct
find_product menu k = find_in k (list_or_empty menu.categories)

abbrev pub all_options : List OptionGroup → Table MenuOption
all_options [] = []
all_options (g ∷ gs) = g.options ++ all_options gs

unfoldable pub option_of : MenuProduct → ℕ → Option MenuOption
option_of p k = find k (all_options (list_or_empty p.option_groups))

abbrev pub times_of : Modifier → ℤ
times_of m = elim m.quantity [ none ↦ pos 1 | some n ↦ n ]

-- The loop over the modifiers of an item, with what it has gathered.
unfoldable pub add_modifiers :
    MenuProduct → List Modifier → ℤ → List SelectedOption → Result (ℤ × List SelectedOption)
add_modifiers p [] cost selected = ok (cost, selected)
add_modifiers p (m ∷ ms) cost selected = elim (option_of p m.option_key) [
  | none ↦ err option_not_found
  | some o ↦
      let c = o.extra_cost *ℤ times_of m in
      add_modifiers p ms (cost +ℤ c)
        (selected ++ (record { option_key = m.option_key; cost = c }) ∷ [])
]

abbrev pub new_item : OrderItemInput → MenuProduct → ℤ → List SelectedOption → ResolvedItem
new_item input p options_cost selected =
    let unit_price = p.base_price +ℤ options_cost in
    record {
      product = input.product;
      quantity = input.quantity;
      base_price = p.base_price;
      options_cost = options_cost;
      unit_price = unit_price;
      subtotal = unit_price *ℤ input.quantity;
      discount_amount = some (pos 0);
      final_price = some (unit_price *ℤ input.quantity);
      tax_amount = some (pos 0);
      selected = selected;
    }

abbrev pub item_of :
    OrderItemInput → MenuProduct → Result (ℤ × List SelectedOption) → Result ResolvedItem
item_of input p (err e) = err e
item_of input p (ok (cost, selected)) = ok (new_item input p cost selected)

unfoldable pub resolve_item : Menu → OrderItemInput → Result ResolvedItem
resolve_item menu input = elim (find_product menu input.product) [
  | none ↦ err product_not_found
  | some p ↦ item_of input p (add_modifiers p (list_or_empty input.modifiers) (pos 0) [])
]

-- The loop over the items of the order.
unfoldable pub resolve_loop :
    Menu → List OrderItemInput → List ResolvedItem → ℤ → Result (List ResolvedItem × ℤ)
resolve_loop menu [] items subtotal = ok (items, subtotal)
resolve_loop menu (input ∷ inputs) items subtotal = elim (resolve_item menu input) [
  | err e ↦ err e
  | ok item ↦ resolve_loop menu inputs (items ++ item ∷ []) (subtotal +ℤ item.subtotal)
]

abbrev pub sum_subtotals : List ResolvedItem → ℤ
sum_subtotals [] = pos 0
sum_subtotals (i ∷ is) = i.subtotal +ℤ sum_subtotals is

abbrev pub sum_final : List ResolvedItem → Num
sum_final [] = some (pos 0)
sum_final (i ∷ is) = add_num i.final_price (sum_final is)

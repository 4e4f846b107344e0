-- ===== src/Pricing/Reference.antt =====
-- What an order costs by the menu, and that the loops of `resolveItems` compute it.
use coffee_shop_saas_platfor.Prelude.{
  ◌≡◌, refl, sym, ap, ◌∙◌, inl, inr, Option, none, some, List, [], ◌∷◌, ◌++◌, Option-cases,
}
use coffee_shop_saas_platfor.Int.{ℤ, pos, ◌+ℤ◌, ◌*ℤ◌, int_laws}
use coffee_shop_saas_platfor.Action.{Result, ok, err, Result-cases}
use coffee_shop_saas_platfor.Pricing.Items.{
  Menu, MenuProduct, MenuOption, Modifier, OrderItemInput, SelectedOption, ResolvedItem,
  list_or_empty, find_product, option_of, times_of, add_modifiers, item_of, resolve_item,
  resolve_loop,
}

abbrev add_some : Option ℤ → Option ℤ → Option ℤ
add_some none _ = none
add_some (some _) none = none
add_some (some a) (some b) = some (a +ℤ b)

abbrev cost_of : Option MenuOption → Modifier → Option ℤ
cost_of none m = none
cost_of (some o) m = some (o.extra_cost *ℤ times_of m)

-- The specification: what the menu asks for the options of an item, for the item and for the order.
unfoldable pub options_price : MenuProduct → List Modifier → Option ℤ
options_price p [] = some (pos 0)
options_price p (m ∷ ms) = add_some (cost_of (option_of p m.option_key) m) (options_price p ms)

abbrev item_total : ℤ → ℤ → Option ℤ → Option ℤ
item_total base quantity none = none
item_total base quantity (some c) = some ((base +ℤ c) *ℤ quantity)

unfoldable pub item_price : Menu → OrderItemInput → Option ℤ
item_price menu input = elim (find_product menu input.product) [
  | none ↦ none
  | some p ↦
      item_total p.base_price input.quantity (options_price p (list_or_empty input.modifiers))
]

unfoldable pub order_price : Menu → List OrderItemInput → Option ℤ
order_price menu [] = some (pos 0)
order_price menu (i ∷ is) = add_some (item_price menu i) (order_price menu is)

abbrev pub plus : ℤ → Option ℤ → Option ℤ
plus a none = none
plus a (some b) = some (a +ℤ b)

plus-plus : (a b : ℤ) (o : Option ℤ) → plus (a +ℤ b) o ≡ plus a (add_some (some b) o)
plus-plus a b none = refl
plus-plus a b (some c) = ap some (omega int_laws)

abbrev pub sum_part {ℓ} : {A : Type ℓ} → Result (ℤ × A) → Option ℤ
sum_part (ok r) = some r.0
sum_part (err _) = none

modifiers_lem :
    (p : MenuProduct) (ms : List Modifier) (cost : ℤ) (selected : List SelectedOption)
    → sum_part (add_modifiers p ms cost selected) ≡ plus cost (options_price p ms)
unfolding add_modifiers options_price
modifiers_lem p [] cost selected = ap some (omega int_laws)
modifiers_lem p (m ∷ ms) cost selected = elim (Option-cases (option_of p m.option_key)) [
  | inl e ↦ rw (add_modifiers, options_price, e) refl
  | inr (o, e) ↦
      let c = o.extra_cost *ℤ times_of m in
      let rest =
        modifiers_lem p ms (cost +ℤ c)
          (selected ++ (record { option_key = m.option_key; cost = c }) ∷ []) in
      rw (add_modifiers, options_price, e) (rest ∙ plus-plus cost c (options_price p ms))
]

abbrev subtotal_part : Result ResolvedItem → Option ℤ
subtotal_part (ok i) = some i.subtotal
subtotal_part (err _) = none

item_lem :
    (input : OrderItemInput) (p : MenuProduct) (r : Result (ℤ × List SelectedOption))
    → subtotal_part (item_of input p r) ≡ item_total p.base_price input.quantity (sum_part r)
item_lem input p (ok r) = refl
item_lem input p (err e) = refl

pub zero-plus : (o : Option ℤ) → plus (pos 0) o ≡ o
zero-plus none = refl
zero-plus (some a) = ap some (omega int_laws)

resolve_item-item_price :
    (menu : Menu) (input : OrderItemInput)
    → subtotal_part (resolve_item menu input) ≡ item_price menu input
unfolding resolve_item item_price
resolve_item-item_price menu input = elim (Option-cases (find_product menu input.product)) [
  | inl e ↦ rw (resolve_item, item_price, e) refl
  | inr (p, e) ↦
      let ms = list_or_empty input.modifiers in
      let cost = modifiers_lem p ms (pos 0) [] ∙ zero-plus (options_price p ms) in
      rw (resolve_item, item_price, e)
        (item_lem input p (add_modifiers p ms (pos 0) [])
          ∙ ap (item_total p.base_price input.quantity) cost)
]

abbrev pub total_part {ℓ} : {A : Type ℓ} → Result (A × ℤ) → Option ℤ
total_part (ok r) = some r.1
total_part (err _) = none

-- The subtotal that the loop over the items computes is what the menu asks for the order, on top of
-- the subtotal that it starts from; and it throws exactly where the menu gives the order no price,
-- since a product or an option is missing.
pub resolve_loop-order_price :
    (menu : Menu) (inputs : List OrderItemInput) (items : List ResolvedItem) (subtotal : ℤ)
    → total_part (resolve_loop menu inputs items subtotal) ≡ plus subtotal (order_price menu inputs)
unfolding resolve_loop order_price
resolve_loop-order_price menu [] items subtotal = ap some (omega int_laws)
resolve_loop-order_price menu (i ∷ is) items subtotal =
    let price = resolve_item-item_price menu i in
    elim (Result-cases (resolve_item menu i)) [
      | inl (item, e) ↦
          let rest =
            resolve_loop-order_price menu is (items ++ item ∷ []) (subtotal +ℤ item.subtotal) in
          let one : item_price menu i ≡ some item.subtotal = sym price ∙ ap subtotal_part e in
          rw (resolve_loop, order_price, e, one)
            (rest ∙ plus-plus subtotal item.subtotal (order_price menu is))
      | inr (x, e) ↦
          let one : item_price menu i ≡ none = sym price ∙ ap subtotal_part e in
          rw (resolve_loop, order_price, e, one) refl
    ]

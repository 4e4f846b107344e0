-- ===== src/Pricing/Outcome.antt =====
-- What `resolveItems` answers.
use coffee_shop_saas_platfor.Prelude.{
  ℕ, ◌≡◌, refl, sym, ap, ◌∙◌, inl, inr, Bool-cases, Option, some, List, [], ◌∷◌, ◌++◌, map, arith,
  All, Option-cases,
}
use mathlib.Core.Path.{subst}
use mathlib.Core.List.{append_assoc, append-nil}
use coffee_shop_saas_platfor.Int.{ℤ, pos, ◌+ℤ◌, ◌-ℤ◌, ltb_ℤ, int_laws, parts_of_eq}
use coffee_shop_saas_platfor.Action.{Result, ok, err, Result-cases, ◌>>=◌, >>=-ends}
use coffee_shop_saas_platfor.Pricing.{
  PricingDb, PricingResult, with_discount, with_tax, distribute_discount, distribute_tax,
  discounted, apply_promotions, calculate_tax, price_from, price_up, from_result, resolve_items,
}
use coffee_shop_saas_platfor.Pricing.Items.{
  Menu, MenuProduct, OrderItemInput, SelectedOption, ResolvedItem, Num, add_num, list_or_empty,
  find_product, add_modifiers, item_of, resolve_item, resolve_loop, sum_subtotals, sum_final,
}
use coffee_shop_saas_platfor.Pricing.Reference.{
  order_price, total_part, resolve_loop-order_price, zero-plus,
}

abbrev pub IsFresh : ResolvedItem → Type 0
IsFresh i = i.final_price ≡ some i.subtotal

IsFresh-item_of :
    (input : OrderItemInput) (p : MenuProduct) (r : Result (ℤ × List SelectedOption))
    (item : ResolvedItem)
    → item_of input p r ≡ ok item
    → IsFresh item × (item.product ≡ input.product)
IsFresh-item_of input p (ok r) item h = ground arith
IsFresh-item_of input p (err e) item h = ground arith

resolved_item :
    (menu : Menu) (input : OrderItemInput) (item : ResolvedItem)
    → resolve_item menu input ≡ ok item
    → IsFresh item × (item.product ≡ input.product)
unfolding resolve_item
resolved_item menu input item h = elim (Option-cases (find_product menu input.product)) [
  | inl e ↦ absurd (ground (arith, e))
  | inr (p, e) ↦
      IsFresh-item_of input p (add_modifiers p (list_or_empty input.modifiers) (pos 0) []) item
        (rw (resolve_item, e) at h)
]

abbrev pub product_of : ResolvedItem → ℕ
product_of i = i.product

abbrev pub ordered_of : OrderItemInput → ℕ
ordered_of i = i.product

append_one :
    (items : List ResolvedItem) (item : ResolvedItem)
    → All IsFresh items
    → IsFresh item
    → All IsFresh (items ++ item ∷ [])
      × (sum_subtotals (items ++ item ∷ []) ≡ sum_subtotals items +ℤ item.subtotal)
      × (map product_of (items ++ item ∷ []) ≡ map product_of items ++ item.product ∷ [])
append_one [] item h f = ((f, tt), omega int_laws, refl)
append_one (i ∷ is) item h f =
    let (fresh, sum, keys) = append_one is item h.1 f in
    ((h.0, fresh), omega (int_laws, parts_of_eq sum), ap (λ k. i.product ∷ k) keys)

-- What the loop ends with: items that sum up to the subtotal, one for each that was ordered.
abbrev pub Ends : List ℕ → Result (List ResolvedItem × ℤ) → Type 0
Ends keys (ok (items, total)) =
    All IsFresh items × (sum_subtotals items ≡ total) × (map product_of items ≡ keys)
Ends keys (err _) = Unit

pub loop_lem :
    (menu : Menu) (inputs : List OrderItemInput) (items : List ResolvedItem) (subtotal : ℤ)
    → All IsFresh items
    → sum_subtotals items ≡ subtotal
    → Ends (map product_of items ++ map ordered_of inputs) (resolve_loop menu inputs items subtotal)
unfolding resolve_loop
loop_lem menu [] items subtotal f e = (f, e, sym (append-nil (map product_of items)))
loop_lem menu (i ∷ is) items subtotal f e = elim (Result-cases (resolve_item menu i)) [
  | inl (item, r) ↦
      let (fresh, key) = resolved_item menu i item r in
      let (all, sum, keys) = append_one items item f fresh in
      let rest =
        loop_lem menu is (items ++ item ∷ []) (subtotal +ℤ item.subtotal) all
          (sum ∙ ap (λ x. x +ℤ item.subtotal) e) in
      let keys' : map product_of (items ++ item ∷ []) ++ map ordered_of is
          ≡ map product_of items ++ map ordered_of (i ∷ is) =
        rw (keys, key) (append_assoc (map product_of items) (i.product ∷ []) (map ordered_of is)) in
      rw (resolve_loop, r)
        (subst (λ k. Ends k (resolve_loop menu is (items ++ item ∷ []) (subtotal +ℤ item.subtotal)))
          keys' rest)
  | inr (x, r) ↦ rw (resolve_loop, r) tt
]

sum-discount :
    (share : ℤ → ℤ → ℤ → ℤ) (d w : ℤ) (items : List ResolvedItem)
    → (sum_subtotals (map (with_discount share d w) items) ≡ sum_subtotals items)
      × (map product_of (map (with_discount share d w) items) ≡ map product_of items)
sum-discount share d w [] = (refl, refl)
sum-discount share d w (i ∷ is) =
    let (sum, keys) = sum-discount share d w is in
    (ap (λ s. i.subtotal +ℤ s) sum, ap (λ k. i.product ∷ k) keys)

sum-tax :
    (share : ℤ → ℤ → ℤ → ℤ) (d w : Num) (items : List ResolvedItem)
    → (sum_subtotals (map (with_tax share d w) items) ≡ sum_subtotals items)
      × (map product_of (map (with_tax share d w) items) ≡ map product_of items)
sum-tax share d w [] = (refl, refl)
sum-tax share d w (i ∷ is) =
    let (sum, keys) = sum-tax share d w is in
    (ap (λ s. i.subtotal +ℤ s) sum, ap (λ k. i.product ∷ k) keys)

discounted_lem :
    (share : ℤ → ℤ → ℤ → ℤ) (d : ℤ) (items : List ResolvedItem)
    → (sum_subtotals (discounted share d items) ≡ sum_subtotals items)
      × (map product_of (discounted share d items) ≡ map product_of items)
unfolding discounted distribute_discount
discounted_lem share d items = elim (Bool-cases (ltb_ℤ (pos 0) d)) [
  | inl e ↦ rw (discounted, e) (sum-discount share d (sum_subtotals items) items)
  | inr e ↦ rw (discounted, e) (refl, refl)
]

module _ {Rate : Type 0} (times : ℤ → Rate → ℤ) (share : ℤ → ℤ → ℤ → ℤ) (over_hundred : Rate → Rate)
    (tenth nothing : Rate) (store : ℕ) where
  -- A price for the items with these keys: it adds up, and by the menu the order costs `price`.
  abbrev pub IsPriceOf : List ℕ → Option ℤ → PricingResult Rate → Type 0
  IsPriceOf keys price r =
      (price ≡ some r.subtotal)
      × (sum_subtotals r.items ≡ r.subtotal)
      × (map product_of r.items ≡ keys)
      × (r.total_amount
          ≡ add_num (add_num (some (r.subtotal -ℤ r.discount_amount)) r.tax_amount)
              (some r.service_charge))

  abbrev Answers : List ℕ → Option ℤ → Result (PricingResult Rate) → Type 0
  Answers keys price (ok r) = IsPriceOf keys price r
  Answers keys price (err _) = Unit

  price_from_lem :
      (items : List ResolvedItem) (subtotal discount : ℤ) (db : PricingDb Rate)
      → sum_subtotals items ≡ subtotal
      → Answers
          (map product_of items)
          (some subtotal)
          (price_from times share over_hundred tenth nothing store items subtotal discount db).0
  unfolding price_from distribute_tax
  price_from_lem items subtotal discount db e =
      let cut = discounted share discount items in
      let tax = calculate_tax times tenth nothing store cut db in
      let first = discounted_lem share discount items in
      let second = sum-tax share tax (sum_final cut) cut in
      (refl, second.0 ∙ first.0 ∙ e, second.1 ∙ first.1, refl)

  from_loop :
      (code : Option ℕ) (keys : List ℕ) (price : Option ℤ) (db : PricingDb Rate)
      (r : Result (List ResolvedItem × ℤ))
      → Ends keys r
      → total_part r ≡ price
      → Answers keys price
          ((from_result r >>= price_up times share over_hundred tenth nothing store code) db).0
  unfolding price_up
  from_loop code keys price db (ok (items, total)) (_, sum, k) e =
      subst
        (λ o.
          Answers keys o
            (price_up times share over_hundred tenth nothing store code (items, total) db).0)
        e
        (subst
          (λ x.
            Answers x (some total)
              (price_up times share over_hundred tenth nothing store code (items, total) db).0)
          k
          (>>=-ends (Answers (map product_of items) (some total))
            (apply_promotions times over_hundred code total)
            (price_from times share over_hundred tenth nothing store items total) db (λ e. tt)
            (λ d db'. price_from_lem items total d db' sum)))
  from_loop code keys price db (err x) h e = tt

  -- When `resolveItems` answers, the menu prices the order, at the subtotal of the answer; the items
  -- of the answer are the ordered ones, in their order, and their subtotals sum up to it; and the
  -- total is the subtotal less the discount, with the tax and the service charge.
  pub resolve_items-order_price :
      (menu : Menu) (inputs : List OrderItemInput) (code : Option ℕ) (db : PricingDb Rate)
      (r : PricingResult Rate)
      → (resolve_items times share over_hundred tenth nothing store menu inputs code db).0 ≡ ok r
      → IsPriceOf (map ordered_of inputs) (order_price menu inputs) r
  unfolding resolve_items
  resolve_items-order_price menu inputs code db r h =
      let price =
        resolve_loop-order_price menu inputs [] (pos 0) ∙ zero-plus (order_price menu inputs) in
      subst (Answers (map ordered_of inputs) (order_price menu inputs)) h (
        from_loop code (map ordered_of inputs) (order_price menu inputs) db
          (resolve_loop menu inputs [] (pos 0)) (loop_lem menu inputs [] (pos 0) tt refl) price)

-- ===== src/Pricing/Plain.antt =====
-- Orders without a promo code, and what becomes of the tax of an order that costs nothing.
use coffee_shop_saas_platfor.Prelude.{
  ℕ, ◌≡◌, refl, sym, ap, ◌∙◌, none, some, List, [], ◌∷◌, map, arith, All,
}
use mathlib.Core.Option.{some-injective}
use mathlib.Core.Path.{subst}
use coffee_shop_saas_platfor.Int.{ℤ, pos, ◌-ℤ◌}
use coffee_shop_saas_platfor.Action.{Result, ok, err, ◌>>=◌}
use coffee_shop_saas_platfor.Pricing.{
  PricingDb, PricingResult, with_tax, distribute_tax, discounted, apply_promotions, calculate_tax,
  calculate_service_charge, price_from, price_up, from_result, resolve_items, times_num,
  tax_rate_of,
}
use coffee_shop_saas_platfor.Pricing.Items.{
  Menu, OrderItemInput, ResolvedItem, add_num, resolve_loop, sum_subtotals, sum_final,
}
use coffee_shop_saas_platfor.Pricing.Reference.{
  order_price, total_part, resolve_loop-order_price, zero-plus,
}
use coffee_shop_saas_platfor.Pricing.Outcome.{IsFresh, Ends, ordered_of, loop_lem}

sum_fresh :
    (items : List ResolvedItem) → All IsFresh items → sum_final items ≡ some (sum_subtotals items)
sum_fresh [] h = refl
sum_fresh (i ∷ is) h = rw (h.0, sum_fresh is h.1) refl

abbrev pub HasNoTax : ResolvedItem → Type 0
HasNoTax i = i.tax_amount ≡ none

no_taxes :
    (share : ℤ → ℤ → ℤ → ℤ) (tax : ℤ) (items : List ResolvedItem)
    → All IsFresh items
    → All HasNoTax (map (with_tax share (some tax) (some (pos 0))) items)
no_taxes share tax [] h = tt
no_taxes share tax (i ∷ is) h = (rw (h.0) refl, no_taxes share tax is h.1)

module _ {Rate : Type 0} (times : ℤ → Rate → ℤ) (share : ℤ → ℤ → ℤ → ℤ) (over_hundred : Rate → Rate)
    (tenth nothing : Rate) (store : ℕ) (db : PricingDb Rate) where
  -- The answer for an order of this subtotal, without a promo code.
  abbrev pub IsPlain : ℤ → PricingResult Rate → Type 0
  IsPlain subtotal r =
      (r.subtotal ≡ subtotal)
      × (r.discount_amount ≡ pos 0)
      × (r.tax_amount ≡ some (times subtotal (tax_rate_of times tenth nothing store db)))
      × (r.service_charge ≡ calculate_service_charge times tenth nothing store subtotal db)

  plain_answer : List ResolvedItem → ℤ → PricingResult Rate
  plain_answer items subtotal =
      let tax = calculate_tax times tenth nothing store items db in
      let charge = calculate_service_charge times tenth nothing store subtotal db in
      record {
        items = distribute_tax share items tax;
        subtotal = subtotal;
        tax_amount = tax;
        discount_amount = pos 0;
        service_charge = charge;
        total_amount = add_num (add_num (some (subtotal -ℤ pos 0)) tax) (some charge);
      }

  plain_price :
      (items : List ResolvedItem) (subtotal : ℤ)
      → price_up times share over_hundred tenth nothing store none (items, subtotal) db
        ≡ (ok (plain_answer items subtotal), db)
  unfolding price_up price_from apply_promotions discounted plain_answer
  plain_price items subtotal = refl

  -- The loop ended well, since the menu prices the order.
  loop_ended :
      (keys : List ℕ) (price : ℤ) (r : Result (List ResolvedItem × ℤ))
      → Ends keys r
      → total_part r ≡ some price
      → (items : List ResolvedItem) × (r ≡ ok (items, price))
        × All IsFresh items
        × (sum_subtotals items ≡ price)
  loop_ended keys price (ok (items, total)) (fresh, sum, k) e =
      let same = some-injective _ _ e in (items, ap (λ t. ok (items, t)) same, fresh, sum ∙ same)
  loop_ended keys price (err x) h e = absurd (ground arith)

  ended :
      (menu : Menu) (inputs : List OrderItemInput) (price : ℤ)
      → order_price menu inputs ≡ some price
      → (items : List ResolvedItem) × (resolve_items times share over_hundred tenth nothing store
            menu inputs none db
          ≡ (ok (plain_answer items price), db))
        × All IsFresh items
        × (sum_subtotals items ≡ price)
  unfolding resolve_items
  ended menu inputs price h =
      let total =
        resolve_loop-order_price menu inputs [] (pos 0) ∙ zero-plus (order_price menu inputs) ∙ h in
      let (items, e, fresh, sum) =
        loop_ended (map ordered_of inputs) price (resolve_loop menu inputs [] (pos 0))
          (loop_lem menu inputs [] (pos 0) tt refl) total in
      (
        items,
        ap (λ r. (from_result r >>= price_up times share over_hundred tenth nothing store none) db)
              e
            ∙ plain_price items price,
        fresh,
        sum,
      )

  -- An order that the menu prices, without a promo code, is answered: there is no discount, and the tax
  -- and the service charge are computed from the price.
  pub resolve_items_answers :
      (menu : Menu) (inputs : List OrderItemInput) (price : ℤ)
      → order_price menu inputs ≡ some price
      → (r : PricingResult Rate) × (resolve_items times share over_hundred tenth nothing store menu
            inputs none db
          ≡ (ok r, db))
        × IsPlain price r
  unfolding plain_answer calculate_tax
  resolve_items_answers menu inputs price h =
      let (items, e, fresh, sum) = ended menu inputs price h in
      let base = sum_fresh items fresh ∙ ap some sum in
      (
        plain_answer items price,
        e,
        (
          refl,
          refl,
          ap (λ a. times_num times tenth nothing a (tax_rate_of times tenth nothing store db)) base,
          refl,
        ),
      )

  -- An order that costs nothing by the menu, without a promo code, is answered, with a tax for the
  -- whole; but the tax of each of its items is no number.
  pub free_items_without_tax :
      (menu : Menu) (inputs : List OrderItemInput)
      → order_price menu inputs ≡ some (pos 0)
      → (r : PricingResult Rate) × (resolve_items times share over_hundred tenth nothing store menu
            inputs none db
          ≡ (ok r, db))
        × IsPlain (pos 0) r
        × All HasNoTax r.items
  unfolding plain_answer calculate_tax distribute_tax
  free_items_without_tax menu inputs h =
      let (items, e, fresh, sum) = ended menu inputs (pos 0) h in
      let rate = tax_rate_of times tenth nothing store db in
      let base = sum_fresh items fresh ∙ ap some sum in
      (
        plain_answer items (pos 0),
        e,
        (refl, refl, ap (λ a. times_num times tenth nothing a rate) base, refl),
        subst
            (λ a.
              All HasNoTax (map (with_tax share (times_num times tenth nothing a rate) a) items))
            (sym base) (no_taxes share (times (pos 0) rate) items fresh),
      )

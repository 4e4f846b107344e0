-- ===== src/Pricing.antt =====
-- The price of an order: `OrderPricingService` of backend/src/services/order/orderPricing.service.ts.
-- Amounts are whole cents, held exactly. A rate is a value of a type that is a parameter; what
-- `Math.round` makes of a product or of a share in floating point are parameters too: `times a r` is
-- `Math.round(a * r)`, `share t p w` is `Math.round(t * (p / w))` for w other than zero, and
-- `over_hundred` divides by 100. Where JavaScript computes `NaN` or an infinity the model has `none`.
-- Names and descriptions are left out of the rows.
pub mod Items
pub mod Reference
pub mod Spread
pub mod Outcome
pub mod Plain
use coffee_shop_saas_platfor.Prelude.{
  ℕ, Bool, true, false, Option, none, some, List, [], map, leb, ◌==◌, ◌&&◌, not, if◌then◌else◌,
}
use coffee_shop_saas_platfor.Int.{ℤ, pos, ◌-ℤ◌, leb_ℤ, ltb_ℤ}
use coffee_shop_saas_platfor.Table.{Table, find, find_first}
use coffee_shop_saas_platfor.Action.{
  Result, minimum_not_met, Action, pure, gets, throw_if, ◌>>=◌, ◌>>◌,
}
use coffee_shop_saas_platfor.Pricing.Items.{
  Menu, Num, OrderItemInput, ResolvedItem, add_num, is_zero, resolve_loop, sub_num, sum_final,
  sum_subtotals,
}

-- `enum DiscountType`
pub data DiscountType : Type 0 where
  percentage fixed_amount free_trial_extension : DiscountType

module _ (Rate : Type 0) where
  -- `maxDiscountAmount` is no column of the schema's `Coupon`, so a row that the database answers has
  -- `none` there.
  pub record Coupon : Type 0 where
    pub code : ℕ
    pub is_active : Bool
    pub valid_from : Option ℕ
    pub valid_until : Option ℕ
    pub minimum_amount : Option ℤ
    pub discount_type : DiscountType
    pub percent_off : Rate
    pub max_discount_amount : Option ℤ
    pub amount_off : Option ℤ

  pub record StoreRates : Type 0 where
    pub tax_rate : Option Rate
    pub service_charge_rate : Option Rate

  pub record PricingDb : Type 0 where
    pub coupons : Table Coupon
    pub stores : Table StoreRates
    pub now : ℕ

  pub record PricingResult : Type 0 where
    pub items : List ResolvedItem
    pub subtotal : ℤ
    pub tax_amount : Num
    pub discount_amount : ℤ
    pub service_charge : ℤ
    pub total_amount : Num

abbrev is_before : Option ℕ → ℕ → Bool
is_before none now = false
is_before (some t) now = leb t now

abbrev is_open_until : Option ℕ → ℕ → Bool
is_open_until none now = true
is_open_until (some t) now = leb now t

module _ {Rate : Type 0} where
  abbrev pub is_valid_coupon : ℕ → ℕ → Coupon Rate → Bool
  is_valid_coupon code now c =
      c.code == code && c.is_active && is_before c.valid_from now && is_open_until c.valid_until now

module _ {Rate : Type 0} (times : ℤ → Rate → ℤ) (over_hundred : Rate → Rate) where
  abbrev pub is_below_minimum : Coupon Rate → ℤ → Bool
  is_below_minimum c subtotal = elim c.minimum_amount [
    | none ↦ false
    | some m ↦ not (is_zero m) && ltb_ℤ subtotal m
  ]

  abbrev cap : Option ℤ → ℤ → ℤ
  cap none d = d
  cap (some m) d = if is_zero m then d else if leb_ℤ d m then d else m

  abbrev amount_or_zero : Option ℤ → ℤ
  amount_or_zero none = pos 0
  amount_or_zero (some a) = a

  abbrev discount_for : DiscountType → Coupon Rate → ℤ → ℤ
  discount_for percentage c subtotal =
      cap c.max_discount_amount (times subtotal (over_hundred c.percent_off))
  discount_for fixed_amount c subtotal = amount_or_zero c.amount_off
  discount_for free_trial_extension c subtotal = pos 0

  abbrev pub promo_discount : Coupon Rate → ℤ → ℤ
  promo_discount c subtotal = discount_for c.discount_type c subtotal

  unfoldable pub apply_promotions : Option ℕ → ℤ → Action (PricingDb Rate) ℤ
  apply_promotions none subtotal = pure (pos 0)
  apply_promotions (some code) subtotal = do
    found ← gets (λ db. find_first (is_valid_coupon code db.now) db.coupons)
    elim found [
      | none ↦ pure (pos 0)
      | some (_, c) ↦
          throw_if (is_below_minimum c subtotal) minimum_not_met >> pure (promo_discount c subtotal)
    ]

module _ (share : ℤ → ℤ → ℤ → ℤ) where
  -- `Math.round(total * (part / whole))`
  abbrev pub portion : ℤ → ℤ → ℤ → Num
  portion total part whole = if is_zero whole then none else some (share total part whole)

  abbrev pub portion_num : Num → Num → Num → Num
  portion_num (some total) (some part) (some whole) = portion total part whole
  portion_num _ _ _ = none

  abbrev pub with_discount : ℤ → ℤ → ResolvedItem → ResolvedItem
  with_discount total whole i =
      let d = portion total i.subtotal whole in
      record i { discount_amount = d; final_price = sub_num (some i.subtotal) d }

  unfoldable pub distribute_discount : List ResolvedItem → ℤ → List ResolvedItem
  distribute_discount items total = map (with_discount total (sum_subtotals items)) items

  abbrev pub with_tax : Num → Num → ResolvedItem → ResolvedItem
  with_tax total whole i = record i { tax_amount = portion_num total i.final_price whole }

  unfoldable pub distribute_tax : List ResolvedItem → Num → List ResolvedItem
  distribute_tax items total = map (with_tax total (sum_final items)) items

  unfoldable pub discounted : ℤ → List ResolvedItem → List ResolvedItem
  discounted d items = if ltb_ℤ (pos 0) d then distribute_discount items d else items

abbrev pub from_result {ℓ κ} : {S : Type ℓ} {A : Type κ} → Result A → Action S A
from_result r s = (r, s)

module _ {Rate : Type 0} (times : ℤ → Rate → ℤ) (tenth nothing : Rate) where
  abbrev rate_or : Rate → Option Rate → Rate
  rate_or r none = r
  rate_or _ (some r) = r

  abbrev times_num : Num → Rate → Num
  times_num none r = none
  times_num (some a) r = some (times a r)

  abbrev tax_rate_of : ℕ → PricingDb Rate → Rate
  tax_rate_of store db = elim (find store db.stores) [
    | none ↦ tenth
    | some s ↦ rate_or tenth s.tax_rate
  ]

  abbrev charge_rate_of : ℕ → PricingDb Rate → Rate
  charge_rate_of store db = elim (find store db.stores) [
    | none ↦ nothing
    | some s ↦ rate_or nothing s.service_charge_rate
  ]

  unfoldable pub calculate_tax : ℕ → List ResolvedItem → PricingDb Rate → Num
  calculate_tax store items db = times_num (sum_final items) (tax_rate_of store db)

  unfoldable pub calculate_service_charge : ℕ → ℤ → PricingDb Rate → ℤ
  calculate_service_charge store subtotal db = times subtotal (charge_rate_of store db)

module _ {Rate : Type 0} (times : ℤ → Rate → ℤ) (share : ℤ → ℤ → ℤ → ℤ) (over_hundred : Rate → Rate)
    (tenth nothing : Rate) where
  -- What follows the promotions.
  unfoldable pub price_from :
      ℕ → List ResolvedItem → ℤ → ℤ → Action (PricingDb Rate) (PricingResult Rate)
  price_from store items subtotal discount = do
    let cut = discounted share discount items
    tax ← gets (calculate_tax times tenth nothing store cut)
    charge ← gets (calculate_service_charge times tenth nothing store subtotal)
    pure (record {
      items = distribute_tax share cut tax;
      subtotal = subtotal;
      tax_amount = tax;
      discount_amount = discount;
      service_charge = charge;
      total_amount = add_num (add_num (some (subtotal -ℤ discount)) tax) (some charge);
    })

  -- What follows the loop.
  unfoldable pub price_up :
      ℕ → Option ℕ → List ResolvedItem × ℤ → Action (PricingDb Rate) (PricingResult Rate)
  price_up store promo_code (items, subtotal) =
      apply_promotions times over_hundred promo_code subtotal >>= price_from store items subtotal

  unfoldable pub resolve_items :
      ℕ → Menu → List OrderItemInput → Option ℕ → Action (PricingDb Rate) (PricingResult Rate)
  resolve_items store menu inputs promo_code = do
    resolved ← from_result (resolve_loop menu inputs [] (pos 0))
    price_up store promo_code resolved

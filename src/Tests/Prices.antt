-- ===== src/Tests/Prices.antt =====
-- Prices of orders.
use coffee_shop_saas_platfor.Prelude.{
  ℕ, ◌*◌, ◌+◌, ◌/◌, ◌<◌, ◌≡◌, refl, none, some, List, [], ◌∷◌, arith,
}
use native.Mathlib.Nat.{div-mul-le_self, lt-div-mul-add}
use coffee_shop_saas_platfor.Int.{ℤ, pos, pos_part, ◌*ℤ◌, ◌+ℤ◌}
use coffee_shop_saas_platfor.Pricing.{PricingDb, distribute_discount}
use coffee_shop_saas_platfor.Pricing.Items.{
  Menu, OrderItemInput, ResolvedItem, new_item, resolve_loop,
}
use coffee_shop_saas_platfor.Pricing.Reference.{
  order_price, total_part, resolve_loop-order_price, plus,
}
use coffee_shop_saas_platfor.Pricing.Spread.{IsShare, sum_discounts, discount_spread}

abbrev pub menu : Menu
menu = record {
  categories = some (
      record {
        products = some (
            (
              1,
              record {
                base_price = pos 400;
                option_groups =
                    some (record { options = (8, record { extra_cost = pos 50 }) ∷ [] } ∷ []);
              },
            )
            ∷ (2, record { base_price = pos 0; option_groups = none })
            ∷ []);
      }
      ∷ []);
}

abbrev pub two_lattes : OrderItemInput
two_lattes = record {
  product = 1;
  quantity = pos 2;
  modifiers = some (record { option_key = 8; quantity = none } ∷ []);
}

abbrev water : OrderItemInput
water = record { product = 2; quantity = pos 1; modifiers = none }

resolve_loop-order_price_example :
    total_part (resolve_loop menu (two_lattes ∷ water ∷ []) [] (pos 0))
    ≡ plus (pos 0) (order_price menu (two_lattes ∷ water ∷ []))
resolve_loop-order_price_example =
    resolve_loop-order_price menu (two_lattes ∷ water ∷ []) [] (pos 0)

-- The share, rounded to the nearest number, a half upwards.
abbrev pub share : ℤ → ℤ → ℤ → ℤ
share t p w = pos ((2 * (pos_part t * pos_part p) + pos_part w) / (2 * pos_part w))

share-IsShare : IsShare share
share-IsShare t p w small le full =
    let q = (2 * (t * p) + w) / (2 * w) in
    let below = div-mul-le_self (2 * (t * p) + w) (2 * w) in
    let above = lt-div-mul-add {a = 2 * (t * p) + w} {b = 2 * w} (omega (arith, full)) in
    (q, refl, omega (arith, below, full), omega (arith, above, full))

abbrev items : List ResolvedItem
items =
    new_item two_lattes (record { base_price = pos 400; option_groups = none }) (pos 50) []
    ∷ new_item water (record { base_price = pos 0; option_groups = none }) (pos 0) []
    ∷ []

discount_spread_example :
    (s : ℕ) × (sum_discounts (distribute_discount share items (pos 100)) ≡ some (pos s))
    × (s < 102)
    × (100 < s + 2)
unfolding ◌*ℤ◌ ◌+ℤ◌
discount_spread_example =
    discount_spread share items 100 share-IsShare (omega arith, (omega arith, tt)) (omega arith)
      (omega arith)

-- A rate in hundredths.
abbrev pub times : ℤ → ℕ → ℤ
times a r = pos (pos_part a * r / 100)

abbrev pub prices_db : PricingDb ℕ
prices_db = record { coupons = []; stores = []; now = 0 }

abbrev pub hundredth : ℕ → ℕ
hundredth r = r

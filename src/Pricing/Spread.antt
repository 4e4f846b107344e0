-- ===== src/Pricing/Spread.antt =====
-- How `distributeDiscount` spreads a discount over the items.
use coffee_shop_saas_platfor.Prelude.{
  ℕ, suc, ◌+◌, ◌*◌, ◌≤◌, ◌<◌, ◌≡◌, refl, sym, ap, ◌∙◌, some, List, [], ◌∷◌, map, arith, length, All,
}
use mathlib.Core.Path.{subst}
use native.Mathlib.Nat.{mul-le-mul_left, lt_of_mul-lt-mul_right}
use coffee_shop_saas_platfor.Int.{
  ℤ, pos, negsuc, pos_part, ◌+ℤ◌, ◌-ℤ◌, ◌≤ℤ◌, ◌<ℤ◌, int_laws, parts_of_eq,
}
use coffee_shop_saas_platfor.Pricing.{portion, with_discount, distribute_discount}
use coffee_shop_saas_platfor.Pricing.Items.{Num, add_num, ResolvedItem, sum_subtotals}

-- 2 ^ 50: up to here the error of the two floating-point operations is below a half.
abbrev pub exact_limit : ℕ
exact_limit = 1125899906842624

-- What IEEE arithmetic and `Math.round` give: a share is a whole number less than one away from the
-- exact share.
abbrev pub IsShare : (ℤ → ℤ → ℤ → ℤ) → Type 0
IsShare share =
    (t p w : ℕ)
    → t ≤ exact_limit
    → p ≤ w
    → 0 < w
    → (s : ℕ) × (share (pos t) (pos p) (pos w) ≡ pos s) × (s * w < t * p + w) × (t * p < s * w + w)

abbrev pub sum_discounts : List ResolvedItem → Num
sum_discounts [] = some (pos 0)
sum_discounts (i ∷ is) = add_num i.discount_amount (sum_discounts is)

abbrev IsPriced : ResolvedItem → Type 0
IsPriced i = pos 0 ≤ℤ i.subtotal

pos_of_nonneg : (a : ℤ) → pos 0 ≤ℤ a → a ≡ pos (pos_part a)
pos_of_nonneg (pos n) h = refl
pos_of_nonneg (negsuc n) h = absurd (omega (arith, h))

add_pos : (a b : ℕ) → pos a +ℤ pos b ≡ pos (a + b)
add_pos a b = omega int_laws

sum_nonneg : (items : List ResolvedItem) → All IsPriced items → pos 0 ≤ℤ sum_subtotals items
sum_nonneg [] h = omega arith
sum_nonneg (i ∷ is) h = omega (int_laws, h.0, sum_nonneg is h.1)

add_nonneg : (a b : ℤ) → pos 0 ≤ℤ a → pos 0 ≤ℤ b → pos_part (a +ℤ b) ≡ pos_part a + pos_part b
unfolding ◌+ℤ◌
add_nonneg a b ha hb = ground arith

sum_parts :
    (i : ResolvedItem) (is : List ResolvedItem)
    → IsPriced i
    → All IsPriced is
    → pos_part (sum_subtotals (i ∷ is)) ≡ pos_part i.subtotal + pos_part (sum_subtotals is)
sum_parts i is h hs = add_nonneg i.subtotal (sum_subtotals is) h (sum_nonneg is hs)

portion_whole :
    (share : ℤ → ℤ → ℤ → ℤ) (t a : ℤ) (w : ℕ)
    → 0 < w
    → portion share t a (pos w) ≡ some (share t a (pos w))
portion_whole share t a w full = ground arith

abbrev HasFinal : ResolvedItem → Type 0
HasFinal i = (f : ℤ) × (i.final_price ≡ some f) × (pos 0 ≤ℤ f) × (f ≤ℤ i.subtotal)

module _ (share : ℤ → ℤ → ℤ → ℤ) (near : IsShare share) (t w : ℕ) (small : t ≤ exact_limit)
    (full : 0 < w) where
  portion_near :
      (a : ℤ)
      → pos 0 ≤ℤ a
      → a ≤ℤ pos w
      → (s : ℕ) × (portion share (pos t) a (pos w) ≡ some (pos s))
        × (s * w < t * pos_part a + w)
        × (t * pos_part a < s * w + w)
  portion_near a h le =
      let e = pos_of_nonneg a h in
      let (s, eq, above, below) =
        near t (pos_part a) w small (omega (arith, parts_of_eq e, le)) full in
      let one : portion share (pos t) a (pos w) ≡ some (pos s) =
        portion_whole share (pos t) a w full ∙ ap some (ap (λ p. share (pos t) p (pos w)) e ∙ eq) in
      (s, one, above, below)

  abbrev IsSpread : List ResolvedItem → ℕ → Type 0
  IsSpread items s =
      (s * w + length items ≤ t * pos_part (sum_subtotals items) + length items * w)
      × (t * pos_part (sum_subtotals items) + length items ≤ s * w + length items * w)

  spread_lem :
      (items : List ResolvedItem)
      → All IsPriced items
      → sum_subtotals items ≤ℤ pos w
      → (s : ℕ) × (sum_discounts (map (with_discount share (pos t) (pos w)) items) ≡ some (pos s))
        × IsSpread items s
  spread_lem [] h le = (0, refl, (omega arith, omega arith))
  spread_lem (i ∷ is) h le =
      let rest = sum_nonneg is h.1 in
      let parts = sum_parts i is h.0 h.1 in
      let (s, e, above, below) = portion_near i.subtotal h.0 (omega (int_laws, le, rest)) in
      let (s', e', (above', below')) = spread_lem is h.1 (omega (int_laws, le, h.0)) in
      (
        s + s',
        rw (e, e') (ap some (add_pos s s')),
        (rw parts (omega (arith, above, above')), rw parts (omega (arith, below, below'))),
      )

  final_within :
      (i : ResolvedItem)
      → IsPriced i
      → i.subtotal ≤ℤ pos w
      → t ≤ w
      → HasFinal (with_discount share (pos t) (pos w) i)
  final_within i h le most =
      let p = pos_part i.subtotal in
      let (s, e, above, below) = portion_near i.subtotal h le in
      let product : p * t ≤ p * w = mul-le-mul_left p most in
      let less : s < suc p = lt_of_mul-lt-mul_right w (omega (arith, above, product)) in
      (
        i.subtotal -ℤ pos s,
        rw e refl,
        omega (int_laws, less, parts_of_eq (pos_of_nonneg i.subtotal h)),
        omega int_laws,
      )

  finals_within :
      (items : List ResolvedItem)
      → All IsPriced items
      → sum_subtotals items ≤ℤ pos w
      → t ≤ w
      → All HasFinal (map (with_discount share (pos t) (pos w)) items)
  finals_within [] h le most = tt
  finals_within (i ∷ is) h le most =
      let rest = sum_nonneg is h.1 in
      (
        final_within i h.0 (omega (int_laws, le, rest)) most,
        finals_within is h.1 (omega (int_laws, le, h.0)) most,
      )

length_pos : (items : List ResolvedItem) → pos 0 <ℤ sum_subtotals items → 0 < length items
length_pos [] h = absurd (omega (arith, h))
length_pos (i ∷ is) h = omega arith

-- The items of an order, none of which has a negative subtotal and not all of which are free, and a
-- discount of at most 2 ^ 50, where `share` is less than one away from the exact share: what
-- `distributeDiscount` takes off the items sums up to a number that is not negative and differs from
-- the discount by less than the number of items.
pub discount_spread :
    (share : ℤ → ℤ → ℤ → ℤ) (items : List ResolvedItem) (discount : ℕ)
    → IsShare share
    → All IsPriced items
    → pos 0 <ℤ sum_subtotals items
    → discount ≤ exact_limit
    → (s : ℕ) × (sum_discounts (distribute_discount share items (pos discount)) ≡ some (pos s))
      × (s < discount + length items)
      × (discount < s + length items)
unfolding distribute_discount
discount_spread share items discount near h full small =
    let w = pos_part (sum_subtotals items) in
    let e = pos_of_nonneg (sum_subtotals items) (sum_nonneg items h) in
    let some_item = length_pos items full in
    let (s, sum, (above, below)) =
      spread_lem share near discount w small (omega (arith, full)) items h
        (omega (arith, parts_of_eq e)) in
    (
      s,
      ap (λ x. sum_discounts (map (with_discount share (pos discount) x) items)) e ∙ sum,
      lt_of_mul-lt-mul_right w (omega (arith, above, some_item)),
      lt_of_mul-lt-mul_right w (omega (arith, below, some_item)),
    )

-- If besides the discount is no more than the subtotal of the order, then each item has a final price,
-- which is at least zero and at most its subtotal.
pub discount_final :
    (share : ℤ → ℤ → ℤ → ℤ) (items : List ResolvedItem) (discount : ℕ)
    → IsShare share
    → All IsPriced items
    → pos 0 <ℤ sum_subtotals items
    → discount ≤ exact_limit
    → pos discount ≤ℤ sum_subtotals items
    → All HasFinal (distribute_discount share items (pos discount))
unfolding distribute_discount
discount_final share items discount near h full small most =
    let w = pos_part (sum_subtotals items) in
    let e = pos_of_nonneg (sum_subtotals items) (sum_nonneg items h) in
    subst (λ x. All HasFinal (map (with_discount share (pos discount) x) items)) (sym e)
      (finals_within share near discount w small (omega (arith, full)) items h
        (omega (arith, parts_of_eq e)) (omega (arith, most, parts_of_eq e)))

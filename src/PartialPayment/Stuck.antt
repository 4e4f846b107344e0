-- ===== src/PartialPayment/Stuck.antt =====
-- When an order can be paid by `createPartial` at all.
use coffee_shop_saas_platfor.Prelude.{
  ℕ, suc, ◌≡◌, ◌↔◌, ==_refl, refl, sym, ap, ◌∙◌, inl, inr, Bool, true, false, none, some, [], ◌∷◌,
  arith,
}
use mathlib.Core.Option.{some-ne-none}
use coffee_shop_saas_platfor.Int.{
  ℤ, pos, ◌+ℤ◌, ◌-ℤ◌, ◌<ℤ◌, leb_ℤ, ltb_ℤ, int_laws, parts_of_eq, eq_of_parts, ltb→le_ℤ, leb→lt_ℤ,
  leb→le_ℤ, le→leb_ℤ, lt→leb_ℤ, le→ltb_ℤ,
}
use coffee_shop_saas_platfor.Table.{
  Table, find, find_first, find_many, create, sum_of, find_first-create,
}
use coffee_shop_saas_platfor.Action.{ok, err, Error, validation_error, Result-cases}
use coffee_shop_saas_platfor.PartialPayment.{
  CounterOrder, Counter, is_of_order, paid_amount, amount_of, partial_payment, create_partial,
}

find_many-none :
    {A : Type 0} (q : A → Bool) (t : Table A) → find_first q t ≡ none → find_many q t ≡ []
find_many-none q [] h = refl
find_many-none q (e ∷ t) h = ground (arith, h, find_many-none q t)

nothing_paid :
    (k : ℕ) (s : Counter) → find_first (is_of_order k) s.payments ≡ none → paid_amount k s ≡ pos 0
unfolding paid_amount
nothing_paid k s h = ap (sum_of amount_of) (find_many-none (is_of_order k) s.payments h)

passed :
    (k : ℕ) (amount : ℤ) (s : Counter) (o : CounterOrder) (payment : ℕ)
    → find k s.orders ≡ some o
    → (create_partial k amount s).0 ≡ ok payment
    → (ltb_ℤ (o.total_amount -ℤ paid_amount k s) amount ≡ false)
      × (find_first (is_of_order k) s.payments ≡ none)
      × (leb_ℤ o.total_amount (paid_amount k s +ℤ amount) ≡ true)
      × (leb_ℤ amount (pos 0) ≡ false)
unfolding create_partial
passed k amount s o payment e h = (ground arith, ground arith, ground arith, ground arith)

paid_in_full :
    (k : ℕ) (amount : ℤ) (s : Counter) (o : CounterOrder)
    → find k s.orders ≡ some o
    → find_first (is_of_order k) s.payments ≡ none
    → ltb_ℤ (o.total_amount -ℤ paid_amount k s) amount ≡ false
    → leb_ℤ amount (pos 0) ≡ false
    → leb_ℤ o.total_amount (paid_amount k s +ℤ amount) ≡ true
    → (create_partial k amount s).0 ≡ ok s.next_key
unfolding create_partial
paid_in_full k amount s o e free below positive full = ground arith

-- For an order of the table: `createPartial` ends well exactly when the order has no payment yet and
-- the amount is the whole total of the order, and is positive.
pub in_full_iff :
    (k : ℕ) (amount : ℤ) (s : Counter) (o : CounterOrder)
    → find k s.orders ≡ some o
    → ((payment : ℕ) × ((create_partial k amount s).0 ≡ ok payment)) ↔ (
        (find_first (is_of_order k) s.payments ≡ none)
        × (amount ≡ o.total_amount)
        × (pos 0 <ℤ amount))
in_full_iff k amount s o e = (
  λ (payment, h).
      let (below, free, full, positive) = passed k amount s o payment e h in
      let paid = parts_of_eq (nothing_paid k s free) in
      let le = ltb→le_ℤ (o.total_amount -ℤ paid_amount k s) amount below in
      let ge = leb→le_ℤ o.total_amount (paid_amount k s +ℤ amount) full in
      (
        free,
        eq_of_parts amount o.total_amount (omega (int_laws, paid, le, ge)),
        leb→lt_ℤ amount (pos 0) positive,
      ),
  λ (free, same, positive).
      let paid = parts_of_eq (nothing_paid k s free) in
      let same' = parts_of_eq same in
      (
        s.next_key,
        paid_in_full k amount s o e free
            (le→ltb_ℤ (o.total_amount -ℤ paid_amount k s) amount (omega (int_laws, paid, same')))
            (lt→leb_ℤ amount (pos 0) positive)
            (le→leb_ℤ o.total_amount (paid_amount k s +ℤ amount) (omega (int_laws, paid, same'))),
      ),
)

part_written :
    (k : ℕ) (amount : ℤ) (s : Counter) (o : CounterOrder)
    → find k s.orders ≡ some o
    → find_first (is_of_order k) s.payments ≡ none
    → ltb_ℤ (o.total_amount -ℤ paid_amount k s) amount ≡ false
    → leb_ℤ amount (pos 0) ≡ false
    → leb_ℤ o.total_amount (paid_amount k s +ℤ amount) ≡ false
    → create_partial k amount s ≡ (
      err validation_error,
      record s {
        payments = create s.next_key (partial_payment k amount) s.payments;
        next_key = suc s.next_key;
      },
    )
unfolding create_partial
part_written k amount s o e free below positive short = ground arith

-- An order of the table with no payment, and an amount that is positive and less than its total:
-- `createPartial` throws, and the order stays as it is; but the payment has been written, as completed.
-- From then on `createPartial` throws for this order, whatever the amount.
pub part_is_stuck :
    (k : ℕ) (amount next : ℤ) (s : Counter) (o : CounterOrder)
    → find k s.orders ≡ some o
    → find_first (is_of_order k) s.payments ≡ none
    → pos 0 <ℤ amount
    → amount <ℤ o.total_amount
    → let (answer, s') = create_partial k amount s in
      (answer ≡ err validation_error)
      × (s'.orders ≡ s.orders)
      × (s'.payments ≡ create s.next_key (partial_payment k amount) s.payments)
      × ((e : Error) × ((create_partial k next s').0 ≡ err e))
part_is_stuck k amount next s o e free positive short =
    let paid = parts_of_eq (nothing_paid k s free) in
    let written =
      part_written k amount s o e free
        (le→ltb_ℤ (o.total_amount -ℤ paid_amount k s) amount (omega (int_laws, paid, short)))
        (lt→leb_ℤ amount (pos 0) positive)
        (lt→leb_ℤ o.total_amount (paid_amount k s +ℤ amount) (omega (int_laws, paid, short))) in
    let s' : Counter = record s {
      payments = create s.next_key (partial_payment k amount) s.payments;
      next_key = suc s.next_key;
    } in
    let taken =
      find_first-create (is_of_order k) s.next_key (partial_payment k amount) s.payments free
        (==_refl k) in
    rw written (
      refl,
      refl,
      refl,
      elim (Result-cases (create_partial k next s').0) [
        | inl (payment, h) ↦
            absurd (some-ne-none _ (sym taken ∙ (passed k next s' o payment e h).1))
        | inr wrong ↦ wrong
      ],
    )

-- ===== src/Domain/CashierPaymentStateMachine.antt =====
-- backend/src/domain/payment/CashierPaymentStateMachine.ts.
use coffee_shop_saas_platfor.Prelude.{
  ◌≡◌, refl, Bool, true, false, not, List, [], ◌∷◌, arith, ◌||◌, ℕ, ◌==◌, ◌⊎◌, inl, inr,
}
use coffee_shop_saas_platfor.Action.{Action, throw_if, invalid_payment_transition}
use coffee_shop_saas_platfor.Domain.Reach.{Reach, here, next}

pub data CashierPaymentState : Type 0 where
  declared verified disputed voided reconciled : CashierPaymentState

abbrev pub code : CashierPaymentState → ℕ
code declared = 0
code verified = 1
code disputed = 2
code voided = 3
code reconciled = 4

unfoldable pub transitions : CashierPaymentState → List CashierPaymentState
transitions declared = verified ∷ disputed ∷ voided ∷ []
transitions verified = reconciled ∷ disputed ∷ []
transitions disputed = verified ∷ voided ∷ reconciled ∷ []
transitions voided = []
transitions reconciled = []

abbrev pub includes : CashierPaymentState → List CashierPaymentState → Bool
includes s [] = false
includes s (t ∷ ts) = code s == code t || includes s ts

unfoldable pub can_transition : CashierPaymentState → CashierPaymentState → Bool
unfolding transitions
can_transition from to = includes to (transitions from)

unfoldable pub assert_transition {ℓ} :
    {S : Type ℓ} → CashierPaymentState → CashierPaymentState → Action S (Unit {0})
unfolding can_transition
assert_transition from to = throw_if (not (can_transition from to)) invalid_payment_transition

pub is_terminal : CashierPaymentState → Bool
is_terminal s = includes s (voided ∷ reconciled ∷ [])

terminal_step : (s t : CashierPaymentState) → is_terminal s ≡ true → can_transition s t ≡ false
unfolding is_terminal can_transition
terminal_step s t h = ground arith

absorbs : {s t : CashierPaymentState} → is_terminal s ≡ true → Reach can_transition s t → t ≡ s
absorbs h here = refl
absorbs {s} h (next {t = t} {u = u} r e) =
    let same : t ≡ s = absorbs h r in cc (terminal_step t u (rw same h))

-- A voided or reconciled cashier payment stays as it is on every path, and every other state has a
-- path of one transition to RECONCILED or of two.
pub terminal_exactly :
    (s : CashierPaymentState)
    → (is_terminal s ≡ true) × ((t : CashierPaymentState) → Reach can_transition s t → t ≡ s)
      ⊎ (is_terminal s ≡ false) × Reach can_transition s reconciled
unfolding is_terminal can_transition
terminal_exactly declared = inr (refl, next {t = verified} (next here refl) refl)
terminal_exactly verified = inr (refl, next here refl)
terminal_exactly disputed = inr (refl, next here refl)
terminal_exactly voided = inl (refl, λ t r. absorbs refl r)
terminal_exactly reconciled = inl (refl, λ t r. absorbs refl r)

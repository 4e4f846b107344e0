-- ===== src/Domain/RefundStateMachine.antt =====
-- backend/src/domain/payment/RefundStateMachine.ts.
use coffee_shop_saas_platfor.Prelude.{
  ◌≡◌, refl, ◌↔◌, Bool, true, false, not, Option, none, some, List, [], ◌∷◌, arith, ◌||◌, ℕ, ◌<◌,
  ◌≢◌, ◌⊎◌, inl, inr, ap, sym, ◌∙◌,
}
use coffee_shop_saas_platfor.Action.{invalid_refund_transition, Action, throw_if}
use coffee_shop_saas_platfor.Schema.{RefundStatus, is_refund}
use coffee_shop_saas_platfor.Schema.RefundStatus.{
  requested, processing, completed, failed, cancelled,
}
use coffee_shop_saas_platfor.Domain.Reach.{Reach, here, next}

unfoldable pub transitions : RefundStatus → Option (List RefundStatus)
transitions requested = some (processing ∷ cancelled ∷ [])
transitions processing = some (completed ∷ failed ∷ [])
transitions completed = some []
transitions failed = some []
transitions cancelled = some []
transitions _ = none

abbrev pub includes : RefundStatus → List RefundStatus → Bool
includes s [] = false
includes s (t ∷ ts) = is_refund s t || includes s ts

unfoldable pub can_transition : RefundStatus → RefundStatus → Bool
unfolding transitions
can_transition from to = elim (transitions from) [ none ↦ false | some ts ↦ includes to ts ]

unfoldable pub assert_transition {ℓ} :
    {S : Type ℓ} → RefundStatus → RefundStatus → Action S (Unit {0})
unfolding can_transition
assert_transition from to = throw_if (not (can_transition from to)) invalid_refund_transition

pub is_terminal : RefundStatus → Bool
is_terminal s = includes s (completed ∷ failed ∷ cancelled ∷ [])

-- How far a refund has come.
abbrev rank : RefundStatus → ℕ
rank requested = 0
rank processing = 1
rank _ = 2

rank_step : (s t : RefundStatus) → can_transition s t ≡ true → rank s < rank t
unfolding can_transition
rank_step s t e = ground arith

-- `isTerminal` agrees with the table.
terminal_iff : (s : RefundStatus) → (is_terminal s ≡ true) ↔ (transitions s ≡ some [])
unfolding is_terminal transitions
terminal_iff s = (ground arith, ground arith)

path_rank : {s t : RefundStatus} → Reach can_transition s t → (t ≡ s) ⊎ (rank s < rank t)
path_rank here = inl refl
path_rank {s} (next {t = t} {u = u} r e) = elim (path_rank r) [
  | inl same ↦ inr (rw (← same) (rank_step t u e))
  | inr less ↦ inr (omega (arith, rank_step t u e))
]

-- No path of one or more transitions comes back to where it began.
pub acyclic : {s t u : RefundStatus} → can_transition s t ≡ true → Reach can_transition t u → u ≢ s
acyclic {s} {t} {u} e r same = elim (path_rank r) [
  | inl h ↦ absurd (omega (arith, unchanged h, rank_step s t e))
  | inr less ↦ absurd (omega (arith, rank_step s t e, ap rank same))
]
  where
    unchanged : u ≡ t → rank s ≡ rank t
    unchanged h = ap rank (sym same ∙ h)

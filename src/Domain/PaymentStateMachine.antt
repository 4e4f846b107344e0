-- ===== src/Domain/PaymentStateMachine.antt =====
-- backend/src/domain/payment/PaymentStateMachine.ts. The code reads any string as a status: one that
-- is not in its table has no transitions.
use coffee_shop_saas_platfor.Prelude.{
  ◌≡◌, refl, ◌≢◌, ◌↔◌, Bool, true, false, not, Option, none, some, List, [], ◌∷◌, arith, ◌||◌,
}
use coffee_shop_saas_platfor.Action.{invalid_payment_transition, Action, throw_if}
use coffee_shop_saas_platfor.Schema.{PaymentStatus, is_payment}
use coffee_shop_saas_platfor.Schema.PaymentStatus.{
  pending, authorized, completed, paid, failed, cancelled, voided, refunded, partially_refunded,
  retrying,
}
use coffee_shop_saas_platfor.Domain.Reach.{Reach, here, next}

-- `transitions[from]`, where `none` is `undefined`
unfoldable pub transitions : PaymentStatus → Option (List PaymentStatus)
transitions pending = some (authorized ∷ paid ∷ completed ∷ failed ∷ retrying ∷ cancelled ∷ [])
transitions authorized = some (paid ∷ completed ∷ failed ∷ cancelled ∷ [])
transitions retrying = some (paid ∷ completed ∷ failed ∷ cancelled ∷ [])
transitions paid = some (refunded ∷ partially_refunded ∷ voided ∷ [])
transitions completed = some (refunded ∷ partially_refunded ∷ voided ∷ [])
transitions failed = some (retrying ∷ cancelled ∷ [])
transitions cancelled = some []
transitions refunded = some []
transitions partially_refunded = some (refunded ∷ partially_refunded ∷ [])
transitions voided = some []
transitions _ = none

-- `Array.prototype.includes`
abbrev pub includes : PaymentStatus → List PaymentStatus → Bool
includes s [] = false
includes s (t ∷ ts) = is_payment s t || includes s ts

unfoldable pub can_transition : PaymentStatus → PaymentStatus → Bool
unfolding transitions
can_transition from to = elim (transitions from) [ none ↦ false | some ts ↦ includes to ts ]

unfoldable pub assert_transition {ℓ} :
    {S : Type ℓ} → PaymentStatus → PaymentStatus → Action S (Unit {0})
unfolding can_transition
assert_transition from to = throw_if (not (can_transition from to)) invalid_payment_transition

pub get_valid_transitions : PaymentStatus → List PaymentStatus
unfolding transitions
get_valid_transitions from = elim (transitions from) [ none ↦ [] | some ts ↦ ts ]

pub is_terminal : PaymentStatus → Bool
is_terminal s = includes s (cancelled ∷ refunded ∷ voided ∷ [])

-- The money has been received, and perhaps given back.
abbrev pub is_captured : PaymentStatus → Bool
is_captured paid = true
is_captured completed = true
is_captured refunded = true
is_captured partially_refunded = true
is_captured voided = true
is_captured _ = false

captured_step :
    (s t : PaymentStatus) → is_captured s ≡ true → can_transition s t ≡ true → is_captured t ≡ true
unfolding can_transition
captured_step s t c e = ground arith

-- Money that was received is never declared lost: from PAID, COMPLETED and what follows them, every
-- path through the table stays among PAID, COMPLETED, REFUNDED, PARTIALLY_REFUNDED and VOIDED.
pub captured_forever :
    {s t : PaymentStatus} → is_captured s ≡ true → Reach can_transition s t → is_captured t ≡ true
captured_forever c here = c
captured_forever c (next {t = t} {u = u} r e) = captured_step t u (captured_forever c r) e

-- The predicate `isTerminal`, which lists its statuses by hand, agrees with the table: it holds of
-- exactly the statuses that the table lists with no transition.
pub is_terminal_iff : (s : PaymentStatus) → (is_terminal s ≡ true) ↔ (transitions s ≡ some [])
unfolding is_terminal transitions
is_terminal_iff s = (ground arith, ground arith)

terminal_step : (s t : PaymentStatus) → is_terminal s ≡ true → can_transition s t ≡ false
unfolding is_terminal can_transition
terminal_step s t h = ground arith

-- No path leaves a terminal status.
pub terminal_absorbs :
    {s t : PaymentStatus} → is_terminal s ≡ true → Reach can_transition s t → t ≡ s
terminal_absorbs h here = refl
terminal_absorbs {s} h (next {t = t} {u = u} r e) =
    let same : t ≡ s = terminal_absorbs h r in cc (terminal_step t u (rw same h))

-- Every payment can be settled: from each status of the table a path leads to a terminal one.
pub settles :
    (s : PaymentStatus)
    → transitions s ≢ none
    → (t : PaymentStatus) × (is_terminal t ≡ true) × Reach can_transition s t
unfolding is_terminal can_transition
settles pending h = (cancelled, refl, next here refl)
settles authorized h = (cancelled, refl, next here refl)
settles retrying h = (cancelled, refl, next here refl)
settles failed h = (cancelled, refl, next here refl)
settles paid h = (refunded, refl, next here refl)
settles completed h = (refunded, refl, next here refl)
settles partially_refunded h = (refunded, refl, next here refl)
settles cancelled h = (cancelled, refl, here)
settles refunded h = (refunded, refl, here)
settles voided h = (voided, refl, here)
settles _ h = absurd (h refl)

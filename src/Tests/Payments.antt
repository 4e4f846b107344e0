-- ===== src/Tests/Payments.antt =====
-- Payments and their transition tables.
use coffee_shop_saas_platfor.Prelude.{ℕ, ◌≡◌, refl, ◌≢◌, ◌⊎◌, true, List, [], ◌∷◌}
use coffee_shop_saas_platfor.Action.{Result, ok, err, provider_error}
use coffee_shop_saas_platfor.Schema.{
  PaymentStatus, RefundStatus, Provider, Payment, normalized, card_declined,
}
use coffee_shop_saas_platfor.Domain.Reach.{Reach, here, next}
use coffee_shop_saas_platfor.Domain.PaymentStateMachine
use coffee_shop_saas_platfor.Domain.RefundStateMachine
use coffee_shop_saas_platfor.PaymentService.{
  LookupStatus, confirm_from_provider_event, mark_failed_from_provider, cancel_from_provider, run,
  Call, confirm, cancel, fail, poll, retry, pending,
}
use coffee_shop_saas_platfor.PaymentService.Follows.{Follows, run-Follows}
use coffee_shop_saas_platfor.PaymentService.Effects.{refused_unchanged}
use coffee_shop_saas_platfor.Tests.Samples.{a_shop}

completed_refunded :
    Reach PaymentStateMachine.can_transition PaymentStatus.completed PaymentStatus.refunded
unfolding PaymentStateMachine.can_transition
completed_refunded = next {t = PaymentStatus.partially_refunded} (next here refl) refl

captured_forever_example : PaymentStateMachine.is_captured PaymentStatus.refunded ≡ true
captured_forever_example =
    PaymentStateMachine.captured_forever {s = PaymentStatus.completed} {t = PaymentStatus.refunded}
      refl completed_refunded

requested_processing :
    RefundStateMachine.can_transition RefundStatus.requested RefundStatus.processing ≡ true
unfolding RefundStateMachine.can_transition
requested_processing = refl

processing_failed :
    RefundStateMachine.can_transition RefundStatus.processing RefundStatus.failed ≡ true
unfolding RefundStateMachine.can_transition
processing_failed = refl

acyclic_example : RefundStatus.failed ≢ RefundStatus.requested
acyclic_example =
    RefundStateMachine.acyclic {s = RefundStatus.requested} {t = RefundStatus.processing}
      {u = RefundStatus.failed} requested_processing (next here processing_failed)

-- A provider that does not answer, and one that has the payment still open and then paid.
abbrev down : Provider → ℕ → Result LookupStatus
down p ref = err provider_error

abbrev open_ : Provider → ℕ → Result LookupStatus
open_ p ref = ok pending

abbrev settled : Provider → ℕ → Result LookupStatus
settled p ref = ok LookupStatus.paid

abbrev calls : List Call
calls =
    retry open_ 9
    ∷ poll settled 9
    ∷ confirm 9
    ∷ fail 9 (normalized card_declined)
    ∷ retry down 9
    ∷ cancel 9
    ∷ []

run-Follows_example :
    Follows
      (a_shop PaymentStatus.failed).payments
      (run calls (a_shop PaymentStatus.failed)).payments
run-Follows_example = run-Follows calls (a_shop PaymentStatus.failed)

refused_unchanged_example :
    let db = a_shop PaymentStatus.refunded in
    let a = confirm_from_provider_event 9 db in
    let b = mark_failed_from_provider 9 (normalized card_declined) db in
    let c = cancel_from_provider 9 db in
    (((p : Payment) × (a.0 ≡ ok p)) ⊎ (a.1 ≡ db))
    × (((p : Payment) × (b.0 ≡ ok p)) ⊎ (b.1 ≡ db))
    × (((p : Payment) × (c.0 ≡ ok p)) ⊎ (c.1 ≡ db))
refused_unchanged_example =
    refused_unchanged 9 (normalized card_declined) (a_shop PaymentStatus.refunded)

-- ===== src/PaymentService/Effects.antt =====
-- What the operations of `PaymentService` do to a payment and its order.
use coffee_shop_saas_platfor.Prelude.{ℕ, ◌≡◌, arith, inl, inr, ◌⊎◌}
use coffee_shop_saas_platfor.Action.{Result-cases, ok, err, Error}
use coffee_shop_saas_platfor.Schema.{Payment, FailureCode, Db}
use coffee_shop_saas_platfor.PaymentService.{
  confirm_from_provider_event, mark_failed_from_provider, cancel_from_provider,
}

confirm_refused :
    (k : ℕ) (db : Db) (e : Error)
    → (confirm_from_provider_event k db).0 ≡ err e
    → (confirm_from_provider_event k db).1 ≡ db
unfolding confirm_from_provider_event
confirm_refused k db e h = ground arith

mark_failed_refused :
    (k : ℕ) (code : FailureCode) (db : Db) (e : Error)
    → (mark_failed_from_provider k code db).0 ≡ err e
    → (mark_failed_from_provider k code db).1 ≡ db
unfolding mark_failed_from_provider
mark_failed_refused k code db e h = ground arith

cancel_refused :
    (k : ℕ) (db : Db) (e : Error)
    → (cancel_from_provider k db).0 ≡ err e
    → (cancel_from_provider k db).1 ≡ db
unfolding cancel_from_provider
cancel_refused k db e h = ground arith

-- A provider event either answers a payment or leaves the database and the event log as they were:
-- a confirmation, a failure or a cancellation that throws has written nothing.
pub refused_unchanged :
    (k : ℕ) (code : FailureCode) (db : Db)
    → let a = confirm_from_provider_event k db in
      let b = mark_failed_from_provider k code db in
      let c = cancel_from_provider k db in
      (((p : Payment) × (a.0 ≡ ok p)) ⊎ (a.1 ≡ db))
      × (((p : Payment) × (b.0 ≡ ok p)) ⊎ (b.1 ≡ db))
      × (((p : Payment) × (c.0 ≡ ok p)) ⊎ (c.1 ≡ db))
refused_unchanged k code db = (
  elim (Result-cases (confirm_from_provider_event k db).0) [
    | inl done ↦ inl done
    | inr (e, h) ↦ inr (confirm_refused k db e h)
  ],
  elim (Result-cases (mark_failed_from_provider k code db).0) [
    | inl done ↦ inl done
    | inr (e, h) ↦ inr (mark_failed_refused k code db e h)
  ],
  elim (Result-cases (cancel_from_provider k db).0) [
    | inl done ↦ inl done
    | inr (e, h) ↦ inr (cancel_refused k db e h)
  ],
)

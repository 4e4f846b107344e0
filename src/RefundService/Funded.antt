-- ===== src/RefundService/Funded.antt =====
-- What is refunded stays within what was requested.
use coffee_shop_saas_platfor.Prelude.{
  ℕ, ◌≡◌, Option, some, List, [], ◌∷◌, arith, true, Bool-cases, inl, inr, sym, ◌∙◌,
}
use mathlib.Core.Option.{some-injective}
use coffee_shop_saas_platfor.Int.{ℤ, pos, ◌≤ℤ◌, int_laws}
use coffee_shop_saas_platfor.Table.{find, update, sum_of, All-update}
use coffee_shop_saas_platfor.Action.{Result, Result-cases}
use coffee_shop_saas_platfor.Schema.{Refund, RefundStatus, is_refund, Provider, Payment, Db}
use coffee_shop_saas_platfor.RefundService.{
  process_refund, completed_of_payment, mark_processing, mark_completed, mark_failed, process_all,
}
use coffee_shop_saas_platfor.RefundService.Totals.{
  committed_of_payment, IsNonneg, process_granted, process_refused, process_missing,
  process_settled, completed_le_committed, processed_committed, nonneg_of_find,
}

-- No refund is negative, and those of payment `j` that are on their way or done come to at most `a`.
abbrev pub IsFunded : ℕ → ℤ → List (ℕ × Refund) → Type 0
IsFunded j a t = IsNonneg t × (sum_of (committed_of_payment j) t ≤ℤ a)

module _ (j : ℕ) (a : ℤ) (k : ℕ) (t : List (ℕ × Refund)) (r : Refund) (h : find k t ≡ some r)
    (q : is_refund r.status RefundStatus.requested ≡ true) (funded : IsFunded j a t) where
  failed_IsFunded : IsFunded j a (update k mark_failed (update k mark_processing t))
  failed_IsFunded =
      let le : committed_of_payment j (mark_failed (mark_processing r))
          ≤ℤ committed_of_payment j r =
        ground (arith, nonneg_of_find k t r funded.0 h) in
      (
        All-update (λ r. pos 0 ≤ℤ r.amount) k mark_failed (update k mark_processing t) (λ v x. x)
            (All-update (λ r. pos 0 ≤ℤ r.amount) k mark_processing t (λ v x. x) funded.0),
        omega (int_laws, funded.1, processed_committed j k mark_failed t r h le),
      )

  completed_IsFunded :
      (now ref : ℕ) → IsFunded j a (update k (mark_completed now ref) (update k mark_processing t))
  completed_IsFunded now ref =
      let le : committed_of_payment j (mark_completed now ref (mark_processing r))
          ≤ℤ committed_of_payment j r =
        ground arith in
      (
        All-update (λ r. pos 0 ≤ℤ r.amount) k (mark_completed now ref) (update k mark_processing t)
            (λ v x. x)
            (All-update (λ r. pos 0 ≤ℤ r.amount) k mark_processing t (λ v x. x) funded.0),
        omega (int_laws, funded.1, processed_committed j k (mark_completed now ref) t r h le),
      )

module _ (provider_refund : Provider → Option ℕ → ℤ → Result ℕ) (j : ℕ) (a : ℤ) where
  found_IsFunded :
      (k : ℕ) (db : Db) (r : Refund) (p : Payment)
      → find k db.refunds ≡ some r
      → find r.payment db.payments ≡ some p
      → IsFunded j a db.refunds
      → IsFunded j a (process_refund provider_refund k db).1.refunds
  found_IsFunded k db r p h hp funded =
      elim (Bool-cases (is_refund r.status RefundStatus.requested)) [
        | inr old ↦
            rw
              (process_settled provider_refund k db
                (λ r' h'. rw (← some-injective _ _ (sym h ∙ h')) old))
              funded
        | inl q ↦ elim (Result-cases (provider_refund r.provider p.provider_ref r.amount)) [
          | inl (ref, e) ↦ elim (process_granted provider_refund k db r p h hp q ref e) [
            | inl failed ↦ rw failed (failed_IsFunded j a k db.refunds r h q funded)
            | inr done ↦ rw done (completed_IsFunded j a k db.refunds r h q funded db.now ref)
          ]
          | inr (x, e) ↦
              rw (process_refused provider_refund k db r p h hp q x e)
                (failed_IsFunded j a k db.refunds r h q funded)
        ]
      ]

  process_IsFunded :
      (k : ℕ) (db : Db)
      → IsFunded j a db.refunds
      → IsFunded j a (process_refund provider_refund k db).1.refunds
  process_IsFunded k db funded = elim (process_missing provider_refund k db) [
    | inl same ↦ rw same funded
    | inr (r, p, h, hp) ↦ found_IsFunded k db r p h hp funded
  ]

  process_all-IsFunded :
      (ks : List ℕ) (db : Db)
      → IsFunded j a db.refunds
      → IsFunded j a (process_all provider_refund ks db).refunds
  unfolding process_all
  process_all-IsFunded [] db funded = funded
  process_all-IsFunded (k ∷ ks) db funded =
      process_all-IsFunded ks (process_refund provider_refund k db).1 (process_IsFunded k db funded)

  -- If no refund is negative, and the refunds of a payment that are requested, under way or done come
  -- to at most `a`, then after processing any refunds in any order, whatever the provider answers,
  -- the completed refunds of that payment come to at most `a`.
  pub no_over_refund :
      (ks : List ℕ) (db : Db)
      → IsFunded j a db.refunds
      → sum_of (completed_of_payment j) (process_all provider_refund ks db).refunds ≤ℤ a
  no_over_refund ks db funded =
      let (nonneg, within) = process_all-IsFunded ks db funded in
      omega (int_laws, within, completed_le_committed j _ nonneg)

-- ===== src/RefundService/Totals.antt =====
-- How much of a payment has been given back.
use coffee_shop_saas_platfor.Prelude.{
  ℕ, ◌≡◌, ◌⊎◌, true, false, Option, some, ◌==◌, arith, Option-cases, inl, inr, ◌&&◌, ◌||◌,
  if◌then◌else◌, List, [], ◌∷◌, All,
}
use coffee_shop_saas_platfor.Int.{ℤ, pos, ◌≤ℤ◌, int_laws, parts_of_eq}
use coffee_shop_saas_platfor.Table.{find, update, sum_of, find-update_self, sum_of-update_twice}
use coffee_shop_saas_platfor.Action.{Error, Result, ok, err}
use coffee_shop_saas_platfor.Schema.{Refund, RefundStatus, is_refund, Provider, Payment, Db}
use coffee_shop_saas_platfor.RefundService.{
  process_refund, completed_of_payment, mark_processing, mark_completed, mark_failed,
}

-- A refund that is on its way or done counts with its amount.
abbrev pub committed_of_payment : ℕ → Refund → ℤ
committed_of_payment k r =
    if r.payment == k
      && (is_refund r.status RefundStatus.requested
          || is_refund r.status RefundStatus.processing
          || is_refund r.status RefundStatus.completed)
    then r.amount
    else pos 0

-- A refund that is no longer REQUESTED is left alone.
pub process_settled :
    (provider_refund : Provider → Option ℕ → ℤ → Result ℕ) (k : ℕ) (db : Db)
    → ((r : Refund)
        → find k db.refunds ≡ some r
        → is_refund r.status RefundStatus.requested ≡ false)
    → (process_refund provider_refund k db).1 ≡ db
unfolding process_refund
process_settled provider_refund k db settled = elim (Option-cases (find k db.refunds)) [
  | inl e ↦ ground arith
  | inr (r, e) ↦ ground (arith, settled r e)
]

-- A call for a refund or a payment that is not there changes nothing.
pub process_missing :
    (provider_refund : Provider → Option ℕ → ℤ → Result ℕ) (k : ℕ) (db : Db)
    → ((process_refund provider_refund k db).1 ≡ db)
      ⊎ (r : Refund) × (p : Payment) × (find k db.refunds ≡ some r)
        × (find r.payment db.payments ≡ some p)
unfolding process_refund
process_missing provider_refund k db = elim (Option-cases (find k db.refunds)) [
  | inl e ↦ inl (ground arith)
  | inr (r, e) ↦ elim (Option-cases (find r.payment db.payments)) [
    | inl e' ↦ inl (ground arith)
    | inr (p, e') ↦ inr (r, p, e, e')
  ]
]

module _ (provider_refund : Provider → Option ℕ → ℤ → Result ℕ) (k : ℕ) (db : Db) (r : Refund)
    (p : Payment) (h : find k db.refunds ≡ some r) (hp : find r.payment db.payments ≡ some p)
    (q : is_refund r.status RefundStatus.requested ≡ true) where
  -- What a call leaves of the refunds, by the provider's answer.
  pub process_granted :
      (ref : ℕ)
      → provider_refund r.provider p.provider_ref r.amount ≡ ok ref
      → let t = (process_refund provider_refund k db).1.refunds in
        (t ≡ update k mark_failed (update k mark_processing db.refunds))
        ⊎ (t ≡ update k (mark_completed db.now ref) (update k mark_processing db.refunds))
  unfolding process_refund
  process_granted ref e = ground (arith, find-update_self k mark_processing db.refunds r h)

  pub process_refused :
      (x : Error)
      → provider_refund r.provider p.provider_ref r.amount ≡ err x
      → let t = (process_refund provider_refund k db).1.refunds in
        t ≡ update k mark_failed (update k mark_processing db.refunds)
  unfolding process_refund
  process_refused x e = ground (arith, find-update_self k mark_processing db.refunds r h)

-- No refund is negative.
abbrev pub IsNonneg : List (ℕ × Refund) → Type 0
IsNonneg = All (λ e. pos 0 ≤ℤ e.1.amount)

pub completed_le_committed :
    (j : ℕ) (t : List (ℕ × Refund))
    → IsNonneg t
    → sum_of (completed_of_payment j) t ≤ℤ sum_of (committed_of_payment j) t
completed_le_committed j [] h = omega arith
completed_le_committed j (e ∷ t) h =
    let row : completed_of_payment j e.1 ≤ℤ committed_of_payment j e.1 = ground arith in
    omega (int_laws, row, completed_le_committed j t h.1)

pub processed_committed :
    (j k : ℕ) (f : Refund → Refund) (t : List (ℕ × Refund)) (r : Refund)
    → find k t ≡ some r
    → committed_of_payment j (f (mark_processing r)) ≤ℤ committed_of_payment j r
    → sum_of (committed_of_payment j) (update k f (update k mark_processing t))
      ≤ℤ sum_of (committed_of_payment j) t
processed_committed j k f t r h le = omega (
  int_laws,
  le,
  parts_of_eq (sum_of-update_twice (committed_of_payment j) k f mark_processing t r h),
)

pub nonneg_of_find :
    (k : ℕ) (t : List (ℕ × Refund)) (r : Refund)
    → IsNonneg t
    → find k t ≡ some r
    → pos 0 ≤ℤ r.amount
nonneg_of_find k [] r n h = ground arith
nonneg_of_find k (e ∷ t) r n h = ground (arith, nonneg_of_find k t r n.1)

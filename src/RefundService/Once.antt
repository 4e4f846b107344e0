-- ===== src/RefundService/Once.antt =====
-- A refund is carried out at most once, to whatever end it comes.
use coffee_shop_saas_platfor.Prelude.{
  ℕ, ◌≡◌, true, false, Option, some, Bool-cases, sym, ◌∙◌, inl, inr,
}
use mathlib.Core.Option.{some-injective}
use coffee_shop_saas_platfor.Table.{find, update, find-update_self}
use coffee_shop_saas_platfor.Action.{Result, Result-cases}
use coffee_shop_saas_platfor.Int.{ℤ}
use coffee_shop_saas_platfor.Schema.{Refund, RefundStatus, is_refund, Provider, Payment, Db}
use coffee_shop_saas_platfor.RefundService.{
  process_refund, mark_processing, mark_completed, mark_failed,
}
use coffee_shop_saas_platfor.RefundService.Totals.{
  process_missing, process_settled, process_granted, process_refused,
}

module _ (provider_refund : Provider → Option ℕ → ℤ → Result ℕ) where
  process_leaves :
      (k : ℕ) (db : Db) (r : Refund) (p : Payment)
      → find k db.refunds ≡ some r
      → find r.payment db.payments ≡ some p
      → is_refund r.status RefundStatus.requested ≡ true
      → (r' : Refund) → find k (process_refund provider_refund k db).1.refunds ≡ some r'
      → is_refund r'.status RefundStatus.requested ≡ false
  process_leaves k db r p h hp q r' h' =
      let first = find-update_self k mark_processing db.refunds r h in
      let failed =
        find-update_self k mark_failed (update k mark_processing db.refunds) (mark_processing r)
          first in
      elim (Result-cases (provider_refund r.provider p.provider_ref r.amount)) [
        | inr (x, e) ↦
            rw
              (← some-injective _ _
                (sym failed ∙ (rw (process_refused provider_refund k db r p h hp q x e) at h')))
        | inl (ref, e) ↦ elim (process_granted provider_refund k db r p h hp q ref e) [
          | inl shape ↦ rw (← some-injective _ _ (sym failed ∙ (rw shape at h')))
          | inr shape ↦
              let done =
                find-update_self k (mark_completed db.now ref) (update k mark_processing db.refunds)
                  (mark_processing r) first in
              rw (← some-injective _ _ (sym done ∙ (rw shape at h')))
        ]
      ]

  -- Processing a refund again, after it was processed to whatever end, changes nothing.
  pub process_once :
      (k : ℕ) (db : Db)
      → let db' = (process_refund provider_refund k db).1 in
        (process_refund provider_refund k db').1 ≡ db'
  process_once k db = elim (process_missing provider_refund k db) [
    | inl same ↦ rw same same
    | inr (r, p, h, hp) ↦ elim (Bool-cases (is_refund r.status RefundStatus.requested)) [
      | inl q ↦
          process_settled provider_refund k (process_refund provider_refund k db).1
            (process_leaves k db r p h hp q)
      | inr q ↦
          let same =
            process_settled provider_refund k db
              (λ r' h'. rw (← some-injective _ _ (sym h ∙ h')) q) in
          rw same same
    ]
  ]

-- ===== src/Quota/Found.antt =====
-- What the guard and the count do to a quota that is found.
use coffee_shop_saas_platfor.Prelude.{ℕ, ◌≡◌, refl, ap, ◌∙◌, Bool, not, some, arith, if◌then◌else◌}
use coffee_shop_saas_platfor.Int.{ℤ, pos, ◌+ℤ◌, ◌<ℤ◌, leb_ℤ}
use coffee_shop_saas_platfor.Table.{update}
use coffee_shop_saas_platfor.Quota.{
  Quotas, UsageQuota, quota_of, amount_or_one, add_used, check_quota, quota_alerts, count_in,
  increment_quota, next, quota_exceeded, quota_guard, increment_quota_after,
}

pub amount_positive : (a : ℤ) → pos 0 <ℤ a → amount_or_one (some a) ≡ a
unfolding amount_or_one
amount_positive a p = ground arith

module _ (tenant key : ℕ) (s : Quotas) (k : ℕ) (q : UsageQuota)
    (h : quota_of tenant key s ≡ some (k, q)) where
  check_found :
      (a : ℤ)
      → (check_quota tenant key (some a) s).allowed
        ≡ leb_ℤ (q.used +ℤ amount_or_one (some a)) q.limit
  unfolding check_quota
  check_found a = rw (check_quota, h) refl

  pub guard_found :
      (a : ℤ)
      → quota_guard key (some a) (some tenant) s ≡ (
          if not (leb_ℤ (q.used +ℤ amount_or_one (some a)) q.limit)
          then quota_exceeded
          else next key a)
  unfolding quota_guard
  guard_found a = ap (λ b. if not b then quota_exceeded else next key a) (check_found a)

  alerts_keep :
      (near : ℤ → ℤ → Bool) (a : ℤ)
      → (count_in near tenant key a (some (k, q)) s).1.quotas ≡ update k (add_used a) s.quotas
  unfolding count_in quota_alerts
  alerts_keep near a = ground arith

  pub counted_found :
      (near : ℤ → ℤ → Bool) (a : ℤ)
      → (increment_quota_after near (some tenant) (next key a) s).1.quotas
        ≡ update k (add_used (amount_or_one (some a))) s.quotas
  unfolding increment_quota_after increment_quota
  counted_found near a =
      let amount = amount_or_one (some a) in
      ap (λ o. (count_in near tenant key amount o s).1.quotas) h ∙ alerts_keep near amount

-- ===== src/Quota/Interleaved.antt =====
-- Two guarded requests at the same time.
use coffee_shop_saas_platfor.Prelude.{ℕ, ◌≡◌, refl, ◌∙◌, Bool, some}
use coffee_shop_saas_platfor.Int.{ℤ, pos, ◌+ℤ◌, ◌≤ℤ◌, ◌<ℤ◌, le→leb_ℤ}
use coffee_shop_saas_platfor.Table.{update, find_first-update, find_first_sound}
use coffee_shop_saas_platfor.Table.Keys.{IsKeyed, IsKeyed-update, find_first-find}
use coffee_shop_saas_platfor.Quota.Found.{guard_found, counted_found, amount_positive}
use coffee_shop_saas_platfor.Quota.{
  Quotas, UsageQuota, is_quota, quota_of, add_used, next, quota_guard, increment_quota_after,
}

module _ (near : ℤ → ℤ → Bool) (tenant key : ℕ) where
  guard_passes :
      (a : ℤ) (s : Quotas) (k : ℕ) (q : UsageQuota)
      → quota_of tenant key s ≡ some (k, q)
      → pos 0 <ℤ a
      → q.used +ℤ a ≤ℤ q.limit
      → quota_guard key (some a) (some tenant) s ≡ next key a
  guard_passes a s k q h p le =
      let fits = le→leb_ℤ (q.used +ℤ a) q.limit le in
      guard_found tenant key s k q h a ∙ rw (amount_positive a p, fits) refl

  counted :
      (a : ℤ) (s : Quotas) (k : ℕ) (q : UsageQuota)
      → quota_of tenant key s ≡ some (k, q)
      → IsKeyed s.quotas
      → pos 0 <ℤ a
      → let s' = (increment_quota_after near (some tenant) (next key a) s).1 in
        (quota_of tenant key s' ≡ some (k, add_used a q)) × IsKeyed s'.quotas
  counted a s k q h keyed p =
      let row = find_first-find (is_quota tenant key) s.quotas k q keyed h in
      let mine = find_first_sound (is_quota tenant key) s.quotas k q h in
      let moved : _ ≡ update k (add_used a) s.quotas =
        counted_found tenant key s k q h near a ∙ rw (amount_positive a p) refl in
      rw moved (
        find_first-update (is_quota tenant key) (add_used a) s.quotas k q h row mine,
        IsKeyed-update k (add_used a) s.quotas keyed,
      )

  -- Two requests that the guard sees before either is counted: each fits what is left of the quota and
  -- both together do not. Both are let through, and when both have been counted the quota is over its
  -- limit.
  pub both_pass :
      (a b : ℤ) (s : Quotas) (k : ℕ) (q : UsageQuota)
      → quota_of tenant key s ≡ some (k, q)
      → IsKeyed s.quotas
      → pos 0 <ℤ a
      → pos 0 <ℤ b
      → q.used +ℤ a ≤ℤ q.limit
      → q.used +ℤ b ≤ℤ q.limit
      → q.limit <ℤ q.used +ℤ a +ℤ b
      → let first = quota_guard key (some a) (some tenant) s in
        let second = quota_guard key (some b) (some tenant) s in
        let s1 = (increment_quota_after near (some tenant) first s).1 in
        let s2 = (increment_quota_after near (some tenant) second s1).1 in
        (first ≡ next key a)
        × (second ≡ next key b)
        × (q' : UsageQuota) × (quota_of tenant key s2 ≡ some (k, q'))
        × (q'.limit <ℤ q'.used)
  both_pass a b s k q h keyed pa pb fa fb over =
      let first = guard_passes a s k q h pa fa in
      let second = guard_passes b s k q h pb fb in
      let (h1, keyed1) = counted a s k q h keyed pa in
      let (h2, keyed2) =
        counted b (increment_quota_after near (some tenant) (next key a) s).1 k (add_used a q) h1
          keyed1 pb in
      (first, second, add_used b (add_used a q), rw (first, second) h2, over)

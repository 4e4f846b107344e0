-- ===== src/Tests/Quotas.antt =====
-- Quotas.
use coffee_shop_saas_platfor.Prelude.{◌≡◌, refl, Bool, true, false, some, List, [], ◌∷◌, map}
use coffee_shop_saas_platfor.Int.{ℤ, ◌+ℤ◌, ◌-ℤ◌, pos, leb_ℤ}
use coffee_shop_saas_platfor.Quota.{
  UsageQuota, monthly, Quotas, amount_or_one, check_quota, increment_quota, count_in, quota_alerts,
  quota_guard, increment_quota_after,
}
use coffee_shop_saas_platfor.Quota.Budget.{
  spend_all, guarded, guarded_all, Stands, guarded_all-spend_all,
}

abbrev orders_quota : UsageQuota
orders_quota = record {
  tenant = 1;
  quota_key = 2;
  limit = pos 10;
  used = pos 4;
  interval = some monthly;
}

abbrev quotas : Quotas
quotas = record { plan_quotas = []; quotas = (7, orders_quota) ∷ []; events = []; next_key = 9 }

abbrev near : ℤ → ℤ → Bool
near used limit = leb_ℤ (pos 9) used

abbrev amounts : List ℤ
amounts = pos 4 ∷ pos 3 ∷ pos 2 ∷ []

second_refused : (guarded_all near 1 2 amounts quotas).0 ≡ true ∷ false ∷ true ∷ []
unfolding guarded_all guarded quota_guard check_quota increment_quota_after increment_quota count_in
    quota_alerts amount_or_one ◌+ℤ◌
second_refused = refl

guarded_all-spend_all_example :
    let (granted, left) = spend_all (map (λ a. amount_or_one (some a)) amounts) (pos 6) in
    let (g, s) = guarded_all near 1 2 amounts quotas in
    (g ≡ granted) × Stands near 1 2 7 (pos 10) left s
unfolding ◌-ℤ◌
guarded_all-spend_all_example =
    guarded_all-spend_all near 1 2 amounts quotas 7 (pos 10) (pos 6)
      (orders_quota, refl, refl, refl, (refl, tt))

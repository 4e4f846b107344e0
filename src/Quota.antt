-- ===== src/Quota.antt =====
-- Quotas of a tenant: `QuotaService` of backend/src/services/billing/Quota.service.ts, with the guard
-- that calls it, backend/src/middlewares/quotaGuard.middleware.ts. A quota stands under its own key and
-- is found by tenant and quota key, which are unique together. Whether `usagePercent`, computed in
-- floating point, is at least 90 and below 100 is a parameter, `near`. What the `catch` blocks do when
-- the database cannot be reached is left out, and so are the times.
pub mod Budget
pub mod Found
pub mod Interleaved
use coffee_shop_saas_platfor.Prelude.{
  ℕ, suc, Bool, true, false, not, Option, none, some, List, [], ◌∷◌, ◌++◌, ◌==◌, ◌&&◌,
  if◌then◌else◌,
}
use coffee_shop_saas_platfor.Int.{ℤ, pos, ◌+ℤ◌, ◌-ℤ◌, leb_ℤ}
use coffee_shop_saas_platfor.Table.{Table, find_first, find_many, update, create}
use coffee_shop_saas_platfor.Action.{Action, pure, gets, modify, when, for_each, ◌>>=◌, ◌>>◌}

pub data Interval : Type 0 where
  hourly daily weekly monthly quarterly yearly billing_cycle never : Interval

abbrev pub is_interval : Interval → Interval → Bool
is_interval hourly hourly = true
is_interval daily daily = true
is_interval weekly weekly = true
is_interval monthly monthly = true
is_interval quarterly quarterly = true
is_interval yearly yearly = true
is_interval billing_cycle billing_cycle = true
is_interval never never = true
is_interval _ _ = false

-- The column may be null, which no interval matches.
abbrev pub has_interval : Interval → Option Interval → Bool
has_interval i none = false
has_interval i (some j) = is_interval j i

pub record UsageQuota : Type 0 where
  pub tenant : ℕ
  pub quota_key : ℕ
  pub limit : ℤ
  pub used : ℤ
  pub interval : Option Interval

pub record PlanQuota : Type 0 where
  pub plan : ℕ
  pub quota_key : ℕ
  pub limit : ℤ
  pub interval : Option Interval
  pub enforced : Bool

pub data QuotaEvent : Type 0 where
  nearly_exceeded exceeded : ℕ → ℕ → ℤ → ℤ → QuotaEvent

pub record Quotas : Type 0 where
  pub plan_quotas : Table PlanQuota
  pub quotas : Table UsageQuota
  pub events : List QuotaEvent
  pub next_key : ℕ

abbrev pub is_quota : ℕ → ℕ → UsageQuota → Bool
is_quota tenant key q = q.tenant == tenant && q.quota_key == key

abbrev pub quota_of : ℕ → ℕ → Quotas → Option (ℕ × UsageQuota)
quota_of tenant key s = find_first (is_quota tenant key) s.quotas

abbrev set_limit : PlanQuota → UsageQuota → UsageQuota
set_limit p q = record q { limit = p.limit; interval = p.interval }

abbrev new_quota : ℕ → PlanQuota → UsageQuota
new_quota tenant p = record {
  tenant = tenant;
  quota_key = p.quota_key;
  limit = p.limit;
  used = pos 0;
  interval = p.interval;
}

-- `upsert`
upsert_quota : ℕ → ℕ × PlanQuota → Action Quotas (Unit {0})
upsert_quota tenant (_, p) = modify (λ s. elim (quota_of tenant p.quota_key s) [
  | some (k, q) ↦ record s { quotas = update k (set_limit p) s.quotas }
  | none ↦ record s {
    quotas = create s.next_key (new_quota tenant p) s.quotas;
    next_key = suc s.next_key;
  }
])

unfoldable pub initialize_quotas : ℕ → ℕ → Action Quotas (Unit {0})
unfolding upsert_quota
initialize_quotas tenant plan = do
  rows ← gets (λ s. find_many (λ p. p.plan == plan && p.enforced) s.plan_quotas)
  for_each rows (upsert_quota tenant)

-- `none` is `Infinity`.
pub record QuotaCheck : Type 0 where
  pub allowed : Bool
  pub remaining : Option ℤ
  pub limit : Option ℤ

abbrev is_zero : ℤ → Bool
is_zero a = leb_ℤ a (pos 0) && leb_ℤ (pos 0) a

-- `input.amount || 1`
unfoldable pub amount_or_one : Option ℤ → ℤ
amount_or_one none = pos 1
amount_or_one (some a) = if is_zero a then pos 1 else a

unfoldable pub check_quota : ℕ → ℕ → Option ℤ → Quotas → QuotaCheck
check_quota tenant key amount s = elim (quota_of tenant key s) [
  | none ↦ record { allowed = true; remaining = none; limit = none }
  | some (_, q) ↦ record {
    allowed = leb_ℤ (q.used +ℤ amount_or_one amount) q.limit;
    remaining = some (q.limit -ℤ q.used);
    limit = some q.limit;
  }
]

abbrev pub add_used : ℤ → UsageQuota → UsageQuota
add_used a q = record q { used = q.used +ℤ a }

abbrev pub take_used : ℤ → UsageQuota → UsageQuota
take_used a q = record q { used = q.used -ℤ a }

abbrev announce : QuotaEvent → Action Quotas (Unit {0})
announce e = modify (λ s. record s { events = s.events ++ e ∷ [] })

module _ (near : ℤ → ℤ → Bool) where
  unfoldable pub quota_alerts : ℕ → ℕ → UsageQuota → Action Quotas (Unit {0})
  quota_alerts tenant key q = do
    when (near q.used q.limit) (announce (nearly_exceeded tenant key q.used q.limit))
    when (leb_ℤ q.limit q.used) (announce (exceeded tenant key q.used q.limit))

  -- A quota that is missing makes the update throw, which is caught.
  unfoldable pub count_in : ℕ → ℕ → ℤ → Option (ℕ × UsageQuota) → Action Quotas (Unit {0})
  count_in tenant key a none = pure tt
  count_in tenant key a (some (k, q)) = do
    modify (λ s. record s { quotas = update k (add_used a) s.quotas })
    quota_alerts tenant key (add_used a q)

  unfoldable pub increment_quota : ℕ → ℕ → Option ℤ → Action Quotas (Unit {0})
  increment_quota tenant key amount = do
    found ← gets (quota_of tenant key)
    count_in tenant key (amount_or_one amount) found

unfoldable pub decrement_quota : ℕ → ℕ → Option ℤ → Action Quotas (Unit {0})
decrement_quota tenant key amount = do
  found ← gets (quota_of tenant key)
  elim found [
    | none ↦ pure tt
    | some (k, q) ↦
        modify (λ s. record s { quotas = update k (take_used (amount_or_one amount)) s.quotas })
  ]

abbrev set_unused : UsageQuota → UsageQuota
set_unused q = record q { used = pos 0 }

unfoldable pub reset_quotas : Interval → Action Quotas (Unit {0})
reset_quotas interval = do
  rows ← gets (λ s. find_many (λ q. has_interval interval q.interval) s.quotas)
  for_each rows (λ r. modify (λ s. record s { quotas = update r.0 set_unused s.quotas }))

-- What the guard answers: a refusal, or `next()` with what is to be counted after the request.
pub data GuardAnswer : Type 0 where
  tenant_required quota_exceeded : GuardAnswer
  next : ℕ → ℤ → GuardAnswer

-- The default of the parameter `amount`.
abbrev pub given_or_one : Option ℤ → ℤ
given_or_one none = pos 1
given_or_one (some a) = a

unfoldable pub quota_guard : ℕ → Option ℤ → Option ℕ → Quotas → GuardAnswer
quota_guard key amount none s = tenant_required
quota_guard key amount (some tenant) s =
    let given = given_or_one amount in
    if not (check_quota tenant key (some given) s).allowed then quota_exceeded else next key given

-- `incrementQuotaAfter`: only a request that was let through is counted.
unfoldable pub increment_quota_after :
    (ℤ → ℤ → Bool) → Option ℕ → GuardAnswer → Action Quotas (Unit {0})
increment_quota_after near (some tenant) (next key amount) =
    increment_quota near tenant key (some amount)
increment_quota_after near _ _ = pure tt

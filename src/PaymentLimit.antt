-- ===== src/PaymentLimit.antt =====
-- How often and how much a tenant user may pay: `checkLimit` of
-- backend/src/services/payment/paymentRateLimit.service.ts, over the columns that it reads. Times are
-- milliseconds.
pub mod Windows
use coffee_shop_saas_platfor.Prelude.{
  ℕ, ◌+◌, Bool, true, false, Option, none, some, ◌==◌, ◌&&◌, leb, length, if◌then◌else◌,
}
use coffee_shop_saas_platfor.Int.{ℤ, pos, ◌+ℤ◌, ltb_ℤ}
use coffee_shop_saas_platfor.Table.{Table, find, find_many, sum_of}
use coffee_shop_saas_platfor.Action.{
  Action, pure, gets, throw_if, ◌>>=◌, ◌>>◌, daily_payment_limit_exceeded,
  daily_amount_limit_exceeded, hourly_payment_limit_exceeded,
}
use coffee_shop_saas_platfor.Schema.{PaymentStatus, is_payment}

pub record PayerOrder : Type 0 where
  pub tenant_user : ℕ
  pub total_amount : ℤ

pub record PayerPayment : Type 0 where
  pub order : ℕ
  pub amount : ℤ
  pub status : PaymentStatus
  pub created_at : ℕ
  pub paid_at : Option ℕ

pub record Payers : Type 0 where
  pub orders : Table PayerOrder
  pub payments : Table PayerPayment
  pub now : ℕ

abbrev pub hour_ms : ℕ
hour_ms = 3600000

abbrev pub day_ms : ℕ
day_ms = 86400000

-- `order: { tenantUserUuid }`
abbrev pub is_payer : Table PayerOrder → ℕ → PayerPayment → Bool
is_payer orders user p = elim (find p.order orders) [
  | none ↦ Bool.false
  | some o ↦ o.tenant_user == user
]

-- `gte: new Date(Date.now() - span)`
abbrev is_since : ℕ → ℕ → ℕ → Bool
is_since now span time = leb now (time + span)

abbrev pub is_recent : Payers → ℕ → ℕ → PayerPayment → Bool
is_recent db user span p = is_payer db.orders user p && is_since db.now span p.created_at

abbrev paid_since : ℕ → ℕ → Option ℕ → Bool
paid_since now span none = false
paid_since now span (some time) = is_since now span time

abbrev spent : Payers → ℕ → PayerPayment → ℤ
spent db user p =
    if is_payer db.orders user p
      && is_payment p.status PaymentStatus.paid
      && paid_since db.now day_ms p.paid_at
    then p.amount
    else pos 0

abbrev pub count_recent : ℕ → ℕ → Payers → ℕ
count_recent user span db = length (find_many (is_recent db user span) db.payments)

abbrev pub total_spent : ℕ → Payers → ℤ
total_spent user db = sum_of (spent db user) db.payments

unfoldable pub check_limit : ℕ → ℤ → Action Payers Bool
check_limit user amount = do
  daily ← gets (count_recent user day_ms)
  throw_if (leb 50 daily) daily_payment_limit_exceeded
  total ← gets (total_spent user)
  throw_if (ltb_ℤ (pos 1000000) (total +ℤ amount)) daily_amount_limit_exceeded
  hourly ← gets (count_recent user hour_ms)
  throw_if (leb 10 hourly) hourly_payment_limit_exceeded
  pure true

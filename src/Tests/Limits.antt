-- ===== src/Tests/Limits.antt =====
-- The limits on payments.
use coffee_shop_saas_platfor.Prelude.{◌≡◌, refl, true, none, some, [], ◌∷◌, arith}
use coffee_shop_saas_platfor.Int.{pos, ◌+ℤ◌}
use coffee_shop_saas_platfor.Table.{create}
use coffee_shop_saas_platfor.Action.{ok}
use coffee_shop_saas_platfor.Schema.{PaymentStatus}
use coffee_shop_saas_platfor.PaymentLimit.{Payers, PayerPayment, check_limit}
use coffee_shop_saas_platfor.PaymentLimit.Windows.{check_limit-IsLimited, IsLimited}

-- Two orders of the tenant user 7, the first of which was paid.
abbrev payers : Payers
payers = record {
  orders =
      (1, record { tenant_user = 7; total_amount = pos 600000 })
      ∷ (2, record { tenant_user = 7; total_amount = pos 400000 })
      ∷ [];
  payments =
      (
        3,
        record {
          order = 1;
          amount = pos 600000;
          status = PaymentStatus.paid;
          created_at = 90;
          paid_at = some 95;
        },
      )
      ∷ [];
  now = 100;
}

abbrev second : PayerPayment
second = record {
  order = 2;
  amount = pos 400000;
  status = PaymentStatus.pending;
  created_at = 100;
  paid_at = none;
}

second_passes : check_limit 7 (pos 400000) payers ≡ (ok true, payers)
unfolding check_limit ◌+ℤ◌
second_passes = refl

check_limit-IsLimited_example :
    IsLimited (record payers { payments = create 4 second payers.payments })
check_limit-IsLimited_example =
    check_limit-IsLimited 7 4 (pos 400000) second payers (λ u f. ground arith, λ u f. ground arith)
      second_passes refl (λ other. ground arith)

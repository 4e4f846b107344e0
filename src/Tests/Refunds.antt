-- ===== src/Tests/Refunds.antt =====
-- Refunds.
use coffee_shop_saas_platfor.Prelude.{ℕ, ◌≡◌, [], ◌∷◌, arith, Option}
use coffee_shop_saas_platfor.Int.{int_laws, ℤ, pos, ◌≤ℤ◌}
use coffee_shop_saas_platfor.Table.{sum_of}
use coffee_shop_saas_platfor.Action.{Result, ok}
use coffee_shop_saas_platfor.Schema.{PaymentStatus, Provider, Db}
use coffee_shop_saas_platfor.RefundService.{process_refund, process_all, completed_of_payment}
use coffee_shop_saas_platfor.RefundService.Funded.{no_over_refund}
use coffee_shop_saas_platfor.RefundService.Once.{process_once}
use coffee_shop_saas_platfor.Tests.Samples.{a_refund, a_shop}

-- The provider grants every refund.
abbrev granted : Provider → Option ℕ → ℤ → Result ℕ
granted p ref amount = ok 88

abbrev paid_shop : Db
paid_shop = a_shop PaymentStatus.paid

-- Refunds 11 and 12 of the paid payment, of the given amounts, wait to be processed.
abbrev waiting : ℕ → ℕ → Db
waiting a b = record paid_shop { refunds = (11, a_refund a) ∷ (12, a_refund b) ∷ [] }

no_over_refund_example :
    sum_of
      (completed_of_payment 9)
      (process_all granted (12 ∷ 11 ∷ 12 ∷ []) (waiting 600 300)).refunds
    ≤ℤ pos 1000
no_over_refund_example =
    no_over_refund granted 9 (pos 1000) (12 ∷ 11 ∷ 12 ∷ []) (waiting 600 300)
      ((omega arith, (omega arith, tt)), omega int_laws)

process_once_example :
    let db' = (process_refund granted 11 (waiting 600 700)).1 in
    (process_refund granted 11 db').1 ≡ db'
process_once_example = process_once granted 11 (waiting 600 700)

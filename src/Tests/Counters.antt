-- ===== src/Tests/Counters.antt =====
-- Payments in parts, and orders that are changed.
use coffee_shop_saas_platfor.Prelude.{ℕ, refl, sym, ap, ◌∙◌, List, [], ◌∷◌}
use coffee_shop_saas_platfor.Int.{ℤ, pos, ◌+ℤ◌, ◌*ℤ◌}
use coffee_shop_saas_platfor.Table.{sum_of}
use coffee_shop_saas_platfor.Action.{Result, ok}
use coffee_shop_saas_platfor.Schema.{Db, Order, PaymentStatus, OrderStatus}
use coffee_shop_saas_platfor.PartialPayment.{CounterOrder, Counter}
use coffee_shop_saas_platfor.OrderModification.Sums.{
  IsSummed, weight, Change, removes, recounts, adds, changes_run, changes_run-IsSummed,
}
use coffee_shop_saas_platfor.Pricing.Items.{Menu}
use coffee_shop_saas_platfor.Tests.Prices.{menu, two_lattes, share, times, hundredth, prices_db}
use coffee_shop_saas_platfor.Tests.Samples.{an_order, a_shop, only_row}

abbrev bill : CounterOrder
bill = record {
  total_amount = pos 1000;
  status = OrderStatus.pending;
  payment_status = PaymentStatus.pending;
}

abbrev counter : Counter
counter = record { orders = (4, bill) ∷ []; payments = []; next_key = 1 }

-- An order of 900 with a discount of 100 and a service charge of 50, of two items of one product.
abbrev tax_of : ℤ → ℤ
tax_of _ = pos 90

abbrev cheap_order : Order
cheap_order = record an_order {
  tax_amount = pos 90;
  discount_amount = pos 100;
  service_charge = pos 50;
  total_amount = pos 940;
}

abbrev shop : Db
shop = record (a_shop PaymentStatus.pending) { orders = (5, cheap_order) ∷ [] }

shop-IsSummed : IsSummed shop
unfolding ◌*ℤ◌ ◌+ℤ◌
shop-IsSummed = record {
  items_keyed = (refl, tt);
  multiplied = (refl, tt);
  summed = λ k o h.
      let (key, row) = only_row 5 k cheap_order o h in
      ap (λ x. x.subtotal) (sym row) ∙ ap (λ x. sum_of (weight x) shop.order_items) (sym key);
}

abbrev changes : List Change
changes = recounts 1 5 6 (pos 1) ∷ removes 1 5 6 ∷ adds 1 5 two_lattes ∷ recounts 1 5 6 (pos 3) ∷ []

abbrev the_menu : ℕ → Result Menu
the_menu _ = ok menu

changes_run-IsSummed_example :
    IsSummed (changes_run times share hundredth 10 0 prices_db the_menu tax_of changes shop)
changes_run-IsSummed_example =
    changes_run-IsSummed times share hundredth 10 0 prices_db the_menu tax_of changes shop
      shop-IsSummed

-- ===== src/Tests/Drawers.antt =====
-- Cash drawers.
use coffee_shop_saas_platfor.Prelude.{ℕ, Bool, true, none, List, [], ◌∷◌, arith}
use coffee_shop_saas_platfor.Int.{pos}
use coffee_shop_saas_platfor.Schema.{PaymentStatus}
use coffee_shop_saas_platfor.CashDrawer.{TillCall, opens, closes, till_run}
use coffee_shop_saas_platfor.CashDrawer.Rows.{Till, Drawer, CashPayment, new_drawer}
use coffee_shop_saas_platfor.CashDrawer.Single.{IsSingle, till_run-IsSingle}

abbrev empty_till : Till
empty_till = record {
  drawers = [];
  drops = [];
  counts = [];
  payments = [];
  requests = [];
  events = [];
  next_key = 1;
  now = 10;
}

abbrev anyone : ℕ → ℕ → Bool
anyone user store = true

abbrev calls : List TillCall
calls =
    opens 5 2 (pos 100) ∷ opens 5 2 (pos 200) ∷ closes 1 (pos 100) none ∷ opens 5 2 (pos 50) ∷ []

till_run-IsSingle_example : IsSingle (till_run anyone calls empty_till).drawers
till_run-IsSingle_example =
    till_run-IsSingle anyone calls empty_till (λ i j a b h h' o o' u w. absurd (ground arith))

abbrev a_drawer : Drawer
a_drawer = new_drawer 5 2 (pos 100) 10

abbrev a_sale : CashPayment
a_sale = record {
  store = 2;
  is_cash = true;
  status = PaymentStatus.completed;
  created_at = 12;
  amount = pos 30;
}

abbrev open_till : Till
open_till = record empty_till {
  drawers = (1, a_drawer) ∷ [];
  payments = (3, a_sale) ∷ [];
  now = 20;
}

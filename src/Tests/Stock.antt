-- ===== src/Tests/Stock.antt =====
-- Stock.
use coffee_shop_saas_platfor.Prelude.{ℕ, ◌≡◌, refl, Bool, some, List, [], ◌∷◌, arith, ◌==◌}
use coffee_shop_saas_platfor.Int.{pos, negsuc, ◌+ℤ◌, ◌-ℤ◌}
use coffee_shop_saas_platfor.Table.{find}
use coffee_shop_saas_platfor.Action.{ok}
use coffee_shop_saas_platfor.Schema.{PaymentStatus, InventoryItem, waste, Db}
use coffee_shop_saas_platfor.Inventory.Adjust.{Place, Line, adjust_stock}
use coffee_shop_saas_platfor.Inventory.Orders.{
  commit_one, release_one, reserve_line, reserve_for_order, commit_for_order, release_for_order,
}
use coffee_shop_saas_platfor.Inventory.Orders.Consistent.{
  IsConsistent, commit-IsConsistent, release-IsConsistent,
}
use coffee_shop_saas_platfor.Inventory.Orders.Reserve.{reserve-IsConsistent}
use coffee_shop_saas_platfor.Inventory.Orders.RoundTrip.{reserve_release}
use coffee_shop_saas_platfor.Inventory.Orders.Once.{commit_once}
use coffee_shop_saas_platfor.Inventory.Orders.Runs.{commit_ends_well}
use coffee_shop_saas_platfor.Tests.Samples.{
  an_order, held_row, held_shop, only_row, a_stock_row-IsBalanced, held_shop-IsConsistent,
  a_stock_row, a_shop,
}

abbrev shop : Db
shop = a_shop PaymentStatus.paid

abbrev here_ : Place
here_ = record { tenant = 1; store = 2; product = 7 }

abbrev lines : List Line
lines = record { product = 7; quantity = pos 2 } ∷ record { product = 8; quantity = pos 1 } ∷ []

-- Product 8 has no stock row and is not tracked.
abbrev tracks : ℕ → Bool
tracks p = p == 7

commit_runs : (commit_for_order 5 held_shop).0 ≡ ok tt
unfolding commit_for_order commit_one
commit_runs = refl

release_runs : (release_for_order 5 held_shop).0 ≡ ok tt
unfolding release_for_order release_one
release_runs = refl

shop-IsConsistent : IsConsistent shop
shop-IsConsistent = record {
  balanced = λ i a h. rw (← (only_row 4 i a_stock_row a h).1) a_stock_row-IsBalanced;
  backed = λ i a h. rw (← (only_row 4 i a_stock_row a h).1);
  items_keyed = (refl, tt);
  reservations_keyed = tt;
  nonneg = tt;
  unused = λ j le. refl;
}

commit-IsConsistent_example : IsConsistent (commit_for_order 5 held_shop).1
commit-IsConsistent_example = commit-IsConsistent 5 held_shop held_shop-IsConsistent

release-IsConsistent_example : IsConsistent (release_for_order 5 held_shop).1
release-IsConsistent_example = release-IsConsistent 5 held_shop held_shop-IsConsistent

reserve-IsConsistent_example : IsConsistent (reserve_for_order tracks 1 2 5 lines held_shop).1
reserve-IsConsistent_example =
    reserve-IsConsistent tracks 1 2 5 lines held_shop (omega arith, (omega arith, tt))
      held_shop-IsConsistent

reserve_runs : (reserve_for_order tracks 1 2 5 lines shop).0 ≡ ok tt
unfolding reserve_for_order reserve_line
reserve_runs = refl

reserved_release : (release_for_order 5 (reserve_for_order tracks 1 2 5 lines shop).1).0 ≡ ok tt
unfolding reserve_for_order reserve_line release_for_order release_one
reserved_release = refl

reserved_commit : (commit_for_order 5 (reserve_for_order tracks 1 2 5 lines shop).1).0 ≡ ok tt
unfolding reserve_for_order reserve_line commit_for_order commit_one
reserved_commit = refl

reserve_release_example :
    let db1 = (reserve_for_order tracks 1 2 5 lines shop).1 in
    let db2 = (release_for_order 5 db1).1 in
    (b : InventoryItem) × (find 4 db2.inventory ≡ some b)
    × (b.current_stock ≡ pos 10)
    × (b.available_stock ≡ pos 10)
    × (b.reserved_stock ≡ pos 0)
reserve_release_example =
    reserve_release tracks 1 2 5 4 lines shop a_stock_row shop-IsConsistent
      (omega arith, (omega arith, tt)) refl refl reserve_runs reserved_release

-- Eight of the ten are lost.
lost_release : (release_for_order 5 (adjust_stock here_ (negsuc 7) waste held_shop).1).0 ≡ ok tt
unfolding adjust_stock release_for_order release_one ◌+ℤ◌ ◌-ℤ◌
lost_release = refl

commit_once_example :
    let db' = (commit_for_order 5 held_shop).1 in
    (commit_for_order 5 db' ≡ (ok tt, db')) × (release_for_order 5 db' ≡ (ok tt, db'))
commit_once_example = commit_once 5 held_shop commit_runs (refl, tt)

commit_ends_well_example : (commit_for_order 5 held_shop).0 ≡ ok tt
commit_ends_well_example =
    commit_ends_well 5 held_shop an_order refl (refl, tt) ((held_row, refl), tt)

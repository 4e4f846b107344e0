-- ===== src/Tests/Menus.antt =====
-- Menu snapshots and their differences.
use coffee_shop_saas_platfor.Prelude.{◌≡◌, ◌↔◌, refl, true, false, [], ◌∷◌}
use coffee_shop_saas_platfor.Int.{pos}
use coffee_shop_saas_platfor.Table.{Table, find}
use coffee_shop_saas_platfor.MenuDiff.{calculate_diff}
use coffee_shop_saas_platfor.MenuDiff.Changes.{Product, map_of, price_change}
use coffee_shop_saas_platfor.MenuDiff.Patch.{told, patch, price_of, untold, diff_tells}

abbrev latte : Product
latte = record { name = 1; description = 2; base_price = pos 450; is_available = true }

abbrev dear_latte : Product
dear_latte = record latte { base_price = pos 500 }

abbrev tea : Product
tea = record { name = 3; description = 4; base_price = pos 300; is_available = false }

abbrev old_menu : Table Product
old_menu = (11, latte) ∷ (12, tea) ∷ []

abbrev new_menu : Table Product
new_menu = (11, dear_latte) ∷ (13, tea) ∷ []

latte_dearer :
    (calculate_diff [] [] old_menu new_menu).price_increases
    ≡ (11, price_change latte dear_latte) ∷ []
unfolding calculate_diff map_of
latte_dearer = refl

diff_tells_example :
    (patch (told 11 (calculate_diff [] [] old_menu new_menu)) (price_of (find 11 (map_of old_menu)))
      ≡ price_of (find 11 (map_of new_menu)))
    × ((told 11 (calculate_diff [] [] old_menu new_menu) ≡ untold)
        ↔ (find 11 (map_of old_menu) ≡ find 11 (map_of new_menu)))
diff_tells_example = diff_tells [] [] old_menu new_menu 11

-- ===== src/Inventory/Adjust.antt =====
-- backend/src/services/inventory/inventory.service.ts: `adjustStock`, `checkStock` and
-- `checkBulkAvailability`. The columns on the last restock (times and names) are left out.
use coffee_shop_saas_platfor.Prelude.{
  ℕ, Bool, true, false, not, Option, none, some, List, [], ◌∷◌, ◌++◌, ◌==◌, ◌&&◌, if◌then◌else◌,
}
use coffee_shop_saas_platfor.Int.{ℤ, pos, ◌+ℤ◌, ◌-ℤ◌, leb_ℤ, ltb_ℤ, max_ℤ}
use coffee_shop_saas_platfor.Table.{find_first}
use coffee_shop_saas_platfor.Action.{
  Action, pure, or_throw, gets, modify, throw_if, when, ◌>>=◌, ◌>>◌, inventory_not_found,
  insufficient_stock,
}
use coffee_shop_saas_platfor.Schema.{
  InventoryItem, InventoryStatus, in_stock, low_stock, out_of_stock, MovementKind, Movement,
  inventory_low_stock, Db,
}
use coffee_shop_saas_platfor.Store.{emit, update_item}

-- Whose stock of what: the `where` of the queries.
pub record Place : Type 0 where
  pub tenant : ℕ
  pub store : ℕ
  pub product : ℕ

abbrev pub is_at : Place → InventoryItem → Bool
is_at w i = i.tenant == w.tenant && i.store == w.store && i.product == w.product

-- `inventory.reorderPoint && stock <= inventory.reorderPoint`: a reorder point of 0 counts as none.
abbrev pub is_low : Option ℤ → ℤ → Bool
is_low none stock = false
is_low (some r) stock = not (leb_ℤ r (pos 0) && leb_ℤ (pos 0) r) && leb_ℤ stock r

abbrev pub stock_status : Option ℤ → ℤ → InventoryStatus
stock_status reorder stock =
    if leb_ℤ stock (pos 0)
    then out_of_stock
    else (if is_low reorder stock then low_stock else in_stock)

-- The `data` of the update; `reserved` is the reserved stock that was read.
abbrev pub adjusted : ℤ → InventoryItem → InventoryItem
adjusted stock i = record i {
  current_stock = stock;
  available_stock = max_ℤ (pos 0) (stock -ℤ i.reserved_stock);
  quantity = stock;
  status = stock_status i.reorder_point stock;
}

abbrev pub set_alerts : Bool → InventoryItem → InventoryItem
set_alerts sent i =
    if sent
    then record i { low_stock_alert_sent = true }
    else record i { low_stock_alert_sent = false; out_of_stock_alert_sent = false }

-- The low stock alert: it is sent once, and again only after the stock was back above the point.
low_stock_alert : ℕ → InventoryItem → ℤ → Action Db (Unit {0})
low_stock_alert key inventory stock =
    if is_low inventory.reorder_point stock
    then when (not inventory.low_stock_alert_sent) (do
      emit (inventory_low_stock inventory.product stock inventory.reorder_point)
      update_item key (set_alerts true)
      pure tt)
    else when inventory.low_stock_alert_sent (do update_item key (set_alerts false); pure tt)

unfoldable pub adjust_stock : Place → ℤ → MovementKind → Action Db InventoryItem
unfolding low_stock_alert
adjust_stock place quantity kind = do
  (key, inventory) ←
      or_throw (← gets (λ db. find_first (is_at place) db.inventory)) inventory_not_found
  let stock = inventory.current_stock +ℤ quantity
  throw_if (ltb_ℤ stock (pos 0)) insufficient_stock
  updated ← update_item key (adjusted stock)
  let movement : Movement = record {
    item = key;
    product = place.product;
    kind = kind;
    quantity = quantity;
    previous = inventory.current_stock;
    new = stock;
    order = none;
  }
  modify (λ db. record db { movements = db.movements ++ movement ∷ [] })
  modify (λ db. record db { stock_transactions = db.stock_transactions ++ movement ∷ [] })
  low_stock_alert key inventory stock
  pure updated

pub record StockCheck : Type 0 where
  pub available : Bool
  pub current_stock : ℤ
  pub available_stock : ℤ

unfoldable pub check_stock : Place → ℤ → Db → StockCheck
check_stock place requested db = elim (find_first (is_at place) db.inventory) [
  | none ↦ record { available = false; current_stock = pos 0; available_stock = pos 0 }
  | some (_, i) ↦ record {
    available = leb_ℤ requested i.available_stock;
    current_stock = i.current_stock;
    available_stock = i.available_stock;
  }
]

-- An item of an order: a product and how many of it.
pub record Line : Type 0 where
  pub product : ℕ
  pub quantity : ℤ

-- The products of which there is not enough, with what was asked for and what there is.
unfoldable pub unavailable : ℕ → ℕ → List Line → Db → List (ℕ × ℤ × ℤ)
unavailable tenant store [] db = []
unavailable tenant store (l ∷ ls) db =
    let result =
      check_stock (record { tenant = tenant; store = store; product = l.product }) l.quantity db in
    let rest = unavailable tenant store ls db in
    if not result.available then (l.product, l.quantity, result.available_stock) ∷ rest else rest

abbrev is_empty {ℓ} : {A : Type ℓ} → List A → Bool
is_empty [] = true
is_empty _ = false

-- `checkBulkAvailability`: `allAvailable` and `unavailable`
pub check_bulk_availability : ℕ → ℕ → List Line → Db → Bool × List (ℕ × ℤ × ℤ)
check_bulk_availability tenant store ls db =
    let missing = unavailable tenant store ls db in (is_empty missing, missing)

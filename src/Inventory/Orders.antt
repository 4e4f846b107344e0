-- ===== src/Inventory/Orders.antt =====
-- backend/src/services/inventory/InventoryOrder.service.ts. Every operation runs in a transaction, its
-- own or its caller's. What the product table says on `trackInventory` is a parameter.
pub mod Loop
pub mod Settle
pub mod Effects
pub mod Consistent
pub mod Reserve
pub mod RoundTrip
pub mod Once
pub mod Runs
pub mod Spares
use coffee_shop_saas_platfor.Prelude.{
  ℕ, ◌+◌, Bool, true, false, not, none, some, List, [], ◌∷◌, ◌++◌, ◌==◌, ◌&&◌, if◌then◌else◌,
}
use coffee_shop_saas_platfor.Int.{ℤ, pos, ◌+ℤ◌, ◌-ℤ◌, leb_ℤ, ltb_ℤ, max_ℤ}
use coffee_shop_saas_platfor.Table.{Table, find, find_first, find_many}
use coffee_shop_saas_platfor.Action.{
  Action, pure, or_throw, gets, modify, throw_if, transaction, for_each, ◌>>=◌, ◌>>◌,
  inventory_not_found, insufficient_stock, record_not_found,
}
use coffee_shop_saas_platfor.Schema.{
  InventoryItem, in_stock, out_of_stock, Reservation, ReservationStatus, active, committed,
  released, adjustment, sale, return, Movement, Db, Order,
}
use coffee_shop_saas_platfor.Store.{
  update_item, update_reservation, create_reservation, update_order, update_order_items,
}
use coffee_shop_saas_platfor.Inventory.Adjust.{Line, is_at}

-- Movement rows.
abbrev log_movement : Movement → Action Db (Unit {0})
log_movement m = modify (λ db. record db { movements = db.movements ++ m ∷ [] })

abbrev log_transaction : Movement → Action Db (Unit {0})
log_transaction m =
    modify (λ db. record db { stock_transactions = db.stock_transactions ++ m ∷ [] })

-- The `data` of the update of an item row by a reservation.
abbrev pub reserve_stock : ℤ → InventoryItem → InventoryItem
reserve_stock q i = record i {
  reserved_stock = i.reserved_stock +ℤ q;
  available_stock = i.available_stock -ℤ q;
  reserved_quantity = i.reserved_quantity +ℤ q;
}

abbrev pub new_reservation : ℕ → ℕ → Line → ℕ → Reservation
new_reservation item order line now = record {
  item = item;
  product = line.product;
  order = order;
  quantity = line.quantity;
  status = active;
  expires_at = now + 900000;
}

-- The body of the loop, for an item that has stock.
reserve_found : ℕ → Line → ℕ → InventoryItem → Action Db (Unit {0})
reserve_found order line key inventory = do
  throw_if (ltb_ℤ inventory.available_stock line.quantity) insufficient_stock
  update_item key (reserve_stock line.quantity)
  now ← gets (λ db. db.now)
  create_reservation (new_reservation key order line now)
  log_movement (record {
    item = key;
    product = line.product;
    kind = adjustment;
    quantity = pos 0 -ℤ line.quantity;
    previous = inventory.available_stock;
    new = inventory.available_stock -ℤ line.quantity;
    order = some order;
  })
  update_order_items (λ i. i.order == order && i.product == line.product)
      (λ i. record i { inventory_reserved = true })

-- Where no stock row is found: a product that is not tracked is passed over.
reserve_missing : Bool → Action Db (Unit {0})
reserve_missing tracked = throw_if tracked inventory_not_found

module _ (tracks : ℕ → Bool) (tenant store order : ℕ) where
  unfoldable pub reserve_line : Line → Action Db (Unit {0})
  unfolding reserve_found reserve_missing
  reserve_line line = do
    found ← gets (λ db.
        find_first (is_at (record { tenant = tenant; store = store; product = line.product }))
          db.inventory)
    elim found [
      | none ↦ reserve_missing (tracks line.product)
      | some (key, inventory) ↦ reserve_found order line key inventory
    ]

  unfoldable pub reserve_for_order : List Line → Action Db (Unit {0})
  reserve_for_order lines = transaction (for_each lines reserve_line)

abbrev pub is_active : ReservationStatus → Bool
is_active active = true
is_active _ = false

-- The reservations of an order that are still to be dealt with.
abbrev pub is_open : ℕ → Reservation → Bool
is_open order r = r.order == order && is_active r.status

abbrev pub mark_committed : Reservation → Reservation
mark_committed r = record r { status = committed }

abbrev pub mark_released : Reservation → Reservation
mark_released r = record r { status = released }

abbrev pub commit_stock : ℤ → ℤ → InventoryItem → InventoryItem
commit_stock q stock i = record i {
  current_stock = i.current_stock -ℤ q;
  reserved_stock = i.reserved_stock -ℤ q;
  quantity = i.quantity -ℤ q;
  reserved_quantity = i.reserved_quantity -ℤ q;
  status = if leb_ℤ stock (pos 0) then out_of_stock else in_stock;
}

abbrev pub release_stock : ℤ → ℤ → InventoryItem → InventoryItem
release_stock q available i = record i {
  reserved_stock = i.reserved_stock -ℤ q;
  available_stock = i.available_stock +ℤ q;
  reserved_quantity = i.reserved_quantity -ℤ q;
  status = if ltb_ℤ (pos 0) available then in_stock else out_of_stock;
}

-- `items` are the stock rows as the query read them, before the loop.
unfoldable pub commit_one : Table InventoryItem → ℕ × Reservation → Action Db (Unit {0})
commit_one items (k, r) = do
  item ← or_throw (find r.item items) record_not_found
  let stock = item.current_stock -ℤ r.quantity
  update_reservation k mark_committed
  update_item r.item (commit_stock r.quantity stock)
  let movement : Movement = record {
    item = r.item;
    product = r.product;
    kind = sale;
    quantity = pos 0 -ℤ r.quantity;
    previous = item.current_stock;
    new = max_ℤ (pos 0) stock;
    order = some r.order;
  }
  log_movement movement
  log_transaction movement

abbrev set_committed : Order → Order
set_committed o = record o { inventory_committed = true }

abbrev set_released : Order → Order
set_released o = record o { inventory_released = true }

pub commit_rows : ℕ → Table InventoryItem → Table Reservation → Action Db (Unit {0})
commit_rows order items [] = pure tt
commit_rows order items (r ∷ rs) = do
  for_each (r ∷ rs) (commit_one items)
  update_order order set_committed
  pure tt

unfoldable pub commit_for_order : ℕ → Action Db (Unit {0})
unfolding commit_rows
commit_for_order order = transaction (do
  items ← gets (λ db. db.inventory)
  rows ← gets (λ db. find_many (is_open order) db.reservations)
  commit_rows order items rows)

unfoldable pub release_one : Table InventoryItem → ℕ × Reservation → Action Db (Unit {0})
release_one items (k, r) = do
  item ← or_throw (find r.item items) record_not_found
  let available = item.available_stock +ℤ r.quantity
  update_reservation k mark_released
  update_item r.item (release_stock r.quantity available)
  log_movement (record {
    item = r.item;
    product = r.product;
    kind = return;
    quantity = r.quantity;
    previous = item.available_stock;
    new = available;
    order = some r.order;
  })
  update_order_items (λ i. i.order == r.order && i.product == r.product && not i.inventory_released)
      (λ i. record i { inventory_released = true })

pub release_rows : ℕ → Table InventoryItem → Table Reservation → Action Db (Unit {0})
release_rows order items [] = pure tt
release_rows order items (r ∷ rs) = do
  for_each (r ∷ rs) (release_one items)
  update_order order set_released
  pure tt

unfoldable pub release_for_order : ℕ → Action Db (Unit {0})
unfolding release_rows
release_for_order order = transaction (do
  items ← gets (λ db. db.inventory)
  rows ← gets (λ db. find_many (is_open order) db.reservations)
  release_rows order items rows)

abbrev pub deduct_stock : ℤ → InventoryItem → InventoryItem
deduct_stock stock i = record i {
  current_stock = stock;
  available_stock = max_ℤ (pos 0) (stock -ℤ i.reserved_stock);
  quantity = stock;
  status = if leb_ℤ stock (pos 0) then out_of_stock else in_stock;
}

deduct_found : ℕ → Line → ℕ → InventoryItem → Action Db (Unit {0})
deduct_found order line key inventory = do
  let stock = max_ℤ (pos 0) (inventory.current_stock -ℤ line.quantity)
  update_item key (deduct_stock stock)
  let movement : Movement = record {
    item = key;
    product = line.product;
    kind = sale;
    quantity = pos 0 -ℤ line.quantity;
    previous = inventory.current_stock;
    new = stock;
    order = some order;
  }
  log_movement movement
  log_transaction movement

unfoldable pub deduct_line : ℕ → ℕ → ℕ → Line → Action Db (Unit {0})
unfolding deduct_found
deduct_line tenant store order line = do
  found ← gets (λ db.
      find_first (is_at (record { tenant = tenant; store = store; product = line.product }))
        db.inventory)
  elim found [ none ↦ pure tt | some (key, inventory) ↦ deduct_found order line key inventory ]

unfoldable pub deduct_for_order : ℕ → ℕ → ℕ → List Line → Action Db (Unit {0})
deduct_for_order tenant store order lines =
    transaction (do
      for_each lines (deduct_line tenant store order)
      update_order order set_committed
      pure tt)

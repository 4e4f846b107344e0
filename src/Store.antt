-- ===== src/Store.antt =====
-- The calls of the Prisma client on single rows of `Db`, as actions: `update` throws when no row has
-- the key (Prisma's P2025).
use coffee_shop_saas_platfor.Prelude.{ℕ, Bool, suc, none, some, [], ◌∷◌, ◌++◌}
use coffee_shop_saas_platfor.Table.{find, update, update_many, create}
use coffee_shop_saas_platfor.Action.{Action, ok, err, record_not_found, modify}
use coffee_shop_saas_platfor.Schema.{
  Db, Order, OrderItem, Payment, Refund, InventoryItem, Reservation, Event,
}

-- `EventBus.emit`
abbrev pub emit : Event → Action Db (Unit {0})
emit e = modify (λ db. record db { events = db.events ++ e ∷ [] })

abbrev pub update_payment : ℕ → (Payment → Payment) → Action Db Payment
update_payment k f db = elim (find k db.payments) [
  | none ↦ (err record_not_found, db)
  | some p ↦ (ok (f p), record db { payments = update k f db.payments })
]

abbrev pub update_order : ℕ → (Order → Order) → Action Db Order
update_order k f db = elim (find k db.orders) [
  | none ↦ (err record_not_found, db)
  | some o ↦ (ok (f o), record db { orders = update k f db.orders })
]

abbrev pub update_refund : ℕ → (Refund → Refund) → Action Db Refund
update_refund k f db = elim (find k db.refunds) [
  | none ↦ (err record_not_found, db)
  | some r ↦ (ok (f r), record db { refunds = update k f db.refunds })
]

abbrev pub update_item : ℕ → (InventoryItem → InventoryItem) → Action Db InventoryItem
update_item k f db = elim (find k db.inventory) [
  | none ↦ (err record_not_found, db)
  | some i ↦ (ok (f i), record db { inventory = update k f db.inventory })
]

abbrev pub update_reservation : ℕ → (Reservation → Reservation) → Action Db Reservation
update_reservation k f db = elim (find k db.reservations) [
  | none ↦ (err record_not_found, db)
  | some r ↦ (ok (f r), record db { reservations = update k f db.reservations })
]

abbrev pub create_reservation : Reservation → Action Db ℕ
create_reservation r db = (
  ok db.next_key,
  record db { reservations = create db.next_key r db.reservations; next_key = suc db.next_key },
)

abbrev pub update_order_items : (OrderItem → Bool) → (OrderItem → OrderItem) → Action Db (Unit {0})
update_order_items q f = modify (λ db. record db { order_items = update_many q f db.order_items })

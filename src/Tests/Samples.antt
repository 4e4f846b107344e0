-- ===== src/Tests/Samples.antt =====
-- The rows and databases that the tests share.
use coffee_shop_saas_platfor.Prelude.{
  ◌≡◌, refl, arith, inl, inr, Bool-cases, ==_of_ne, ◌==◌, ℕ, none, some, [], ◌∷◌, false,
}
use mathlib.Core.Option.{some-injective}
use coffee_shop_saas_platfor.Int.{pos, int_laws}
use coffee_shop_saas_platfor.Table.{find}
use coffee_shop_saas_platfor.Inventory.Orders.Consistent.{IsBalanced, IsConsistent}
use coffee_shop_saas_platfor.Schema.{
  PaymentStatus, OrderStatus, RefundStatus, stripe, Order, OrderItem, Payment, Refund,
  InventoryItem, in_stock, Db, Reservation, active,
}

abbrev pub an_order : Order
an_order = record {
  tenant = 1;
  store = 2;
  status = OrderStatus.pending;
  payment_status = PaymentStatus.pending;
  subtotal = pos 900;
  tax_amount = pos 100;
  discount_amount = pos 0;
  service_charge = pos 0;
  total_amount = pos 1000;
  created_at = 0;
  inventory_committed = false;
  inventory_released = false;
}

abbrev pub an_item : OrderItem
an_item = record {
  order = 5;
  product = 7;
  quantity = pos 2;
  unit_price = pos 450;
  subtotal = pos 900;
  discount_amount = pos 0;
  final_price = pos 900;
  inventory_reserved = false;
  inventory_released = false;
}

-- A payment of 1000 for order 5, on its last retry.
abbrev pub a_payment : PaymentStatus → Payment
a_payment s = record {
  order = 5;
  amount = pos 1000;
  status = s;
  provider = stripe;
  provider_ref = some 77;
  expires_at = none;
  retries = 2;
  max_retries = 3;
  is_partial = false;
  paid_at = none;
  failed_at = none;
  last_retry_at = none;
  failure_code = none;
}

-- A requested refund of payment 9.
abbrev pub a_refund : ℕ → Refund
a_refund amount = record {
  payment = 9;
  order = 5;
  amount = pos amount;
  status = RefundStatus.requested;
  provider_ref = none;
  provider = stripe;
  processed_at = none;
  requires_approval = false;
}

-- Ten of product 7 in store 2.
abbrev pub a_stock_row : InventoryItem
a_stock_row = record {
  tenant = 1;
  store = 2;
  product = 7;
  quantity = pos 10;
  reserved_quantity = pos 0;
  current_stock = pos 10;
  reserved_stock = pos 0;
  available_stock = pos 10;
  reorder_point = some (pos 3);
  status = in_stock;
  low_stock_alert_sent = false;
  out_of_stock_alert_sent = false;
}

-- One order with its payment in the given status, and stock of its product.
abbrev pub a_shop : PaymentStatus → Db
a_shop s = record {
  orders = (5, an_order) ∷ [];
  order_items = (6, an_item) ∷ [];
  payments = (9, a_payment s) ∷ [];
  refunds = [];
  inventory = (4, a_stock_row) ∷ [];
  reservations = [];
  movements = [];
  stock_transactions = [];
  history = [];
  events = [];
  next_key = 20;
  now = 50;
}

-- Four of the ten are set aside for order 5.
abbrev pub held_row : InventoryItem
held_row = record a_stock_row {
  available_stock = pos 6;
  reserved_stock = pos 4;
  reserved_quantity = pos 4;
}

abbrev pub four_held : Reservation
four_held = record {
  item = 4;
  product = 7;
  order = 5;
  quantity = pos 4;
  status = active;
  expires_at = 99;
}

abbrev pub held_shop : Db
held_shop = record (a_shop PaymentStatus.paid) {
  inventory = (4, held_row) ∷ [];
  reservations = (15, four_held) ∷ [];
}

pub held_row-IsBalanced : IsBalanced held_row
held_row-IsBalanced = (omega int_laws, refl, refl, omega arith)

pub a_stock_row-IsBalanced : IsBalanced a_stock_row
a_stock_row-IsBalanced = (omega int_laws, refl, refl, omega arith)

-- A table of one row holds no other.
pub only_row : {A : Type 0} (k i : ℕ) (v a : A) → find i ((k, v) ∷ []) ≡ some a → (i ≡ k) × (v ≡ a)
only_row k i v a h = elim (Bool-cases (i == k)) [
  | inl same ↦ (ground arith, some-injective _ _ (ground arith))
  | inr other ↦ absurd (ground arith)
]

pub held_shop-IsConsistent : IsConsistent held_shop
held_shop-IsConsistent = record {
  balanced = λ i a h. rw (← (only_row 4 i held_row a h).1) held_row-IsBalanced;
  backed = λ i a h. let (key, row) = only_row 4 i held_row a h in rw (← row, key) (omega int_laws);
  items_keyed = (refl, tt);
  reservations_keyed = (refl, tt);
  nonneg = (omega arith, tt);
  unused = λ j le. rw (==_of_ne j 15 (λ e. omega (arith, le, e)));
}

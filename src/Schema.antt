-- ===== src/Schema.antt =====
-- The rows of the database (backend/prisma/schema.prisma) that the modelled services read and write.
-- Keys, names and times are numbers. Of each row the model keeps the columns that some decision or
-- some theorem depends on; copied descriptions (names, notes, reasons, snapshots) are left out.
use coffee_shop_saas_platfor.Prelude.{ℕ, Bool, Option, List, ◌==◌, some, none}
use coffee_shop_saas_platfor.Int.{ℤ}
use coffee_shop_saas_platfor.Table.{Table}

-- `enum PaymentStatus`
pub data PaymentStatus : Type 0 where
  unpaid pending processing authorized captured completed paid failed cancelled : PaymentStatus
  voided refunded partially_refunded expired retrying : PaymentStatus

-- The position in the enum, by which two statuses are compared.
abbrev pub payment_code : PaymentStatus → ℕ
payment_code unpaid = 0
payment_code pending = 1
payment_code processing = 2
payment_code authorized = 3
payment_code captured = 4
payment_code completed = 5
payment_code paid = 6
payment_code failed = 7
payment_code cancelled = 8
payment_code voided = 9
payment_code refunded = 10
payment_code partially_refunded = 11
payment_code expired = 12
payment_code retrying = 13

-- `===` on payment statuses
abbrev pub is_payment : PaymentStatus → PaymentStatus → Bool
is_payment s t = payment_code s == payment_code t

-- `enum OrderStatus`
pub data OrderStatus : Type 0 where
  pending paid preparing ready completed payment_failed cancelled : OrderStatus

abbrev pub order_code : OrderStatus → ℕ
order_code pending = 0
order_code paid = 1
order_code preparing = 2
order_code ready = 3
order_code completed = 4
order_code payment_failed = 5
order_code cancelled = 6

abbrev pub is_order : OrderStatus → OrderStatus → Bool
is_order s t = order_code s == order_code t

-- The statuses of a refund that the code writes; the schema has `REFUNDED`, `PENDING`, `APPROVED`
-- and `REJECTED` besides, and has no `CANCELLED`.
pub data RefundStatus : Type 0 where
  requested processing completed failed cancelled : RefundStatus
  refunded pending approved rejected : RefundStatus

abbrev pub refund_code : RefundStatus → ℕ
refund_code requested = 0
refund_code processing = 1
refund_code completed = 2
refund_code failed = 3
refund_code cancelled = 4
refund_code refunded = 5
refund_code pending = 6
refund_code approved = 7
refund_code rejected = 8

abbrev pub is_refund : RefundStatus → RefundStatus → Bool
is_refund s t = refund_code s == refund_code t

-- `enum InventoryStatus`
pub data InventoryStatus : Type 0 where
  in_stock low_stock out_of_stock discontinued backordered : InventoryStatus

pub data ReservationStatus : Type 0 where
  active committed released expired : ReservationStatus

pub record Order : Type 0 where
  pub tenant : ℕ
  pub store : ℕ
  pub status : OrderStatus
  pub payment_status : PaymentStatus
  pub subtotal : ℤ
  pub tax_amount : ℤ
  pub discount_amount : ℤ
  pub service_charge : ℤ
  pub total_amount : ℤ
  pub created_at : ℕ
  pub inventory_committed : Bool
  pub inventory_released : Bool

pub record OrderItem : Type 0 where
  pub order : ℕ
  pub product : ℕ
  pub quantity : ℤ
  pub unit_price : ℤ
  pub subtotal : ℤ
  pub discount_amount : ℤ
  pub final_price : ℤ
  pub inventory_reserved : Bool
  pub inventory_released : Bool

pub data Provider : Type 0 where
  stripe wallet evc_plus : Provider

-- `enum NormalizedProviderError`
pub data NormalizedProviderError : Type 0 where
  insufficient_funds card_declined provider_timeout provider_unavailable : NormalizedProviderError
  fraud_suspected authentication_required card_expired : NormalizedProviderError
  invalid_amount network_error invalid_cvv amount_too_large : NormalizedProviderError
  amount_too_small currency_not_supported duplicate_transaction : NormalizedProviderError
  wallet_disabled unknown_error : NormalizedProviderError

-- A failure code as the code passes it on: a string, which may name a value of the enum. The two
-- strings that the code itself gives, `PROVIDER_DECLINED` and `MAX_RETRIES_EXCEEDED`, do not.
pub data FailureCode : Type 0 where
  normalized : NormalizedProviderError → FailureCode
  provider_declined max_retries_exceeded : FailureCode
  other : ℕ → FailureCode

-- What the client accepts in the column `failureCode`.
abbrev pub enum_code : FailureCode → Option NormalizedProviderError
enum_code (normalized c) = some c
enum_code _ = none

pub record Payment : Type 0 where
  pub order : ℕ
  pub amount : ℤ
  pub status : PaymentStatus
  pub provider : Provider
  pub provider_ref : Option ℕ
  pub expires_at : Option ℕ
  pub retries : ℕ
  pub max_retries : ℕ
  pub is_partial : Bool
  pub paid_at : Option ℕ
  pub failed_at : Option ℕ
  pub last_retry_at : Option ℕ
  pub failure_code : Option NormalizedProviderError

pub record Refund : Type 0 where
  pub payment : ℕ
  pub order : ℕ
  pub amount : ℤ
  pub status : RefundStatus
  pub provider_ref : Option ℕ
  pub provider : Provider
  pub processed_at : Option ℕ
  pub requires_approval : Bool

pub record InventoryItem : Type 0 where
  pub tenant : ℕ
  pub store : ℕ
  pub product : ℕ
  pub quantity : ℤ
  pub reserved_quantity : ℤ
  pub current_stock : ℤ
  pub reserved_stock : ℤ
  pub available_stock : ℤ
  pub reorder_point : Option ℤ
  pub status : InventoryStatus
  pub low_stock_alert_sent : Bool
  pub out_of_stock_alert_sent : Bool

pub record Reservation : Type 0 where
  pub item : ℕ
  pub product : ℕ
  pub order : ℕ
  pub quantity : ℤ
  pub status : ReservationStatus
  pub expires_at : ℕ

pub data MovementKind : Type 0 where
  restock adjustment waste damage transfer return sale : MovementKind

-- A row of `InventoryMovement` or of `InventoryTransaction`; `order` is set where the row refers to
-- an order.
pub record Movement : Type 0 where
  pub item : ℕ
  pub product : ℕ
  pub kind : MovementKind
  pub quantity : ℤ
  pub previous : ℤ
  pub new : ℤ
  pub order : Option ℕ

-- A row of `OrderStatusHistory`, without the duration for reports.
pub record StatusChange : Type 0 where
  pub order : ℕ
  pub from : OrderStatus
  pub to : OrderStatus

-- What the services hand to the event bus, with the keys and amounts of the payload.
pub data Event : Type 0 where
  payment_confirmed : ℕ → ℕ → ℤ → Event
  payment_failed : ℕ → ℕ → FailureCode → Event
  payment_cancelled : ℕ → ℕ → Event
  refund_processing : ℕ → Event
  refund_completed : ℕ → ℕ → ℤ → Event
  refund_failed : ℕ → Event
  order_status_changed : ℕ → OrderStatus → OrderStatus → Event
  order_cancelled : ℕ → Event
  order_cancelled_after_payment : ℕ → Option ℕ → ℤ → Event
  order_item_removed : ℕ → ℕ → ℤ → Event
  order_item_quantity_updated : ℕ → ℕ → ℤ → ℤ → Event
  inventory_low_stock : ℕ → ℤ → Option ℤ → Event

-- The database, the event log and the clock, which stands still during one call. The key of a new
-- row is `next_key`.
pub record Db : Type 0 where
  pub orders : Table Order
  pub order_items : Table OrderItem
  pub payments : Table Payment
  pub refunds : Table Refund
  pub inventory : Table InventoryItem
  pub reservations : Table Reservation
  pub movements : List Movement
  pub stock_transactions : List Movement
  pub history : List StatusChange
  pub events : List Event
  pub next_key : ℕ
  pub now : ℕ

-- ===== src/CashDrawer/Rows.antt =====
-- The rows of drawers, drops and counts that backend/src/services/staff/CashDrawer.service.ts reads and
-- writes, what it asks of a row, and the new rows and changes of rows that it writes.
use coffee_shop_saas_platfor.Prelude.{
  ℕ, Bool, true, false, Option, none, some, List, ◌==◌, ◌&&◌, leb, if◌then◌else◌,
}
use coffee_shop_saas_platfor.Int.{ℤ, pos, negsuc, ◌+ℤ◌, ◌-ℤ◌, ◌*ℤ◌, ltb_ℤ}
use coffee_shop_saas_platfor.Table.{Table}
use coffee_shop_saas_platfor.Schema.{PaymentStatus, is_payment}

-- `enum DrawerStatus`
pub data DrawerStatus : Type 0 where
  open_ closed reconciled deposited reconciling : DrawerStatus

abbrev pub is_open : DrawerStatus → Bool
is_open open_ = true
is_open _ = false

pub record Drawer : Type 0 where
  pub store : ℕ
  pub user : ℕ
  pub status : DrawerStatus
  pub opened_at : ℕ
  pub starting_cash : ℤ
  pub expected_cash : ℤ
  pub actual_cash : Option ℤ
  pub variance : Option ℤ
  pub variance_approved : Bool
  pub total_sales : ℤ
  pub cash_sales : Option ℤ
  pub refunds : Option ℤ

pub record CashPayment : Type 0 where
  pub store : ℕ
  pub is_cash : Bool
  pub status : PaymentStatus
  pub created_at : ℕ
  pub amount : ℤ

pub record Drop : Type 0 where
  pub drawer : ℕ
  pub amount : ℤ
  pub verified_by : Option ℕ

-- A row of `CashCount`, with its sums.
pub record Count : Type 0 where
  pub drawer : ℕ
  pub closing : Bool
  pub coins : ℤ
  pub bills : ℤ
  pub total : ℤ

pub data TillEvent : Type 0 where
  drawer_opened drop_created : ℕ → TillEvent
  variance_needs_approval drawer_closed : ℕ → ℤ → TillEvent

pub record Till : Type 0 where
  pub drawers : Table Drawer
  pub drops : Table Drop
  pub counts : List Count
  pub payments : Table CashPayment
  pub requests : List (ℕ × ℤ)
  pub events : List TillEvent
  pub next_key : ℕ
  pub now : ℕ

-- The open drawer of a user in a store.
abbrev pub is_drawer_of : ℕ → ℕ → Drawer → Bool
is_drawer_of user store d = d.user == user && d.store == store && is_open d.status

-- The row that `openDrawer` creates; what it does not set has the schema's default.
abbrev pub new_drawer : ℕ → ℕ → ℤ → ℕ → Drawer
new_drawer user store cash now = record {
  store = store;
  user = user;
  status = open_;
  opened_at = now;
  starting_cash = cash;
  expected_cash = pos 0;
  actual_cash = none;
  variance = none;
  variance_approved = false;
  total_sales = pos 0;
  cash_sales = none;
  refunds = none;
}

abbrev pub is_some {ℓ} : {A : Type ℓ} → Option A → Bool
is_some none = false
is_some (some _) = true

-- The `where` of the two sums over the payments of a session.
abbrev pub cash_of : PaymentStatus → Drawer → CashPayment → ℤ
cash_of status d p =
    if p.store == d.store && p.is_cash && is_payment p.status status && leb d.opened_at p.created_at
    then p.amount
    else pos 0

abbrev pub drop_of : ℕ → Drop → ℤ
drop_of k d = if d.drawer == k then d.amount else pos 0

-- `Math.abs(variance) > 500`
abbrev pub needs_approval : ℤ → Bool
needs_approval variance = if ltb_ℤ (pos 500) variance then true else ltb_ℤ variance (negsuc 499)

-- The `data` of the update that closes a drawer.
abbrev pub closed_as : ℤ → ℤ → ℤ → ℤ → Drawer → Drawer
closed_as expected actual sales refunded d = record d {
  status = if needs_approval (actual -ℤ expected) then reconciling else closed;
  expected_cash = expected;
  actual_cash = some actual;
  variance = some (actual -ℤ expected);
  total_sales = sales;
  cash_sales = some sales;
  refunds = some refunded;
}

-- How many there are of each coin and note; `count.x || 0` where one is not given.
pub record Cash : Type 0 where
  pub pennies : ℤ
  pub nickels : ℤ
  pub dimes : ℤ
  pub quarters : ℤ
  pub ones : ℤ
  pub fives : ℤ
  pub tens : ℤ
  pub twenties : ℤ
  pub fifties : ℤ
  pub hundreds : ℤ

pub coins_of : Cash → ℤ
coins_of c = c.pennies *ℤ pos 1 +ℤ c.nickels *ℤ pos 5 +ℤ c.dimes *ℤ pos 10 +ℤ c.quarters *ℤ pos 25

pub bills_of : Cash → ℤ
bills_of c =
    c.ones *ℤ pos 100
    +ℤ c.fives *ℤ pos 500
    +ℤ c.tens *ℤ pos 1000
    +ℤ c.twenties *ℤ pos 2000
    +ℤ c.fifties *ℤ pos 5000
    +ℤ c.hundreds *ℤ pos 10000

abbrev pub set_verified : ℕ → Drop → Drop
set_verified by d = record d { verified_by = some by }

abbrev pub set_approved : Drawer → Drawer
set_approved d = record d { status = closed; variance_approved = true }

-- ===== src/TimeEntry/Rows.antt =====
-- The rows of time entries, breaks and shifts that backend/src/services/staff/TimeEntry.service.ts
-- reads and writes, what it asks of a row, and the new rows and changes of rows that it writes.
use coffee_shop_saas_platfor.Prelude.{
  ℕ, ◌-◌, ◌/◌, Bool, true, false, not, Option, none, some, List, [], ◌∷◌, ◌==◌, ◌&&◌, ◌||◌, ltb,
  if◌then◌else◌,
}
use coffee_shop_saas_platfor.Prelude.{◌+◌}
use coffee_shop_saas_platfor.Table.{Table, find}

-- `enum ShiftStatus`
pub data ShiftStatus : Type 0 where
  scheduled in_progress completed cancelled no_show : ShiftStatus

pub record Shift : Type 0 where
  pub scheduled_start : ℕ
  pub status : ShiftStatus
  pub actual_start : Option ℕ
  pub actual_end : Option ℕ

pub record UserStore : Type 0 where
  pub user : ℕ
  pub store : ℕ
  pub tenant : ℕ
  pub is_active : Bool

pub record TenantUser : Type 0 where
  pub tenant : ℕ
  pub user : ℕ
  pub pay_rate : Option ℕ

-- A coordinate, in units of which 0 is one.
pub record Place : Type 0 where
  pub latitude : ℕ
  pub longitude : ℕ

-- Where a store is, if both coordinates are known.
pub record Store : Type 0 where
  pub place : Option Place

pub data ApprovalReason : Type 0 where
  late : ℕ → ApprovalReason
  geofence : ApprovalReason

pub record TimeEntry : Type 0 where
  pub tenant : ℕ
  pub store : ℕ
  pub user : ℕ
  pub shift : Option ℕ
  pub clock_in_at : ℕ
  pub clock_out_at : Option ℕ
  pub clock_in_distance : Option ℕ
  pub break_minutes : Option ℕ
  pub requires_approval : Bool
  pub approval_reason : Option ApprovalReason
  pub approved_by : Option ℕ
  pub pay_rate : Option ℕ
  pub total_pay : Option ℕ
  pub sync_conflict : Bool

-- `enum BreakType`
pub data BreakType : Type 0 where
  paid unpaid meal : BreakType

pub record BreakEntry : Type 0 where
  pub entry : ℕ
  pub shift : Option ℕ
  pub start : ℕ
  pub end_ : Option ℕ
  pub break_type : BreakType
  pub duration : Option ℕ

-- A row of `StaffApprovalRequest`, for a missed clock-out.
pub record ApprovalRequest : Type 0 where
  pub tenant : ℕ
  pub store : ℕ
  pub requested_by : ℕ
  pub entry : ℕ

pub data StaffEvent : Type 0 where
  clocked_in : ℕ → Bool → StaffEvent
  clocked_out : ℕ → ℕ → StaffEvent

pub record Clock : Type 0 where
  pub user_stores : Table UserStore
  pub tenant_users : Table TenantUser
  pub stores : Table Store
  pub shifts : Table Shift
  pub entries : Table TimeEntry
  pub breaks : Table BreakEntry
  pub requests : List ApprovalRequest
  pub events : List StaffEvent
  pub next_key : ℕ
  pub now : ℕ

abbrev pub is_none {ℓ} : {A : Type ℓ} → Option A → Bool
is_none none = true
is_none (some _) = false

abbrev is_shift : Option ℕ → ℕ → Bool
is_shift none k = false
is_shift (some j) k = j == k

abbrev pub is_for_shift : ℕ → TimeEntry → Bool
is_for_shift k e = is_shift e.shift k

abbrev pub is_access : ℕ → ℕ → UserStore → Bool
is_access user store u = u.user == user && u.store == store

-- The row that gives access, unless it is inactive.
abbrev pub access_of : Option (ℕ × UserStore) → Option UserStore
access_of none = none
access_of (some (_, u)) = if u.is_active then some u else none

abbrev pub is_open : TimeEntry → Bool
is_open e = is_none e.clock_out_at

abbrev pub is_open_of : ℕ → ℕ → TimeEntry → Bool
is_open_of user store e = e.user == user && e.store == store && is_open e

abbrev pub place_of : Option Store → Option Place
place_of none = none
place_of (some s) = s.place

-- `if (input.latitude && input.longitude)`: a coordinate of 0 counts as none.
abbrev pub is_given : Place → Bool
is_given p = not (p.latitude == 0) && not (p.longitude == 0)

abbrev is_far : Option ℕ → Bool
is_far none = false
is_far (some d) = ltb 100 d

abbrev pub minutes : ℕ → ℕ
minutes ms = ms / 60000

-- By how many minutes a clocking-in at `now` is late for the shift.
abbrev pub late_by : Option Shift → ℕ → Option ℕ
late_by none now = none
late_by (some s) now =
    if ltb 5 (minutes (now - s.scheduled_start))
    then some (minutes (now - s.scheduled_start))
    else none

abbrev reason_for : Option ℕ → Bool → Option ApprovalReason
reason_for (some m) _ = some (late m)
reason_for none true = some geofence
reason_for none false = none

abbrev pub find_shift : Option ℕ → Clock → Option Shift
find_shift none c = none
find_shift (some k) c = find k c.shifts

-- The key of a shift that was found.
abbrev pub found_key : Option ℕ → Option Shift → Option ℕ
found_key k none = none
found_key k (some _) = k

abbrev pub is_paid_by : ℕ → ℕ → TenantUser → Bool
is_paid_by tenant user t = t.tenant == tenant && t.user == user

abbrev pub rate_of : Option (ℕ × TenantUser) → Option ℕ
rate_of none = none
rate_of (some (_, t)) = t.pay_rate

abbrev pub new_entry : ℕ → ℕ → ℕ → Option ℕ → Option ℕ → Option ℕ → Option ℕ → ℕ → TimeEntry
new_entry tenant user store shift far late_minutes rate now = record {
  tenant = tenant;
  store = store;
  user = user;
  shift = shift;
  clock_in_at = now;
  clock_out_at = none;
  clock_in_distance = far;
  break_minutes = none;
  requires_approval = not (is_none late_minutes) || is_far far;
  approval_reason = reason_for late_minutes (is_far far);
  approved_by = none;
  pay_rate = rate;
  total_pay = none;
  sync_conflict = false;
}

abbrev pub begin_shift : ℕ → Shift → Shift
begin_shift now s = record s { status = in_progress; actual_start = some now }

abbrev pub is_break_of : ℕ → BreakEntry → Bool
is_break_of k b = b.entry == k

-- `if (!b.breakEnd) return sum`
abbrev break_of : BreakEntry → ℕ
break_of b = elim b.end_ [ none ↦ 0 | some at ↦ minutes (at - b.start) ]

abbrev pub total_of : Table BreakEntry → ℕ
total_of [] = 0
total_of ((_, b) ∷ t) = break_of b + total_of t

abbrev pub rate_or_zero : Option ℕ → ℕ
rate_or_zero none = 0
rate_or_zero (some r) = r

abbrev pub closed_as : ℕ → ℕ → ℕ → TimeEntry → TimeEntry
closed_as now rest pay e = record e {
  clock_out_at = some now;
  break_minutes = some rest;
  total_pay = some pay;
}

abbrev pub end_shift : ℕ → Shift → Shift
end_shift now s = record s { status = completed; actual_end = some now }

abbrev pub is_taken : BreakEntry → Bool
is_taken b = is_none b.end_

abbrev pub is_taken_of : ℕ → BreakEntry → Bool
is_taken_of k b = b.entry == k && is_taken b

abbrev pub new_break : ℕ → TimeEntry → BreakType → ℕ → BreakEntry
new_break k e kind now = record {
  entry = k;
  shift = e.shift;
  start = now;
  end_ = none;
  break_type = kind;
  duration = none;
}

abbrev pub ended_at : ℕ → BreakEntry → BreakEntry
ended_at now b = record b { end_ = some now; duration = some (minutes (now - b.start)) }

abbrev pub set_approved : ℕ → TimeEntry → TimeEntry
set_approved by e = record e { requires_approval = false; approved_by = some by }

abbrev pub set_conflict : TimeEntry → TimeEntry
set_conflict e = record e { sync_conflict = true; requires_approval = true }

abbrev pub request_for : ℕ → TimeEntry → ApprovalRequest
request_for k e = record { tenant = e.tenant; store = e.store; requested_by = e.user; entry = k }

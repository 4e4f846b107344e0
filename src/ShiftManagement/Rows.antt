-- ===== src/ShiftManagement/Rows.antt =====
-- The rows of shifts and swaps that backend/src/services/staff/ShiftManagement.service.ts reads and
-- writes, the query for conflicts, and the new rows and changes of rows that it writes.
use coffee_shop_saas_platfor.Prelude.{
  ℕ, ◌-◌, Bool, true, false, not, Option, none, some, List, [], ◌∷◌, ◌==◌, ◌&&◌, ◌||◌, ltb, leb,
  if◌then◌else◌,
}
use coffee_shop_saas_platfor.Table.{Table, find_many}
use coffee_shop_saas_platfor.TimeEntry.Rows.{UserStore, ShiftStatus, scheduled, cancelled}

pub record RosterShift : Type 0 where
  pub tenant : ℕ
  pub store : ℕ
  pub user : ℕ
  pub start : ℕ
  pub end_ : ℕ
  pub status : ShiftStatus
  pub required_breaks : ℕ
  pub break_duration : ℕ

-- `enum SwapStatus`, of which the code writes three.
pub data SwapStatus : Type 0 where
  pending approved rejected : SwapStatus

pub record Swap : Type 0 where
  pub shift : ℕ
  pub requested_by : ℕ
  pub requested_with : Option ℕ
  pub status : SwapStatus
  pub manager : Option ℕ

pub data ShiftEvent : Type 0 where
  shift_created shift_cancelled swap_requested : ℕ → ShiftEvent

pub record Roster : Type 0 where
  pub user_stores : Table UserStore
  pub shifts : Table RosterShift
  pub swaps : Table Swap
  pub events : List ShiftEvent
  pub next_key : ℕ

abbrev pub is_cancelled : ShiftStatus → Bool
is_cancelled cancelled = true
is_cancelled _ = false

-- The three alternatives of the query: the new shift starts during the old one, ends during it, or
-- contains it.
abbrev starts_during : ℕ → RosterShift → Bool
starts_during start s = leb s.start start && leb start s.end_

abbrev ends_during : ℕ → RosterShift → Bool
ends_during end_ s = leb s.start end_ && leb end_ s.end_

abbrev is_within : ℕ → ℕ → RosterShift → Bool
is_within start end_ s = leb start s.start && leb s.end_ end_

abbrev pub is_conflict : ℕ → ℕ → ℕ → RosterShift → Bool
is_conflict user start end_ s =
    s.user == user
    && not (is_cancelled s.status)
    && (starts_during start s || ends_during end_ s || is_within start end_ s)

-- `uuid: { not: excludeShiftUuid }`
abbrev pub without {ℓ} : {A : Type ℓ} → Option ℕ → Table A → Table A
without none t = t
without (some k) [] = []
without (some k) ((j, v) ∷ t) = if k == j then without (some k) t else (j, v) ∷ without (some k) t

abbrev pub check_shift_conflicts : ℕ → ℕ → ℕ → Option ℕ → Roster → Table RosterShift
check_shift_conflicts user start end_ exclude r =
    find_many (is_conflict user start end_) (without exclude r.shifts)

abbrev pub is_empty {ℓ} : {A : Type ℓ} → List A → Bool
is_empty [] = true
is_empty (_ ∷ _) = false

abbrev or_zero : Option ℕ → ℕ
or_zero none = 0
or_zero (some n) = n

abbrev max_of : ℕ → ℕ → ℕ
max_of a b = if ltb a b then b else a

-- Two breaks from eight hours on, one from six hours on.
abbrev breaks_for : ℕ → ℕ → ℕ
breaks_for ms asked =
    if leb 28800000 ms then max_of asked 2 else if leb 21600000 ms then max_of asked 1 else asked

-- `input.breakDuration || 30`
abbrev duration_or : Option ℕ → ℕ
duration_or none = 30
duration_or (some n) = if n == 0 then 30 else n

abbrev pub new_shift : ℕ → ℕ → ℕ → ℕ → ℕ → Option ℕ → Option ℕ → RosterShift
new_shift tenant store user start end_ breaks duration = record {
  tenant = tenant;
  store = store;
  user = user;
  start = start;
  end_ = end_;
  status = scheduled;
  required_breaks = breaks_for (end_ - start) (or_zero breaks);
  break_duration = duration_or duration;
}

abbrev pub or_old {ℓ} : {A : Type ℓ} → Option A → A → A
or_old none a = a
or_old (some a) _ = a

-- Whether a rescheduling conflicts, where one is asked for.
abbrev pub conflicts_of : Option ℕ → Option ℕ → ℕ → RosterShift → Roster → Table RosterShift
conflicts_of none none k s r = []
conflicts_of (some start) end_ k s r =
    check_shift_conflicts s.user start (or_old end_ s.end_) (some k) r
conflicts_of none (some end_) k s r = check_shift_conflicts s.user s.start end_ (some k) r

abbrev pub changed : Option ℕ → Option ℕ → Option ShiftStatus → RosterShift → RosterShift
changed start end_ status s = record s {
  start = or_old start s.start;
  end_ = or_old end_ s.end_;
  status = or_old status s.status;
}

abbrev pub set_status : ShiftStatus → RosterShift → RosterShift
set_status status s = record s { status = status }

abbrev pub is_scheduled : ShiftStatus → Bool
is_scheduled scheduled = true
is_scheduled _ = false

abbrev pub responded : ℕ → Bool → Swap → Swap
responded manager yes' s = record s {
  status = if yes' then approved else rejected;
  manager = some manager;
}

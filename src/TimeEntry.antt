-- ===== src/TimeEntry.antt =====
-- Time entries: `TimeEntryService` of backend/src/services/staff/TimeEntry.service.ts. Parameters stand
-- for the floating-point code: `distance` for `calculateDistance`, in metres rounded up, and `pay_for`
-- for the pay of a time worked, in milliseconds, at an hourly rate. Devices, the position on clocking
-- out, the hours worked as they are displayed, and what is logged are left out. Differences of times
-- stop at 0 where the code's turn negative.
pub mod Effects
pub mod Single
pub mod Pay
pub mod Settled
pub mod Breaks
pub mod Rows
use coffee_shop_saas_platfor.Prelude.{
  ℕ, suc, ◌-◌, not, Option, none, some, List, [], ◌∷◌, ◌++◌, if◌then◌else◌,
}
use coffee_shop_saas_platfor.Prelude.{◌+◌}
use coffee_shop_saas_platfor.Table.{find, find_first, find_many, update, create}
use coffee_shop_saas_platfor.Action.{
  Action, ok, err, pure, or_throw, gets, modify, throw_if, ◌>>=◌, ◌>>◌, record_not_found,
  unique_violation, foreign_key_violation, staff_no_store_access, already_clocked_in,
  not_clocked_in, already_on_break, time_entry_not_found, break_not_found, break_already_ended,
}
use coffee_shop_saas_platfor.TimeEntry.Rows.{
  Shift, Place, TimeEntry, BreakType, BreakEntry, StaffEvent, clocked_in, clocked_out, Clock,
  is_none, is_for_shift, is_access, access_of, is_open_of, place_of, is_given, late_by, find_shift,
  found_key, is_paid_by, rate_of, new_entry, begin_shift, is_break_of, total_of, rate_or_zero,
  closed_as, end_shift, is_taken, is_taken_of, new_break, ended_at, set_approved, set_conflict,
  request_for,
}

-- `timeEntry.create`: `shiftUuid` is unique, and the shift must exist where one is named.
insert_entry : TimeEntry → Action Clock ℕ
insert_entry e c =
    (ok c.next_key, record c { entries = create c.next_key e c.entries; next_key = suc c.next_key })

create_entry_for : Option ℕ → TimeEntry → Action Clock ℕ
unfolding insert_entry
create_entry_for none e = insert_entry e
create_entry_for (some k) e = do
  taken ← gets (λ c. find_first (is_for_shift k) c.entries)
  throw_if (not (is_none taken)) unique_violation
  shift ← gets (λ c. find k c.shifts)
  throw_if (is_none shift) foreign_key_violation
  insert_entry e

unfoldable pub create_entry : TimeEntry → Action Clock ℕ
unfolding create_entry_for
create_entry e = create_entry_for e.shift e

update_entry : ℕ → (TimeEntry → TimeEntry) → Action Clock TimeEntry
update_entry k f c = elim (find k c.entries) [
  | none ↦ (err record_not_found, c)
  | some e ↦ (ok (f e), record c { entries = update k f c.entries })
]

update_break : ℕ → (BreakEntry → BreakEntry) → Action Clock BreakEntry
update_break k f c = elim (find k c.breaks) [
  | none ↦ (err record_not_found, c)
  | some b ↦ (ok (f b), record c { breaks = update k f c.breaks })
]

-- `if (shift) await prisma.shift.update(...)`, for a shift that was read by its key.
abbrev set_shift : Option ℕ → (Shift → Shift) → Action Clock (Unit {0})
set_shift none f = pure tt
set_shift (some k) f = modify (λ c. record c { shifts = update k f c.shifts })

abbrev announce : StaffEvent → Action Clock (Unit {0})
announce e = modify (λ c. record c { events = c.events ++ e ∷ [] })

module _ (distance : Place → Place → ℕ) where
  abbrev pub distance_of : Option Place → Option Place → Option ℕ
  distance_of (some p) (some s) = if is_given p then some (distance p s) else none
  distance_of _ _ = none

unfoldable pub clock_in : (Place → Place → ℕ) → ℕ → ℕ → Option Place → Option ℕ → Action Clock ℕ
clock_in distance user store place shift_key = do
  access ← gets (λ c. find_first (is_access user store) c.user_stores)
  u ← or_throw (access_of access) staff_no_store_access
  existing ← gets (λ c. find_first (is_open_of user store) c.entries)
  throw_if (not (is_none existing)) already_clocked_in
  row ← gets (λ c. find store c.stores)
  let far = distance_of distance place (place_of row)
  now ← gets (λ c. c.now)
  shift ← gets (find_shift shift_key)
  let late_minutes = late_by shift now
  paid_by ← gets (λ c. find_first (is_paid_by u.tenant user) c.tenant_users)
  entry ←
      create_entry (new_entry u.tenant user store shift_key far late_minutes (rate_of paid_by) now)
  set_shift (found_key shift_key shift) (begin_shift now)
  announce (clocked_in entry (not (is_none late_minutes)))
  pure entry

unfoldable pub clock_out : (ℕ → ℕ → ℕ) → ℕ → ℕ → Action Clock TimeEntry
unfolding update_entry
clock_out pay_for user store = do
  (k, entry) ← or_throw (← gets (λ c. find_first (is_open_of user store) c.entries)) not_clocked_in
  now ← gets (λ c. c.now)
  breaks ← gets (λ c. find_many (is_break_of k) c.breaks)
  let pay = pay_for (now - entry.clock_in_at) (rate_or_zero entry.pay_rate)
  updated ← update_entry k (closed_as now (total_of breaks) pay)
  set_shift entry.shift (end_shift now)
  announce (clocked_out k pay)
  pure updated

insert_break : BreakEntry → Action Clock ℕ
insert_break b c =
    (ok c.next_key, record c { breaks = create c.next_key b c.breaks; next_key = suc c.next_key })

unfoldable pub start_break : ℕ → BreakType → Action Clock ℕ
unfolding insert_break
start_break k kind = do
  taken ← gets (λ c. find_first (is_taken_of k) c.breaks)
  throw_if (not (is_none taken)) already_on_break
  entry ← or_throw (← gets (λ c. find k c.entries)) time_entry_not_found
  now ← gets (λ c. c.now)
  insert_break (new_break k entry kind now)

unfoldable pub end_break : ℕ → Action Clock BreakEntry
unfolding update_break
end_break k = do
  b ← or_throw (← gets (λ c. find k c.breaks)) break_not_found
  throw_if (not (is_taken b)) break_already_ended
  now ← gets (λ c. c.now)
  update_break k (ended_at now)

unfoldable pub approve_time_entry : ℕ → ℕ → Action Clock TimeEntry
unfolding update_entry
approve_time_entry k by = update_entry k (set_approved by)

abbrev request_approval : ℕ → Option TimeEntry → Action Clock (Unit {0})
request_approval k none = pure tt
request_approval k (some e) =
    modify (λ c. record c { requests = c.requests ++ request_for k e ∷ [] })

unfoldable pub handle_sync_conflict : ℕ → Action Clock (Unit {0})
unfolding update_entry
handle_sync_conflict k = do
  update_entry k set_conflict
  entry ← gets (λ c. find k c.entries)
  request_approval k entry

pub data ClockCall : Type 0 where
  clocks_in : ℕ → ℕ → Option Place → Option ℕ → ClockCall
  clocks_out : ℕ → ℕ → ClockCall
  starts : ℕ → BreakType → ClockCall
  ends : ℕ → ClockCall
  approves : ℕ → ℕ → ClockCall
  conflicts : ℕ → ClockCall
  -- time that passes before the next call
  waits : ℕ → ClockCall

module _ (distance : Place → Place → ℕ) (pay_for : ℕ → ℕ → ℕ) where
  -- The calls of the controllers; a throw ends the call.
  unfoldable pub clock_step : ClockCall → Clock → Clock
  clock_step (clocks_in user store place shift) c = (clock_in distance user store place shift c).1
  clock_step (clocks_out user store) c = (clock_out pay_for user store c).1
  clock_step (starts k kind) c = (start_break k kind c).1
  clock_step (ends k) c = (end_break k c).1
  clock_step (approves k by) c = (approve_time_entry k by c).1
  clock_step (conflicts k) c = (handle_sync_conflict k c).1
  clock_step (waits n) c = record c { now = c.now + n }

  unfoldable pub clock_run : List ClockCall → Clock → Clock
  clock_run [] c = c
  clock_run (x ∷ xs) c = clock_run xs (clock_step x c)

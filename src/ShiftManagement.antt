-- ===== src/ShiftManagement.antt =====
-- Shifts: `ShiftManagementService` of backend/src/services/staff/ShiftManagement.service.ts. Roles,
-- kinds, notes and reasons, the caches and what is logged are left out, and so are statuses that are
-- not in the enum. Lengths of shifts stop at 0 where the code's turn negative.
pub mod Conflicts
pub mod Calls
pub mod Disjoint
pub mod Rows
use coffee_shop_saas_platfor.Prelude.{
  ℕ, suc, Bool, not, Option, none, some, List, [], ◌∷◌, ◌++◌, ◌==◌,
}
use coffee_shop_saas_platfor.Table.{find, find_first, update, create}
use coffee_shop_saas_platfor.Action.{
  Action, ok, err, pure, or_throw, gets, modify, throw_if, ◌>>=◌, ◌>>◌, record_not_found,
  staff_no_store_access, shift_conflict_exists, shift_not_found, not_your_shift,
  shift_not_swappable,
}
use coffee_shop_saas_platfor.TimeEntry.Rows.{ShiftStatus, cancelled, no_show, is_access, access_of}
use coffee_shop_saas_platfor.ShiftManagement.Rows.{
  RosterShift, pending, Swap, ShiftEvent, shift_created, shift_cancelled, swap_requested, Roster,
  check_shift_conflicts, is_empty, new_shift, conflicts_of, changed, set_status, is_scheduled,
  responded,
}

abbrev announce : ShiftEvent → Action Roster (Unit {0})
announce e = modify (λ r. record r { events = r.events ++ e ∷ [] })

insert_shift : RosterShift → Action Roster ℕ
insert_shift s r =
    (ok r.next_key, record r { shifts = create r.next_key s r.shifts; next_key = suc r.next_key })

update_row : ℕ → (RosterShift → RosterShift) → Action Roster RosterShift
update_row k f r = elim (find k r.shifts) [
  | none ↦ (err record_not_found, r)
  | some s ↦ (ok (f s), record r { shifts = update k f r.shifts })
]

unfoldable pub create_shift : ℕ → ℕ → ℕ → ℕ → ℕ → Option ℕ → Option ℕ → Action Roster ℕ
unfolding insert_shift
create_shift tenant store user start end_ breaks duration = do
  access ← gets (λ r. find_first (is_access user store) r.user_stores)
  or_throw (access_of access) staff_no_store_access
  conflicts ← gets (check_shift_conflicts user start end_ none)
  throw_if (not (is_empty conflicts)) shift_conflict_exists
  shift ← insert_shift (new_shift tenant store user start end_ breaks duration)
  announce (shift_created shift)
  pure shift

unfoldable pub update_shift :
    ℕ → Option ℕ → Option ℕ → Option ShiftStatus → Action Roster RosterShift
unfolding update_row
update_shift k start end_ status = do
  shift ← or_throw (← gets (λ r. find k r.shifts)) shift_not_found
  conflicts ← gets (conflicts_of start end_ k shift)
  throw_if (not (is_empty conflicts)) shift_conflict_exists
  update_row k (changed start end_ status)

unfoldable pub cancel_shift : ℕ → Action Roster RosterShift
unfolding update_row
cancel_shift k = do
  shift ← update_row k (set_status cancelled)
  announce (shift_cancelled k)
  pure shift

insert_swap : Swap → Action Roster ℕ
insert_swap s r =
    (ok r.next_key, record r { swaps = create r.next_key s r.swaps; next_key = suc r.next_key })

unfoldable pub request_shift_swap : ℕ → ℕ → Option ℕ → Action Roster ℕ
unfolding insert_swap
request_shift_swap k by with_user = do
  shift ← or_throw (← gets (λ r. find k r.shifts)) shift_not_found
  throw_if (not (shift.user == by)) not_your_shift
  throw_if (not (is_scheduled shift.status)) shift_not_swappable
  swap ← insert_swap (record {
    shift = k;
    requested_by = by;
    requested_with = with_user;
    status = pending;
    manager = none;
  })
  announce (swap_requested swap)
  pure swap

unfoldable pub respond_to_shift_swap : ℕ → ℕ → Bool → Action Roster Swap
respond_to_shift_swap k manager yes' r = elim (find k r.swaps) [
  | none ↦ (err record_not_found, r)
  | some s ↦ (
    ok (responded manager yes' s),
    record r { swaps = update k (responded manager yes') r.swaps },
  )
]

unfoldable pub mark_no_show : ℕ → Action Roster RosterShift
unfolding update_row
mark_no_show k = update_row k (set_status no_show)

-- The calls of the controllers, with those of `updateShift` that name no status.
pub data RosterCall : Type 0 where
  creates : ℕ → ℕ → ℕ → ℕ → ℕ → Option ℕ → Option ℕ → RosterCall
  reschedules : ℕ → Option ℕ → Option ℕ → RosterCall
  cancels : ℕ → RosterCall
  asks : ℕ → ℕ → Option ℕ → RosterCall
  answers : ℕ → ℕ → Bool → RosterCall
  misses : ℕ → RosterCall

unfoldable pub roster_step : RosterCall → Roster → Roster
roster_step (creates tenant store user start end_ breaks duration) r =
    (create_shift tenant store user start end_ breaks duration r).1
roster_step (reschedules k start end_) r = (update_shift k start end_ none r).1
roster_step (cancels k) r = (cancel_shift k r).1
roster_step (asks k by with_user) r = (request_shift_swap k by with_user r).1
roster_step (answers k manager yes') r = (respond_to_shift_swap k manager yes' r).1
roster_step (misses k) r = (mark_no_show k r).1

unfoldable pub roster_run : List RosterCall → Roster → Roster
roster_run [] r = r
roster_run (c ∷ cs) r = roster_run cs (roster_step c r)

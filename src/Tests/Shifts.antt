-- ===== src/Tests/Shifts.antt =====
-- Shifts.
use coffee_shop_saas_platfor.Prelude.{◌≡◌, ◌↔◌, refl, true, false, none, some, List, [], ◌∷◌, arith}
use coffee_shop_saas_platfor.Action.{ok}
use coffee_shop_saas_platfor.TimeEntry.Rows.{scheduled, cancelled}
use coffee_shop_saas_platfor.ShiftManagement.{
  RosterCall, creates, reschedules, cancels, misses, update_shift, roster_run,
}
use coffee_shop_saas_platfor.ShiftManagement.Rows.{
  Roster, RosterShift, new_shift, set_status, is_conflict, is_cancelled,
}
use coffee_shop_saas_platfor.ShiftManagement.Conflicts.{Meets, is_conflict_iff}
use coffee_shop_saas_platfor.ShiftManagement.Disjoint.{
  IsDisjoint, roster_run-IsDisjoint, revived_overlaps,
}

abbrev empty_roster : Roster
empty_roster = record {
  user_stores = (1, record { user = 5; store = 2; tenant = 1; is_active = true }) ∷ [];
  shifts = [];
  swaps = [];
  events = [];
  next_key = 10;
}

abbrev calls : List RosterCall
calls =
    creates 1 2 5 100 200 none none
    ∷ creates 1 2 5 150 160 none none
    ∷ creates 1 2 5 300 400 none none
    ∷ reschedules 11 (some 150) none
    ∷ cancels 10
    ∷ reschedules 11 (some 150) none
    ∷ misses 11
    ∷ []

roster_run-IsDisjoint_example : IsDisjoint (roster_run calls empty_roster).shifts
roster_run-IsDisjoint_example =
    roster_run-IsDisjoint calls empty_roster (λ i j a b h h' o o' w m. absurd (ground arith))

abbrev a_shift : RosterShift
a_shift = new_shift 1 2 5 100 200 none none

is_conflict_iff_example :
    (is_conflict 5 150 160 a_shift ≡ true)
    ↔ ((a_shift.user ≡ 5) × (is_cancelled a_shift.status ≡ false) × Meets 150 160 a_shift)
is_conflict_iff_example = is_conflict_iff 5 150 160 a_shift (omega arith) (omega arith)

abbrev old_shift : RosterShift
old_shift = set_status cancelled (new_shift 1 2 5 150 160 none none)

abbrev a_roster : Roster
a_roster = record empty_roster { shifts = (10, old_shift) ∷ (11, a_shift) ∷ []; next_key = 12 }

revived_overlaps_example :
    let (x, r') = update_shift 10 none none (some scheduled) a_roster in
    ((s : RosterShift) × (x ≡ ok s)) × (IsDisjoint r'.shifts → ⊥)
revived_overlaps_example =
    revived_overlaps 10 11 old_shift a_shift a_roster refl refl (ground arith) refl refl
      (omega arith, omega arith)

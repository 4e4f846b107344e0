-- ===== src/ShiftManagement/Calls.antt =====
-- What each call does to the shifts.
use coffee_shop_saas_platfor.Prelude.{
  ℕ, ◌≡◌, refl, ◌⊎◌, inl, inr, Bool, true, Option, none, some, arith, Bool-cases, Option-cases,
}
use coffee_shop_saas_platfor.Table.{Table, find, find_first, find_many, update, create}
use coffee_shop_saas_platfor.TimeEntry.Rows.{cancelled, no_show, is_access, access_of}
use coffee_shop_saas_platfor.ShiftManagement.{
  create_shift, update_shift, cancel_shift, mark_no_show, request_shift_swap, respond_to_shift_swap,
}
use coffee_shop_saas_platfor.ShiftManagement.Rows.{
  Roster, RosterShift, is_conflict, without, check_shift_conflicts, conflicts_of, is_empty, changed,
  or_old, set_status, new_shift,
}

-- A table without the conflicts of a time.
abbrev pub IsFree : ℕ → ℕ → ℕ → Option ℕ → Table RosterShift → Type 0
IsFree user start end_ exclude t =
    is_empty (find_many (is_conflict user start end_) (without exclude t)) ≡ true

pub create_shift-cases :
    (tenant store user start end_ : ℕ) (breaks duration : Option ℕ) (r : Roster)
    → let r' = (create_shift tenant store user start end_ breaks duration r).1 in
      (r'.shifts ≡ r.shifts)
      ⊎ IsFree user start end_ none r.shifts
        × (r'.shifts
            ≡ create r.next_key (new_shift tenant store user start end_ breaks duration) r.shifts)
unfolding create_shift
create_shift-cases tenant store user start end_ breaks duration r =
    elim (Option-cases (access_of (find_first (is_access user store) r.user_stores))) [
      | inl h ↦ inl (ground arith)
      | inr (u, h) ↦ elim (Bool-cases (is_empty (check_shift_conflicts user start end_ none r))) [
        | inl free ↦ inr (free, ground arith)
        | inr busy ↦ inl (ground arith)
      ]
    ]

pub cancel_shift-cases :
    (k : ℕ) (r : Roster)
    → ((cancel_shift k r).1.shifts ≡ r.shifts)
      ⊎ ((cancel_shift k r).1.shifts ≡ update k (set_status cancelled) r.shifts)
unfolding cancel_shift
cancel_shift-cases k r = elim (Option-cases (find k r.shifts)) [
  | inl gone ↦ inl (ground arith)
  | inr (s, there) ↦ inr (ground arith)
]

pub mark_no_show-cases :
    (k : ℕ) (r : Roster)
    → ((mark_no_show k r).1.shifts ≡ r.shifts)
      ⊎ ((mark_no_show k r).1.shifts ≡ update k (set_status no_show) r.shifts)
unfolding mark_no_show
mark_no_show-cases k r = elim (Option-cases (find k r.shifts)) [
  | inl gone ↦ inl (ground arith)
  | inr (s, there) ↦ inr (ground arith)
]

pub asked-shifts :
    (k by : ℕ) (with_user : Option ℕ) (r : Roster)
    → (request_shift_swap k by with_user r).1.shifts ≡ r.shifts
unfolding request_shift_swap
asked-shifts k by with_user r = ground arith

pub answered-shifts :
    (k manager : ℕ) (yes' : Bool) (r : Roster)
    → (respond_to_shift_swap k manager yes' r).1.shifts ≡ r.shifts
unfolding respond_to_shift_swap
answered-shifts k manager yes' r = ground arith

-- What was asked for, where no conflict was found: no other time, or one that is free.
asked_time :
    (start end_ : Option ℕ) (k : ℕ) (s : RosterShift) (r : Roster)
    → is_empty (conflicts_of start end_ k s r) ≡ true
    → (start ≡ none) × (end_ ≡ none)
      ⊎ IsFree s.user (or_old start s.start) (or_old end_ s.end_) (some k) r.shifts
asked_time none none k s r free = inl (refl, refl)
asked_time (some a) end_ k s r free = inr free
asked_time none (some b) k s r free = inr free

-- What a rescheduling does to the shifts: nothing, or it moves one to a time that is free.
pub update_shift-cases :
    (k : ℕ) (start end_ : Option ℕ) (r : Roster)
    → let r' = (update_shift k start end_ none r).1 in
      let f = changed start end_ none in
      (r'.shifts ≡ r.shifts)
      ⊎ (s : RosterShift) × (find k r.shifts ≡ some s)
        × (r'.shifts ≡ update k f r.shifts)
        × ((start ≡ none) × (end_ ≡ none) ⊎ IsFree s.user (f s).start (f s).end_ (some k) r.shifts)
unfolding update_shift
update_shift-cases k start end_ r = elim (Option-cases (find k r.shifts)) [
  | inl gone ↦ inl (ground arith)
  | inr (s, there) ↦ elim (Bool-cases (is_empty (conflicts_of start end_ k s r))) [
    | inr busy ↦ inl (ground arith)
    | inl free ↦ inr (s, there, ground arith, asked_time start end_ k s r free)
  ]
]

-- ===== src/ShiftManagement/Conflicts.antt =====
-- What the three alternatives of the conflict query come to.
use coffee_shop_saas_platfor.Prelude.{ℕ, ◌≤◌, ◌≡◌, ◌↔◌, true, false, arith}
use coffee_shop_saas_platfor.ShiftManagement.Rows.{RosterShift, is_conflict, is_cancelled}

-- The shift has a moment in common with the time from `start` to `end_`, the bounds included.
abbrev pub Meets : ℕ → ℕ → RosterShift → Type 0
Meets start end_ s = (s.start ≤ end_) × (start ≤ s.end_)

-- A shift that has a moment in common with a time is a conflict, whatever the order of the bounds.
pub Meets-is_conflict :
    (user start end_ : ℕ) (s : RosterShift)
    → s.user ≡ user
    → is_cancelled s.status ≡ false
    → Meets start end_ s
    → is_conflict user start end_ s ≡ true
Meets-is_conflict user start end_ s own stands (le, le') = ground (arith, own, stands, le, le')

-- Where the new time and the shift end no earlier than they start: the query finds the shift exactly
-- when it is the user's, is not cancelled, and has a moment in common with the new time.
pub is_conflict_iff :
    (user start end_ : ℕ) (s : RosterShift)
    → start ≤ end_
    → s.start ≤ s.end_
    → (is_conflict user start end_ s ≡ true)
      ↔ ((s.user ≡ user) × (is_cancelled s.status ≡ false) × Meets start end_ s)
is_conflict_iff user start end_ s le le' = (
  λ h. (
    ground (arith, h),
    ground (arith, h),
    (ground (arith, h, le, le'), ground (arith, h, le, le')),
  ),
  λ (own, stands, meets). Meets-is_conflict user start end_ s own stands meets,
)

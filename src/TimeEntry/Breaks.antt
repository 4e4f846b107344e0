-- ===== src/TimeEntry/Breaks.antt =====
-- The lengths of breaks, which are recorded at their ends and summed up on clocking out.
use coffee_shop_saas_platfor.Prelude.{ℕ, ◌+◌, ◌-◌, ◌≡◌, none, some, [], ◌∷◌, All}
use mathlib.Core.Option
use coffee_shop_saas_platfor.Table.{Table}
use coffee_shop_saas_platfor.TimeEntry.Rows.{TimeEntry, BreakEntry, minutes}

-- The duration of a break is its length in whole minutes once it has ended, and absent before.
abbrev pub IsTimed : BreakEntry → Type 0
IsTimed b = b.duration ≡ Option.map (λ at. minutes (at - b.start)) b.end_

abbrev pub AllTimed : Table BreakEntry → Type 0
AllTimed t = All (λ e. IsTimed e.1) t

abbrev duration_of : BreakEntry → ℕ
duration_of b = elim b.duration [ none ↦ 0 | some d ↦ d ]

-- The sum of the recorded durations.
abbrev pub durations : Table BreakEntry → ℕ
durations [] = 0
durations ((_, b) ∷ t) = duration_of b + durations t

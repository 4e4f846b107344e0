-- ===== src/TimeEntry/Settled.antt =====
-- An entry that was clocked out is settled: its time, its breaks and its pay stay.
use coffee_shop_saas_platfor.Prelude.{
  ℕ, ◌≡◌, sym, ap, ◌∙◌, inl, inr, Option, some, List, [], ◌∷◌, ◌==◌, eq_of_==, arith, Bool-cases,
}
use mathlib.Core.Path.{subst}
use mathlib.Core.Option.{some-injective}
use coffee_shop_saas_platfor.Table.{
  Table, find, find_first, update, create, find-update_self, find-update_ne, find_first_sound,
}
use coffee_shop_saas_platfor.Table.Keys.{
  IsKeyed, IsKeyed-update, IsKeyed-create, find-update-none, find_first-find,
}
use coffee_shop_saas_platfor.Table.Rows.{IsBelow, IsBelow-create}
use coffee_shop_saas_platfor.TimeEntry.{
  clock_in, clock_out, start_break, approve_time_entry, handle_sync_conflict, ClockCall, clocks_in,
  clocks_out, starts, ends, approves, conflicts, waits, clock_step, clock_run,
}
use coffee_shop_saas_platfor.TimeEntry.Rows.{Clock, TimeEntry, Place, is_open_of, closed_as}
use coffee_shop_saas_platfor.TimeEntry.Effects.{
  Enters, Leaves, Changes, Starts, Marks, Stays, clock_in-Enters, clock_out-Leaves, approve-Changes,
  conflict-Changes, start-Starts, end_ends,
}

-- The keys of the entries differ and are below the next one.
abbrev pub IsStored : Clock → Type 0
IsStored c = IsKeyed c.entries × IsBelow c.next_key c.entries

-- The entry `k` was clocked out at the time, with the minutes of breaks and the pay.
abbrev pub IsSettled : ℕ → ℕ → Option ℕ → Option ℕ → Table TimeEntry → Type 0
IsSettled k at rest pay t =
    (e : TimeEntry) × (find k t ≡ some e)
    × (e.clock_out_at ≡ some at)
    × (e.break_minutes ≡ rest)
    × (e.total_pay ≡ pay)

find-create-some :
    (k n : ℕ) (v e : TimeEntry) (t : Table TimeEntry)
    → find k t ≡ some e
    → find k (create n v t) ≡ some e
find-create-some k n v e [] h = absurd (ground arith)
find-create-some k n v e (x ∷ t) h = ground (arith, find-create-some k n v e t)

IsStored-update :
    (k : ℕ) (f : TimeEntry → TimeEntry) (c : Clock)
    → IsStored c
    → IsKeyed (update k f c.entries) × IsBelow c.next_key (update k f c.entries)
IsStored-update k f c (keyed, below) =
    (IsKeyed-update k f c.entries keyed, λ j le. find-update-none j k f c.entries (below j le))

IsSettled-update :
    (k j at : ℕ) (rest pay : Option ℕ) (f : TimeEntry → TimeEntry) (t : Table TimeEntry)
    → Marks f
    → IsSettled k at rest pay t
    → IsSettled k at rest pay (update j f t)
IsSettled-update k j at rest pay f t marks (e, h, left, h', h'') = elim (Bool-cases (k == j)) [
  | inl same ↦
      let here : k ≡ j = eq_of_== k j same in
      let (_, m, m', m'') = marks e in
      (
        f e,
        subst (λ (i : ℕ). find k (update i f t) ≡ some (f e)) here (find-update_self k f t e h),
        m ∙ left,
        m' ∙ h',
        m'' ∙ h'',
      )
  | inr other ↦ (e, find-update_ne k j f t (ground arith) ∙ h, left, h', h'')
]

-- Closing the entry that is found open leaves one that was closed before.
IsSettled-closed :
    (k j at user store : ℕ) (rest pay : Option ℕ) (f : TimeEntry → TimeEntry) (t : Table TimeEntry)
    (open_ : TimeEntry)
    → IsKeyed t
    → find_first (is_open_of user store) t ≡ some (j, open_)
    → IsSettled k at rest pay t
    → IsSettled k at rest pay (update j f t)
IsSettled-closed k j at user store rest pay f t open_ keyed found (e, h, left, h', h'') =
    elim (Bool-cases (k == j)) [
      | inl same ↦
          let here : k ≡ j = eq_of_== k j same in
          let there = find_first-find (is_open_of user store) t j open_ keyed found in
          let row : e ≡ open_ = some-injective _ _ (sym h ∙ ap (λ i. find i t) here ∙ there) in
          let on = find_first_sound (is_open_of user store) t j open_ found in
          let left' = subst (λ (x : TimeEntry). x.clock_out_at ≡ some at) row left in
          absurd (ground (arith, on, left'))
      | inr other ↦ (e, find-update_ne k j f t (ground arith) ∙ h, left, h', h'')
    ]

module _ (k at : ℕ) (rest pay : Option ℕ) where
  abbrev Both : Clock → Type 0
  Both c = IsStored c × IsSettled k at rest pay c.entries

  Enters-Both : (user store : ℕ) (c c' : Clock) → Enters user store c c' → Both c → Both c'
  Enters-Both user store c c' (_, inl (same, key)) s = rw (same, key) s
  Enters-Both user store c c' (_, inr (free, (e, _, _, made, key)))
        ((keyed, below), (x, h, left, h', h'')) =
      rw (made, key)
        (
          (
            IsKeyed-create c.next_key e c.entries (below c.next_key (omega arith)) keyed,
            IsBelow-create c.next_key e c.entries below,
          ),
          (x, find-create-some k c.next_key e x c.entries h, left, h', h''),
        )

  Leaves-Both :
      (user store : ℕ) (c c' : Clock) → Stays c c' → Leaves user store c c' → Both c → Both c'
  Leaves-Both user store c c' (_, key) (inl same) s = rw (same, key) s
  Leaves-Both user store c c' (_, key) (inr (j, e, m, p, found, moved)) (stored, settled) =
      rw (moved, key)
        (
          IsStored-update j (closed_as c.now m p) c stored,
          IsSettled-closed k j at user store rest pay (closed_as c.now m p) c.entries e stored.0
              found settled,
        )

  Changes-Both : (c c' : Clock) → Stays c c' → Changes c c' → Both c → Both c'
  Changes-Both c c' (_, key) (inl same) s = rw (same, key) s
  Changes-Both c c' (_, key) (inr (j, f, marks, moved)) (stored, settled) =
      rw (moved, key)
        (IsStored-update j f c stored, IsSettled-update k j at rest pay f c.entries marks settled)

  Starts-Both : (j : ℕ) (c c' : Clock) → c'.entries ≡ c.entries → Starts j c c' → Both c → Both c'
  Starts-Both j c c' same (inl (_, key)) s = rw (same, key) s
  Starts-Both j c c' same (inr (_, (_, _, _, _, _, key))) ((keyed, below), settled) =
      rw (same, key) ((keyed, λ i le. below i (omega (arith, le))), settled)

  module _ (distance : Place → Place → ℕ) (pay_for : ℕ → ℕ → ℕ) where
    step-Both : (x : ClockCall) (c : Clock) → Both c → Both (clock_step distance pay_for x c)
    unfolding clock_step
    step-Both (clocks_in user store place shift) c s =
        Enters-Both user store c (clock_in distance user store place shift c).1
          (clock_in-Enters distance user store place shift c) s
    step-Both (clocks_out user store) c s =
        let (stays, effect) = clock_out-Leaves pay_for user store c in
        Leaves-Both user store c (clock_out pay_for user store c).1 stays effect s
    step-Both (starts j kind) c s =
        let (same, effect) = start-Starts j kind c in
        Starts-Both j c (start_break j kind c).1 same effect s
    step-Both (ends j) c s = let (same, key, _) = end_ends j c in rw (same, key) s
    step-Both (approves j by) c s =
        let (stays, effect) = approve-Changes j by c in
        Changes-Both c (approve_time_entry j by c).1 stays effect s
    step-Both (conflicts j) c s =
        let (stays, effect) = conflict-Changes j c in
        Changes-Both c (handle_sync_conflict j c).1 stays effect s
    step-Both (waits n) c s = s

    run-Both : (xs : List ClockCall) (c : Clock) → Both c → Both (clock_run distance pay_for xs c)
    unfolding clock_run
    run-Both [] c s = s
    run-Both (x ∷ xs) c s = run-Both xs (clock_step distance pay_for x c) (step-Both x c s)

    -- An entry that was clocked out keeps the time of it, its minutes of breaks and its pay, whatever
    -- is called afterwards. (Keys differ and are below the next one.)
    pub clock_run-IsSettled :
        (xs : List ClockCall) (c : Clock)
        → IsStored c
        → IsSettled k at rest pay c.entries
        → IsSettled k at rest pay (clock_run distance pay_for xs c).entries
    clock_run-IsSettled xs c stored settled = (run-Both xs c (stored, settled)).1

-- ===== src/TimeEntry/Single.antt =====
-- Nobody is clocked in twice in a store, and nobody takes two breaks at once.
use coffee_shop_saas_platfor.Prelude.{
  ℕ, ◌≡◌, refl, sym, ap, ◌∙◌, inl, inr, true, Option, List, [], ◌∷◌, ==_refl, arith,
}
use mathlib.Core.Path.{subst}
use coffee_shop_saas_platfor.Table.Single
use coffee_shop_saas_platfor.Table.Single.{IsSingle-update, IsSingle-create, find_first-IsIdle}
use coffee_shop_saas_platfor.TimeEntry.Effects.{
  worker_of, entry_of, Enters, Leaves, Changes, Starts, clock_in-Enters, clock_out-Leaves,
  approve-Changes, conflict-Changes, start-Starts, end_ends,
}
use coffee_shop_saas_platfor.TimeEntry.{
  clock_in, clock_out, start_break, approve_time_entry, handle_sync_conflict, ClockCall, clocks_in,
  clocks_out, starts, ends, approves, conflicts, waits, clock_step, clock_run,
}
use coffee_shop_saas_platfor.TimeEntry.Rows.{
  is_none, Clock, TimeEntry, BreakEntry, Place, is_open, is_open_of, is_taken, is_taken_of,
  closed_as, ended_at,
}

-- Two open entries of the same user in the same store are one.
abbrev pub EntriesSingle : Clock → Type 0
EntriesSingle c = Single.IsSingle is_open worker_of c.entries

-- Two breaks of an entry that have not ended are one.
abbrev pub BreaksSingle : Clock → Type 0
BreaksSingle c = Single.IsSingle is_taken entry_of c.breaks

Enters-EntriesSingle :
    (user store : ℕ) (c c' : Clock) → Enters user store c c' → EntriesSingle c → EntriesSingle c'
Enters-EntriesSingle user store c c' (_, inl (same, _)) s = rw same s
Enters-EntriesSingle user store c c' (_, inr (free, (e, of_user, of_store, made, _))) s =
    let asks : (v : TimeEntry)
        → is_open v ≡ true
        → worker_of v ≡ worker_of e
        → is_open_of user store v ≡ true =
      λ v on same.
        (let at = ap (λ (p : ℕ × ℕ). p.0) same ∙ of_user in
          let at' = ap (λ (p : ℕ × ℕ). p.1) same ∙ of_store in
          rw (at, at', on, ==_refl user, ==_refl store) refl) in
    rw made (
      IsSingle-create is_open worker_of c.next_key e c.entries
        (find_first-IsIdle is_open worker_of (is_open_of user store) (worker_of e) c.entries asks
          free)
        s)

Leaves-EntriesSingle :
    (user store : ℕ) (c c' : Clock) → Leaves user store c c' → EntriesSingle c → EntriesSingle c'
Leaves-EntriesSingle user store c c' (inl same) s = rw same s
Leaves-EntriesSingle user store c c' (inr (k, e, rest, pay, found, moved)) s = rw moved (
    IsSingle-update is_open worker_of k (closed_as c.now rest pay) c.entries
      (λ v. (refl, λ on. absurd (ground arith))) s)

Changes-EntriesSingle : (c c' : Clock) → Changes c c' → EntriesSingle c → EntriesSingle c'
Changes-EntriesSingle c c' (inl same) s = rw same s
Changes-EntriesSingle c c' (inr (k, f, marks, moved)) s = rw moved (
    IsSingle-update is_open worker_of k f c.entries
      (λ v. (
        (marks v).0,
        subst (λ (o : Option ℕ). is_none o ≡ true → is_open v ≡ true) (sym (marks v).1) (λ on. on),
      ))
      s)

Starts-BreaksSingle : (k : ℕ) (c c' : Clock) → Starts k c c' → BreaksSingle c → BreaksSingle c'
Starts-BreaksSingle k c c' (inl (same, _)) s = rw same s
Starts-BreaksSingle k c c' (inr (free, (b, at, on, _, made, _))) s =
    let asks : (v : BreakEntry)
        → is_taken v ≡ true
        → entry_of v ≡ entry_of b
        → is_taken_of k v ≡ true =
      λ v on' same. (let here = same ∙ at in rw (here, on', ==_refl k) refl) in
    rw made (
      IsSingle-create is_taken entry_of c.next_key b c.breaks
        (find_first-IsIdle is_taken entry_of (is_taken_of k) (entry_of b) c.breaks asks free) s)

-- Both hold of the state.
abbrev pub BothSingle : Clock → Type 0
BothSingle c = EntriesSingle c × BreaksSingle c

module _ (distance : Place → Place → ℕ) (pay_for : ℕ → ℕ → ℕ) where
  step-BothSingle :
      (x : ClockCall) (c : Clock) → BothSingle c → BothSingle (clock_step distance pay_for x c)
  unfolding clock_step
  step-BothSingle (clocks_in user store place shift) c (s, b) =
      let effect = clock_in-Enters distance user store place shift c in
      (
        Enters-EntriesSingle user store c (clock_in distance user store place shift c).1 effect s,
        rw effect.0 b,
      )
  step-BothSingle (clocks_out user store) c (s, b) =
      let (stays, effect) = clock_out-Leaves pay_for user store c in
      (Leaves-EntriesSingle user store c (clock_out pay_for user store c).1 effect s, rw stays.0 b)
  step-BothSingle (starts k kind) c (s, b) =
      let (same, effect) = start-Starts k kind c in
      (rw same s, Starts-BreaksSingle k c (start_break k kind c).1 effect b)
  step-BothSingle (ends k) c (s, b) =
      let (same, _, effect) = end_ends k c in
      (
        rw same s,
        elim effect [
          | inl kept ↦ rw kept b
          | inr ended ↦ rw ended (
              IsSingle-update is_taken entry_of k (ended_at c.now) c.breaks
                (λ v. (refl, λ on. absurd (ground arith))) b)
        ],
      )
  step-BothSingle (approves k by) c (s, b) =
      let (stays, effect) = approve-Changes k by c in
      (Changes-EntriesSingle c (approve_time_entry k by c).1 effect s, rw stays.0 b)
  step-BothSingle (conflicts k) c (s, b) =
      let (stays, effect) = conflict-Changes k c in
      (Changes-EntriesSingle c (handle_sync_conflict k c).1 effect s, rw stays.0 b)
  step-BothSingle (waits n) c s = s

  -- Whatever is called, in whatever order: if no user has two open entries in a store and no entry two
  -- breaks that have not ended, this holds afterwards.
  pub clock_run-BothSingle :
      (xs : List ClockCall) (c : Clock)
      → BothSingle c
      → BothSingle (clock_run distance pay_for xs c)
  unfolding clock_run
  clock_run-BothSingle [] c s = s
  clock_run-BothSingle (x ∷ xs) c s =
      clock_run-BothSingle xs (clock_step distance pay_for x c) (step-BothSingle x c s)

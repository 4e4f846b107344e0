-- ===== src/TimeEntry/Pay.antt =====
-- What clocking out records.
use coffee_shop_saas_platfor.Prelude.{
  ℕ, ◌-◌, ◌≡◌, refl, sym, ◌∙◌, inl, inr, none, some, arith, Option-cases,
}
use coffee_shop_saas_platfor.Table.{Table, find, find_first, find_many, update, find_first_sound}
use coffee_shop_saas_platfor.Table.Keys.{IsKeyed, IsKeyed-update, find_first-find}
use coffee_shop_saas_platfor.Table.Single
use coffee_shop_saas_platfor.Table.Single.{IsIdle-update}
use coffee_shop_saas_platfor.Action.{ok, err, not_clocked_in}
use coffee_shop_saas_platfor.TimeEntry.{clock_out}
use coffee_shop_saas_platfor.TimeEntry.Rows.{
  Clock, TimeEntry, BreakEntry, is_open, is_open_of, is_break_of, total_of, closed_as, rate_or_zero,
}
use coffee_shop_saas_platfor.TimeEntry.Effects.{worker_of}
use coffee_shop_saas_platfor.TimeEntry.Single.{EntriesSingle}

-- The update that clocks out the entry `k`.
abbrev leaving : (ℕ → ℕ → ℕ) → ℕ → TimeEntry → Clock → TimeEntry → TimeEntry
leaving pay_for k e c =
    closed_as c.now (total_of (find_many (is_break_of k) c.breaks))
      (pay_for (c.now - e.clock_in_at) (rate_or_zero e.pay_rate))

clock_out_runs :
    (pay_for : ℕ → ℕ → ℕ) (user store : ℕ) (c : Clock) (k : ℕ) (e : TimeEntry)
    → find_first (is_open_of user store) c.entries ≡ some (k, e)
    → find k c.entries ≡ some e
    → ((clock_out pay_for user store c).0 ≡ ok (leaving pay_for k e c e))
      × ((clock_out pay_for user store c).1.entries ≡ update k (leaving pay_for k e c) c.entries)
unfolding clock_out
clock_out_runs pay_for user store c k e h there = (ground arith, ground arith)

clock_out_missing :
    (pay_for : ℕ → ℕ → ℕ) (user store : ℕ) (c : Clock)
    → find_first (is_open_of user store) c.entries ≡ none
    → clock_out pay_for user store c ≡ (err not_clocked_in, c)
unfolding clock_out
clock_out_missing pay_for user store c h = ground arith

-- A user who is clocked in in a store; keys differ: with whatever breaks, of whatever length and type,
-- clocking out ends well, and the pay is the same.
pub pay_ignores_breaks :
    (pay_for : ℕ → ℕ → ℕ) (user store : ℕ) (c : Clock) (k : ℕ) (e : TimeEntry)
    (breaks breaks' : Table BreakEntry)
    → IsKeyed c.entries
    → find_first (is_open_of user store) c.entries ≡ some (k, e)
    → let out = clock_out pay_for user store (record c { breaks = breaks }) in
      let out' = clock_out pay_for user store (record c { breaks = breaks' }) in
      (x : TimeEntry) × (y : TimeEntry) × (out.0 ≡ ok x)
      × (out'.0 ≡ ok y)
      × (x.total_pay ≡ y.total_pay)
pay_ignores_breaks pay_for user store c k e breaks breaks' keyed h =
    let there = find_first-find (is_open_of user store) c.entries k e keyed h in
    let b = record c { breaks = breaks } in
    let b' = record c { breaks = breaks' } in
    (
      leaving pay_for k e b e,
      leaving pay_for k e b' e,
      (clock_out_runs pay_for user store b k e h there).0,
      (clock_out_runs pay_for user store b' k e h there).0,
      refl,
    )

-- A query that asks for rows of an idle owner that are on finds none.
idle-find_first :
    (user store : ℕ) (t : Table TimeEntry)
    → IsKeyed t
    → Single.IsIdle is_open worker_of (user, store) t
    → find_first (is_open_of user store) t ≡ none
idle-find_first user store t keyed idle =
    elim (Option-cases (find_first (is_open_of user store) t)) [
      | inl h ↦ h
      | inr ((k, e), h) ↦
          let there = find_first-find (is_open_of user store) t k e keyed h in
          let met = find_first_sound (is_open_of user store) t k e h in
          let at : e.user ≡ user = ground (arith, met) in
          let at' : e.store ≡ store = ground (arith, met) in
          absurd (idle k e there (ground (arith, met)) (λ i. (at i, at' i)))
    ]

-- A user who is clocked in in a store; keys differ, and no user has two open entries in a store:
-- clocking out ends well, and the next clocking-out of the user in the store, if nothing comes in
-- between, throws `NOT_CLOCKED_IN` and changes nothing.
clock_out_twice :
    (pay_for : ℕ → ℕ → ℕ) (user store : ℕ) (c : Clock) (k : ℕ) (e : TimeEntry)
    → IsKeyed c.entries
    → EntriesSingle c
    → find_first (is_open_of user store) c.entries ≡ some (k, e)
    → let (r, c') = clock_out pay_for user store c in
      ((x : TimeEntry) × (r ≡ ok x)) × (clock_out pay_for user store c' ≡ (err not_clocked_in, c'))
clock_out_twice pay_for user store c k e keyed single h =
    let there = find_first-find (is_open_of user store) c.entries k e keyed h in
    let met = find_first_sound (is_open_of user store) c.entries k e h in
    let at : e.user ≡ user = ground (arith, met) in
    let at' : e.store ≡ store = ground (arith, met) in
    let (runs, rows) = clock_out_runs pay_for user store c k e h there in
    let f = leaving pay_for k e c in
    let idle : Single.IsIdle is_open worker_of (user, store) (update k f c.entries) =
      λ j b hb ob same.
        (IsIdle-update is_open worker_of k f c.entries e (λ r. refl) single there
          (ground (arith, met)) j b hb ob (same ∙ λ i. (sym at i, sym at' i))) in
    let none_left =
      idle-find_first user store (update k f c.entries) (IsKeyed-update k f c.entries keyed) idle in
    (
      (f e, runs),
      clock_out_missing pay_for user store (clock_out pay_for user store c).1 (rw rows none_left),
    )

pub clock_out_minutes :
    (pay_for : ℕ → ℕ → ℕ) (user store : ℕ) (c : Clock) (k : ℕ) (e x : TimeEntry)
    → find_first (is_open_of user store) c.entries ≡ some (k, e)
    → (clock_out pay_for user store c).0 ≡ ok x
    → x.break_minutes ≡ some (total_of (find_many (is_break_of k) c.breaks))
unfolding clock_out
clock_out_minutes pay_for user store c k e x h ends = elim (Option-cases (find k c.entries)) [
  | inl gone ↦ absurd (ground arith)
  | inr (e', there) ↦ ground arith
]

-- ===== src/TimeEntry/Effects.antt =====
-- What each call does to the entries, the breaks and the next key.
use coffee_shop_saas_platfor.Prelude.{
  ℕ, suc, ◌-◌, ◌≡◌, refl, ◌⊎◌, inl, inr, Option, none, some, arith, Bool-cases, Option-cases,
}
use coffee_shop_saas_platfor.Table.{find, find_first, find_many, update, create}
use coffee_shop_saas_platfor.Action.{ok, err, Error, unique_violation, foreign_key_violation}
use coffee_shop_saas_platfor.TimeEntry.{
  create_entry, distance_of, clock_in, clock_out, start_break, end_break, approve_time_entry,
  handle_sync_conflict,
}
use coffee_shop_saas_platfor.TimeEntry.Rows.{
  Clock, TimeEntry, BreakEntry, BreakType, Place, is_open_of, is_taken, is_taken_of, is_access,
  access_of, place_of, late_by, find_shift, rate_of, is_paid_by, total_of, is_break_of,
  rate_or_zero, closed_as, set_approved, set_conflict, ended_at, new_entry, new_break, is_for_shift,
}

abbrev pub worker_of : TimeEntry → ℕ × ℕ
worker_of e = (e.user, e.store)

abbrev pub entry_of : BreakEntry → ℕ
entry_of b = b.entry

abbrev pub inserted : TimeEntry → Clock → Clock
inserted e c = record c { entries = create c.next_key e c.entries; next_key = suc c.next_key }

pub create_entry_cases :
    (e : TimeEntry) (c : Clock)
    → ((x : Error) × (create_entry e c ≡ (err x, c)))
      ⊎ (create_entry e c ≡ (ok c.next_key, inserted e c))
unfolding create_entry
create_entry_cases e c = elim (Option-cases e.shift) [
  | inl h ↦ inr (ground arith)
  | inr (k, h) ↦ elim (Option-cases (find_first (is_for_shift k) c.entries)) [
    | inr (x, h') ↦ inl (unique_violation, ground arith)
    | inl h' ↦ elim (Option-cases (find k c.shifts)) [
      | inl h'' ↦ inl (foreign_key_violation, ground arith)
      | inr (x, h'') ↦ inr (ground arith)
    ]
  ]
]

-- What clocking in does to the entries and the breaks: nothing, or one entry more, where there was no
-- open one of the user in the store.
abbrev pub Enters : ℕ → ℕ → Clock → Clock → Type 0
Enters user store c c' =
    (c'.breaks ≡ c.breaks)
    × ((c'.entries ≡ c.entries) × (c'.next_key ≡ c.next_key)
        ⊎ (find_first (is_open_of user store) c.entries ≡ none)
          × ((e : TimeEntry) × (e.user ≡ user)
              × (e.store ≡ store)
              × (c'.entries ≡ create c.next_key e c.entries)
              × (c'.next_key ≡ suc c.next_key)))

pub clock_in-Enters :
    (distance : Place → Place → ℕ) (user store : ℕ) (place : Option Place) (shift : Option ℕ)
    (c : Clock)
    → Enters user store c (clock_in distance user store place shift c).1
unfolding clock_in
clock_in-Enters distance user store place shift c =
    elim (Option-cases (access_of (find_first (is_access user store) c.user_stores))) [
      | inl h ↦ (ground arith, inl (ground arith, ground arith))
      | inr (u, h) ↦ elim (Option-cases (find_first (is_open_of user store) c.entries)) [
        | inr (x, h') ↦ (ground arith, inl (ground arith, ground arith))
        | inl h' ↦
            let e =
              new_entry u.tenant user store shift
                (distance_of distance place (place_of (find store c.stores)))
                (late_by (find_shift shift c) c.now)
                (rate_of (find_first (is_paid_by u.tenant user) c.tenant_users)) c.now in
            elim (create_entry_cases e c) [
              | inl (x, failed) ↦ (ground arith, inl (ground arith, ground arith))
              | inr made ↦ (ground arith, inr (h', (e, refl, refl, ground arith, ground arith)))
            ]
      ]
    ]

-- What clocking out does to the entries: nothing, or it closes the one that is found.
abbrev pub Leaves : ℕ → ℕ → Clock → Clock → Type 0
Leaves user store c c' =
    (c'.entries ≡ c.entries)
    ⊎ (k : ℕ) × (e : TimeEntry) × (rest : ℕ) × (pay : ℕ) × (find_first (is_open_of user store)
          c.entries
        ≡ some (k, e))
      × (c'.entries ≡ update k (closed_as c.now rest pay) c.entries)

-- What any other call does to the entries: nothing, or a change of one that opens none and leaves
-- what was settled.
abbrev pub Marks : (TimeEntry → TimeEntry) → Type 0
Marks f =
    (e : TimeEntry)
    → (worker_of (f e) ≡ worker_of e)
      × ((f e).clock_out_at ≡ e.clock_out_at)
      × ((f e).break_minutes ≡ e.break_minutes)
      × ((f e).total_pay ≡ e.total_pay)

abbrev pub Changes : Clock → Clock → Type 0
Changes c c' =
    (c'.entries ≡ c.entries)
    ⊎ (k : ℕ) × (f : TimeEntry → TimeEntry) × Marks f × (c'.entries ≡ update k f c.entries)

-- Neither the breaks nor the next key change.
abbrev pub Stays : Clock → Clock → Type 0
Stays c c' = (c'.breaks ≡ c.breaks) × (c'.next_key ≡ c.next_key)

pub clock_out-Leaves :
    (pay_for : ℕ → ℕ → ℕ) (user store : ℕ) (c : Clock)
    → Stays c (clock_out pay_for user store c).1
      × Leaves user store c (clock_out pay_for user store c).1
unfolding clock_out
clock_out-Leaves pay_for user store c =
    elim (Option-cases (find_first (is_open_of user store) c.entries)) [
      | inl h ↦ ((ground arith, ground arith), inl (ground arith))
      | inr ((k, e), h) ↦ elim (Option-cases (find k c.entries)) [
        | inl gone ↦ ((ground arith, ground arith), inl (ground arith))
        | inr (e', there) ↦
            let rest = total_of (find_many (is_break_of k) c.breaks) in
            let pay = pay_for (c.now - e.clock_in_at) (rate_or_zero e.pay_rate) in
            ((ground arith, ground arith), inr (k, e, rest, pay, h, ground arith))
      ]
    ]

pub approve-Changes :
    (k by : ℕ) (c : Clock)
    → Stays c (approve_time_entry k by c).1 × Changes c (approve_time_entry k by c).1
unfolding approve_time_entry
approve-Changes k by c = elim (Option-cases (find k c.entries)) [
  | inl gone ↦ ((ground arith, ground arith), inl (ground arith))
  | inr (e, there) ↦ (
    (ground arith, ground arith),
    inr (k, set_approved by, (λ v. (refl, refl, refl, refl)), ground arith),
  )
]

pub conflict-Changes :
    (k : ℕ) (c : Clock)
    → Stays c (handle_sync_conflict k c).1 × Changes c (handle_sync_conflict k c).1
unfolding handle_sync_conflict
conflict-Changes k c = elim (Option-cases (find k c.entries)) [
  | inl gone ↦ ((ground arith, ground arith), inl (ground arith))
  | inr (e, there) ↦ (
    (ground arith, ground arith),
    inr (k, set_conflict, (λ v. (refl, refl, refl, refl)), ground arith),
  )
]

-- What starting a break does to the breaks.
abbrev pub Starts : ℕ → Clock → Clock → Type 0
Starts k c c' =
    (c'.breaks ≡ c.breaks) × (c'.next_key ≡ c.next_key)
    ⊎ (find_first (is_taken_of k) c.breaks ≡ none)
      × ((b : BreakEntry) × (b.entry ≡ k)
          × (b.end_ ≡ none)
          × (b.duration ≡ none)
          × (c'.breaks ≡ create c.next_key b c.breaks)
          × (c'.next_key ≡ suc c.next_key))

pub start-Starts :
    (k : ℕ) (kind : BreakType) (c : Clock)
    → ((start_break k kind c).1.entries ≡ c.entries) × Starts k c (start_break k kind c).1
unfolding start_break
start-Starts k kind c = elim (Option-cases (find_first (is_taken_of k) c.breaks)) [
  | inr (x, h) ↦ (ground arith, inl (ground arith, ground arith))
  | inl h ↦ elim (Option-cases (find k c.entries)) [
    | inl gone ↦ (ground arith, inl (ground arith, ground arith))
    | inr (e, there) ↦ (
      ground arith,
      inr (h, (new_break k e kind c.now, refl, refl, refl, ground arith, ground arith)),
    )
  ]
]

pub end_ends :
    (k : ℕ) (c : Clock)
    → ((end_break k c).1.entries ≡ c.entries)
      × ((end_break k c).1.next_key ≡ c.next_key)
      × (((end_break k c).1.breaks ≡ c.breaks)
          ⊎ ((end_break k c).1.breaks ≡ update k (ended_at c.now) c.breaks))
unfolding end_break
end_ends k c = elim (Option-cases (find k c.breaks)) [
  | inl gone ↦ (ground arith, ground arith, inl (ground arith))
  | inr (b, there) ↦ elim (Bool-cases (is_taken b)) [
    | inl on ↦ (ground arith, ground arith, inr (ground arith))
    | inr off ↦ (ground arith, ground arith, inl (ground arith))
  ]
]

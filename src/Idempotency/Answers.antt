-- ===== src/Idempotency/Answers.antt =====
-- What `check` answers, told from the rows that are live: those that have not expired.
use coffee_shop_saas_platfor.Prelude.{
  ℕ, suc, ◌+◌, ◌*◌, ◌≤◌, ◌≡◌, refl, sym, ap, ◌∙◌, inl, inr, Bool, true, false, not, Option, none,
  some, [], ◌∷◌, ◌==◌, ==_refl, ==_of_ne, ◌≢◌, ◌&&◌, arith, Bool-cases, Option-cases,
}
use mathlib.Core.Path.{subst}
use mathlib.Core.Option.{some-injective}
use coffee_shop_saas_platfor.Table.{
  Table, find, find_first, create, delete, find_first_sound, find_first-create,
}
use coffee_shop_saas_platfor.Table.Keys.{IsKeyed, find_first-find}
use coffee_shop_saas_platfor.Table.Single.{IsSingle}
use coffee_shop_saas_platfor.Action.{ok}
use coffee_shop_saas_platfor.Idempotency.{
  IdempotencyKey, Responses, Name, is_named, is_expired, delete_many, check, store, cleanup,
  new_row,
}

abbrev pub name_of : IdempotencyKey → ℕ × ℕ × ℕ
name_of e = (e.tenant, e.key, e.route)

abbrev any_row : IdempotencyKey → Bool
any_row e = true

-- Primary keys differ, and no two rows have the same tenant, key and route.
abbrev pub IsUnique : Table IdempotencyKey → Type 0
IsUnique t = IsKeyed t × IsSingle any_row name_of t

-- The row of the name that has not expired at the time.
abbrev pub is_live : Name → ℕ → IdempotencyKey → Bool
is_live n now e = is_named n e && not (is_expired now e)

abbrev pub live : Name → Responses → Option (ℕ × IdempotencyKey)
live n s = find_first (is_live n s.now) s.rows

-- The response and the status code of a row.
abbrev pub answer_of : (ℕ → ℕ) → Option (ℕ × IdempotencyKey) → Option (ℕ × ℕ)
answer_of stringify none = none
answer_of stringify (some (_, e)) = some (stringify e.response, e.status_code)

missing_live :
    (n : Name) (now : ℕ) (t : Table IdempotencyKey)
    → find_first (is_named n) t ≡ none
    → find_first (is_live n now) t ≡ none
missing_live n now [] h = h
missing_live n now (e ∷ t) h = ground (arith, missing_live n now t)

first_live :
    (n : Name) (now : ℕ) (t : Table IdempotencyKey) (k : ℕ) (e : IdempotencyKey)
    → find_first (is_named n) t ≡ some (k, e)
    → is_expired now e ≡ false
    → find_first (is_live n now) t ≡ some (k, e)
first_live n now [] k e h fresh = absurd (ground arith)
first_live n now (x ∷ t) k e h fresh = elim (Bool-cases (is_named n x.1)) [
  | inl yes' ↦
      let row : x ≡ (k, e) = some-injective _ _ (sym (rw yes' refl) ∙ h) in
      let fresh' = subst (λ (r : ℕ × IdempotencyKey). is_expired now r.1 ≡ false) (sym row) fresh in
      rw (yes', fresh') (ap some row)
  | inr no' ↦ rw no' (first_live n now t k e (rw no' at h) fresh)
]

-- Without a row that does not answer a query, the query finds the same.
find_first-delete :
    (p : IdempotencyKey → Bool) (k : ℕ) (t : Table IdempotencyKey) (e : IdempotencyKey)
    → find k t ≡ some e
    → p e ≡ false
    → find_first p (delete k t) ≡ find_first p t
find_first-delete p k [] e h off = refl
find_first-delete p k (x ∷ t) e h off = elim (Bool-cases (k == x.0)) [
  | inl here ↦
      let row : x.1 ≡ e = some-injective _ _ (sym (rw here refl) ∙ h) in
      let off' = subst (λ (r : IdempotencyKey). p r ≡ false) (sym row) off in rw (here, off') refl
  | inr there ↦ ground (arith, find_first-delete p k t e (rw there at h) off)
]

-- Where the row of a name has expired, no row of the name is live.
expired_live :
    (n : Name) (now : ℕ) (t : Table IdempotencyKey) (k : ℕ) (e : IdempotencyKey)
    → IsUnique t
    → find_first (is_named n) t ≡ some (k, e)
    → is_expired now e ≡ true
    → find_first (is_live n now) t ≡ none
expired_live n now t k e (keyed, single) h over =
    elim (Option-cases (find_first (is_live n now) t)) [
      | inl gone ↦ gone
      | inr ((j, b), found) ↦
          let met = find_first_sound (is_live n now) t j b found in
          let there = find_first-find (is_named n) t k e keyed h in
          let there' = find_first-find (is_live n now) t j b keyed found in
          let met' = find_first_sound (is_named n) t k e h in
          let one : b.tenant ≡ e.tenant = ground (arith, met, met') in
          let two : b.key ≡ e.key = ground (arith, met, met') in
          let three : b.route ≡ e.route = ground (arith, met, met') in
          let at : j ≡ k = single j k b e there' there refl refl (λ i. (one i, two i, three i)) in
          let row : b ≡ e = some-injective _ _ (sym (rw at at there') ∙ there) in
          let over' = subst (λ (r : IdempotencyKey). is_expired now r ≡ true) (sym row) over in
          absurd (ground (arith, met, over'))
    ]

-- Primary keys differ, and so do the names of rows: `check` answers by the live row of the name, and
-- whatever it deletes, the live rows of all names stay.
pub check_answers :
    (stringify : ℕ → ℕ) (n m : Name) (s : Responses)
    → IsUnique s.rows
    → let (r, s') = check stringify n s in
      (r ≡ ok (answer_of stringify (live n s))) × (live m s' ≡ live m s)
unfolding check
check_answers stringify n m s unique = elim (Option-cases (find_first (is_named n) s.rows)) [
  | inl h ↦ let gone = missing_live n s.now s.rows h in (ground (arith, h, gone), ground (arith, h))
  | inr ((k, e), h) ↦ elim (Bool-cases (is_expired s.now e)) [
    | inl over ↦
        let gone = expired_live n s.now s.rows k e unique h over in
        let there = find_first-find (is_named n) s.rows k e unique.0 h in
        let kept = find_first-delete (is_live m s.now) k s.rows e there (ground (arith, over)) in
        (ground (arith, h, gone, over), ground (arith, h, over, kept))
    | inr fresh ↦
        let found = first_live n s.now s.rows k e h fresh in
        (ground (arith, h, found, fresh), ground (arith, h, fresh))
  ]
]

live-delete_many :
    (n : Name) (now : ℕ) (t : Table IdempotencyKey)
    → find_first (is_live n now) (delete_many (is_expired now) t) ≡ find_first (is_live n now) t
live-delete_many n now [] = refl
live-delete_many n now (e ∷ t) = elim (Bool-cases (is_expired now e.1)) [
  | inl over ↦ ground (arith, over, live-delete_many n now t)
  | inr fresh ↦ ground (arith, fresh, live-delete_many n now t)
]

find-delete_many-none :
    (q : IdempotencyKey → Bool) (k : ℕ) (t : Table IdempotencyKey)
    → find k t ≡ none
    → find k (delete_many q t) ≡ none
find-delete_many-none q k [] h = h
find-delete_many-none q k (e ∷ t) h = ground (arith, find-delete_many-none q k t)

IsKeyed-delete_many :
    (q : IdempotencyKey → Bool) (t : Table IdempotencyKey) → IsKeyed t → IsKeyed (delete_many q t)
IsKeyed-delete_many q [] h = h
IsKeyed-delete_many q (e ∷ t) h = elim (Bool-cases (q e.1)) [
  | inl yes' ↦ rw yes' (IsKeyed-delete_many q t h.1)
  | inr no' ↦ rw no' (find-delete_many-none q e.0 t h.0, IsKeyed-delete_many q t h.1)
]

find-delete_many :
    (q : IdempotencyKey → Bool) (j : ℕ) (b : IdempotencyKey) (t : Table IdempotencyKey)
    → IsKeyed t
    → find j (delete_many q t) ≡ some b
    → find j t ≡ some b
find-delete_many q j b [] h found = found
find-delete_many q j b (e ∷ t) h found = elim (Bool-cases (q e.1)) [
  | inl yes' ↦
      let later = find-delete_many q j b t h.1 (rw yes' at found) in
      let ne : j ≢ e.0 = λ same. (ground (arith, h.0, later)) in rw (==_of_ne j e.0 ne) later
  | inr no' ↦ elim (Bool-cases (j == e.0)) [
    | inl here ↦ rw here (rw (no', here) at found)
    | inr there ↦ rw there (find-delete_many q j b t h.1 (rw (no', there) at found))
  ]
]

IsUnique-delete_many :
    (q : IdempotencyKey → Bool) (t : Table IdempotencyKey) → IsUnique t → IsUnique (delete_many q t)
IsUnique-delete_many q t (keyed, single) = (
  IsKeyed-delete_many q t keyed,
  λ i j a b ha hb.
      single i j a b (find-delete_many q i a t keyed ha) (find-delete_many q j b t keyed hb),
)

-- Primary keys differ, and so do the names of rows: `check` answers after a cleanup what it answers
-- without one.
pub cleanup_unseen :
    (stringify : ℕ → ℕ) (n : Name) (s : Responses)
    → IsUnique s.rows
    → (check stringify n (cleanup s).1).0 ≡ (check stringify n s).0
unfolding cleanup
cleanup_unseen stringify n s unique =
    let s' = record s { rows = delete_many (is_expired s.now) s.rows } in
    let after =
      (check_answers stringify n n s' (IsUnique-delete_many (is_expired s.now) s.rows unique)).0 in
    let before = (check_answers stringify n n s unique).0 in
    after ∙ ap (λ x. ok (answer_of stringify x)) (live-delete_many n s.now s.rows) ∙ sym before

stored :
    (parse : ℕ → Option ℕ) (n : Name) (response parsed code hours : ℕ) (s : Responses)
    → parse response ≡ some parsed
    → (store parse n response code hours s).0 ≡ ok tt
    → (find_first (is_named n) s.rows ≡ none)
      × ((store parse n response code hours s).1 ≡ record s {
        rows = create s.next_key (new_row n parsed code (s.now + hours * 3600000)) s.rows;
        next_key = suc s.next_key;
      })
unfolding store
stored parse n response parsed code hours s read kept =
    elim (Option-cases (find_first (is_named n) s.rows)) [
      | inr (x, h) ↦ absurd (ground arith)
      | inl h ↦ (h, ground arith)
    ]

answered :
    (stringify : ℕ → ℕ) (n : Name) (k : ℕ) (e : IdempotencyKey) (s : Responses)
    → find_first (is_named n) s.rows ≡ some (k, e)
    → is_expired s.now e ≡ false
    → (check stringify n s).0 ≡ ok (some (stringify e.response, e.status_code))
unfolding check
answered stringify n k e s h fresh = ground arith

-- A response that was stored, and was parsed for it: as long as its hours have not passed and nothing
-- comes in between, `check` answers with it, printed, and with its status code.
pub store_then_check :
    (parse : ℕ → Option ℕ) (stringify : ℕ → ℕ) (n : Name) (response parsed code hours d : ℕ)
    (s : Responses)
    → parse response ≡ some parsed
    → (store parse n response code hours s).0 ≡ ok tt
    → d ≤ hours * 3600000
    → let s' = (store parse n response code hours s).1 in
      (check stringify n (record s' { now = s'.now + d })).0 ≡ ok (some (stringify parsed, code))
store_then_check parse stringify n response parsed code hours d s read kept le =
    let (free, whole) = stored parse n response parsed code hours s read kept in
    let row = new_row n parsed code (s.now + hours * 3600000) in
    let named : is_named n row ≡ true =
      rw (==_refl n.tenant, ==_refl n.key, ==_refl n.route) refl in
    let found = find_first-create (is_named n) s.next_key row s.rows free named in
    let fresh : is_expired (s.now + d) row ≡ false = ground (arith, le) in
    let after = record s {
      rows = create s.next_key row s.rows;
      next_key = suc s.next_key;
      now = s.now + d;
    } in
    rw whole (answered stringify n s.next_key row after found fresh)

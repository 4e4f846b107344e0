-- ===== src/ShiftManagement/Disjoint.antt =====
-- The shifts that stand for a user have no moment in common.
use coffee_shop_saas_platfor.Prelude.{
  ℕ, ◌≡◌, ◌≢◌, refl, sym, ap, ◌∙◌, ◌⊎◌, inl, inr, Bool, true, false, Option, none, some, List, [],
  ◌∷◌, ◌==◌, eq_of_==, arith, Bool-cases,
}
use mathlib.Core.Path.{subst}
use mathlib.Core.Option.{some-injective}
use coffee_shop_saas_platfor.Table.{
  Table, find, find_many, update, create, find-update_self, find-update_ne,
}
use coffee_shop_saas_platfor.Table.Rows.{find-create-cases, find-update-cases}
use coffee_shop_saas_platfor.Action.{ok}
use coffee_shop_saas_platfor.TimeEntry.Rows.{ShiftStatus, cancelled, no_show, scheduled}
use coffee_shop_saas_platfor.ShiftManagement.{
  update_shift, RosterCall, creates, reschedules, cancels, asks, answers, misses, roster_step,
  roster_run,
}
use coffee_shop_saas_platfor.ShiftManagement.Rows.{
  Roster, RosterShift, is_cancelled, is_conflict, without, is_empty, changed, set_status, new_shift,
}
use coffee_shop_saas_platfor.ShiftManagement.Calls.{
  IsFree, create_shift-cases, update_shift-cases, cancel_shift-cases, mark_no_show-cases,
  asked-shifts, answered-shifts,
}
use coffee_shop_saas_platfor.ShiftManagement.Conflicts.{Meets, Meets-is_conflict}

-- A shift stands that is neither cancelled nor missed.
abbrev pub stands : ShiftStatus → Bool
stands cancelled = false
stands no_show = false
stands _ = true

-- Two standing shifts of a user that have a moment in common are one.
abbrev pub IsDisjoint : Table RosterShift → Type 0
IsDisjoint t =
    (i j : ℕ) (a b : RosterShift)
    → find i t ≡ some a
    → find j t ≡ some b
    → stands a.status ≡ true
    → stands b.status ≡ true
    → a.user ≡ b.user
    → Meets a.start a.end_ b
    → i ≡ j

-- A row that a query does not find does not answer it.
unmatched :
    (q : RosterShift → Bool) (t : Table RosterShift) (j : ℕ) (a : RosterShift)
    → is_empty (find_many q t) ≡ true
    → find j t ≡ some a
    → q a ≡ false
unmatched q [] j a n h = absurd (ground arith)
unmatched q (e ∷ t) j a n h = ground (arith, unmatched q t j a)

find-without : (k j : ℕ) (t : Table RosterShift) → j ≢ k → find j (without (some k) t) ≡ find j t
find-without k j [] ne = refl
find-without k j (e ∷ t) ne = ground (arith, find-without k j t ne)

-- A standing shift of the user has no moment in common with a time that is free.
free-apart :
    (user start end_ j : ℕ) (a : RosterShift) (exclude : Option ℕ) (t : Table RosterShift)
    → IsFree user start end_ exclude t
    → find j (without exclude t) ≡ some a
    → a.user ≡ user
    → stands a.status ≡ true
    → Meets start end_ a
    → ⊥
free-apart user start end_ j a exclude t free h own on meets =
    let missed = unmatched (is_conflict user start end_) (without exclude t) j a free h in
    let kept : is_cancelled a.status ≡ false = ground (arith, on) in
    let met = Meets-is_conflict user start end_ a own kept meets in absurd (cc)

create-IsDisjoint :
    (k : ℕ) (v : RosterShift) (t : Table RosterShift)
    → IsFree v.user v.start v.end_ none t
    → IsDisjoint t
    → IsDisjoint (create k v t)
create-IsDisjoint k v t free d i j a b ha hb oa ob own meets =
    elim (find-create-cases i k v a t ha) [
      | inl old ↦ elim (find-create-cases j k v b t hb) [
        | inl old' ↦ d i j a b old old' oa ob own meets
        | inr (at, new) ↦ absurd (
            free-apart v.user v.start v.end_ i a none t free old
              (own ∙ ap (λ (s : RosterShift). s.user) new) oa
              (subst (λ (s : RosterShift). Meets s.start s.end_ a) new (meets.1, meets.0)))
      ]
      | inr (at, new) ↦ elim (find-create-cases j k v b t hb) [
        | inl old' ↦ absurd (
            free-apart v.user v.start v.end_ j b none t free old'
              (sym own ∙ ap (λ (s : RosterShift). s.user) new) ob
              (subst (λ (s : RosterShift). Meets s.start s.end_ b) new meets))
        | inr (at', new') ↦ at ∙ sym at'
      ]
    ]

-- A row of a table in which the row under `k` was changed: another one, or the changed one.
moved-cases :
    (k j : ℕ) (f : RosterShift → RosterShift) (t : Table RosterShift) (s b : RosterShift)
    → find k t ≡ some s
    → find j (update k f t) ≡ some b
    → ((j ≢ k) × (find j t ≡ some b)) ⊎ ((j ≡ k) × (b ≡ f s))
moved-cases k j f t s b there h = elim (Bool-cases (j == k)) [
  | inr other ↦ let ne : j ≢ k = ground arith in inl (ne, sym (find-update_ne j k f t ne) ∙ h)
  | inl same ↦
      let at : j ≡ k = eq_of_== j k same in
      inr (at, some-injective _ _ (sym (rw at at h) ∙ find-update_self k f t s there))
]

-- A change of a row that keeps its user, to a time that is free but for the row.
move-IsDisjoint :
    (k : ℕ) (f : RosterShift → RosterShift) (t : Table RosterShift) (s : RosterShift)
    → find k t ≡ some s
    → (f s).user ≡ s.user
    → IsFree s.user (f s).start (f s).end_ (some k) t
    → IsDisjoint t
    → IsDisjoint (update k f t)
move-IsDisjoint k f t s there keeps free d i j a b ha hb oa ob own meets =
    elim (moved-cases k i f t s a there ha) [
      | inl (ne, old) ↦ elim (moved-cases k j f t s b there hb) [
        | inl (ne', old') ↦ d i j a b old old' oa ob own meets
        | inr (at, new) ↦ absurd (
            free-apart s.user (f s).start (f s).end_ i a (some k) t free
              (find-without k i t ne ∙ old) (own ∙ ap (λ (x : RosterShift). x.user) new ∙ keeps) oa
              (subst (λ (x : RosterShift). Meets x.start x.end_ a) new (meets.1, meets.0)))
      ]
      | inr (at, new) ↦ elim (moved-cases k j f t s b there hb) [
        | inl (ne', old') ↦ absurd (
            free-apart s.user (f s).start (f s).end_ j b (some k) t free
              (find-without k j t ne' ∙ old')
              (sym own ∙ ap (λ (x : RosterShift). x.user) new ∙ keeps) ob
              (subst (λ (x : RosterShift). Meets x.start x.end_ b) new meets))
        | inr (at', new') ↦ at ∙ sym at'
      ]
    ]

-- A change of a row to one that does not stand, or that keeps user, time and standing.
drop-IsDisjoint :
    (k : ℕ) (f : RosterShift → RosterShift) (t : Table RosterShift)
    → ((x : RosterShift) → stands (f x).status ≡ false)
    → IsDisjoint t
    → IsDisjoint (update k f t)
drop-IsDisjoint k f t falls d i j a b ha hb oa ob own meets =
    elim (find-update-cases i k f t a ha) [
      | inr (at, x, old, new) ↦
          let off = subst (λ (r : RosterShift). stands r.status ≡ false) (sym new) (falls x) in
          absurd (cc)
      | inl old ↦ elim (find-update-cases j k f t b hb) [
        | inr (at, x, old', new) ↦
            let off = subst (λ (r : RosterShift). stands r.status ≡ false) (sym new) (falls x) in
            absurd (cc)
        | inl old' ↦ d i j a b old old' oa ob own meets
      ]
    ]

-- A row of a table in which a row was left as it was.
stood :
    (k j : ℕ) (f : RosterShift → RosterShift) (t : Table RosterShift) (b : RosterShift)
    → ((x : RosterShift) → f x ≡ x)
    → find j (update k f t) ≡ some b
    → find j t ≡ some b
stood k j f t b same h = elim (find-update-cases j k f t b h) [
  | inl old ↦ old
  | inr (at, x, old, new) ↦ old ∙ ap some (sym (new ∙ same x))
]

same-IsDisjoint :
    (k : ℕ) (f : RosterShift → RosterShift) (t : Table RosterShift)
    → ((x : RosterShift) → f x ≡ x)
    → IsDisjoint t
    → IsDisjoint (update k f t)
same-IsDisjoint k f t same d i j a b ha hb =
    d i j a b (stood k i f t a same ha) (stood k j f t b same hb)

step-IsDisjoint :
    (c : RosterCall) (r : Roster) → IsDisjoint r.shifts → IsDisjoint (roster_step c r).shifts
unfolding roster_step
step-IsDisjoint (creates tenant store user start end_ breaks duration) r d =
    elim (create_shift-cases tenant store user start end_ breaks duration r) [
      | inl same ↦ rw same d
      | inr (free, made) ↦ rw made (
          create-IsDisjoint r.next_key (new_shift tenant store user start end_ breaks duration)
            r.shifts free d)
    ]
step-IsDisjoint (reschedules k start end_) r d = elim (update_shift-cases k start end_ r) [
  | inl same ↦ rw same d
  | inr (s, there, moved, why) ↦ elim why [
    | inr free ↦ rw moved (move-IsDisjoint k (changed start end_ none) r.shifts s there refl free d)
    | inl (no_start, no_end) ↦
        rw moved (
          same-IsDisjoint k (changed start end_ none) r.shifts (λ x. (rw (no_start, no_end) refl))
            d)
  ]
]
step-IsDisjoint (cancels k) r d = elim (cancel_shift-cases k r) [
  | inl same ↦ rw same d
  | inr moved ↦ rw moved (drop-IsDisjoint k (set_status cancelled) r.shifts (λ x. refl) d)
]
step-IsDisjoint (asks k by with_user) r d = rw (asked-shifts k by with_user r) d
step-IsDisjoint (answers k manager yes') r d = rw (answered-shifts k manager yes' r) d
step-IsDisjoint (misses k) r d = elim (mark_no_show-cases k r) [
  | inl same ↦ rw same d
  | inr moved ↦ rw moved (drop-IsDisjoint k (set_status no_show) r.shifts (λ x. refl) d)
]

-- Whatever is called, in whatever order, and whether shifts end after they start or not, as long as no
-- update names a status: if no two shifts of a user that are neither cancelled nor missed have a
-- moment in common, none have afterwards.
pub roster_run-IsDisjoint :
    (cs : List RosterCall) (r : Roster) → IsDisjoint r.shifts → IsDisjoint (roster_run cs r).shifts
unfolding roster_run
roster_run-IsDisjoint [] r d = d
roster_run-IsDisjoint (c ∷ cs) r d =
    roster_run-IsDisjoint cs (roster_step c r) (step-IsDisjoint c r d)

-- A cancelled shift and a standing one of the same user that have a moment in common, under different
-- keys: an update of the first that names nothing but the status `SCHEDULED` ends well, and two
-- standing shifts of the user have a moment in common.
pub revived_overlaps :
    (k j : ℕ) (a b : RosterShift) (r : Roster)
    → find k r.shifts ≡ some a
    → find j r.shifts ≡ some b
    → k ≢ j
    → stands b.status ≡ true
    → a.user ≡ b.user
    → Meets a.start a.end_ b
    → let (x, r') = update_shift k none none (some scheduled) r in
      ((s : RosterShift) × (x ≡ ok s)) × (IsDisjoint r'.shifts → ⊥)
unfolding update_shift
revived_overlaps k j a b r ha hb ne ob own meets =
    let f = changed none none (some scheduled) in
    let whole : update_shift k none none (some scheduled) r
        ≡ (ok (f a), record r { shifts = update k f r.shifts }) =
      ground arith in
    rw whole (
      (f a, refl),
      λ d. ne (
          d k j (f a) b (find-update_self k f r.shifts a ha)
            (find-update_ne j k f r.shifts (λ same. (ne (sym same))) ∙ hb) refl ob own meets),
    )

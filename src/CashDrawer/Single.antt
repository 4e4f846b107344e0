-- ===== src/CashDrawer/Single.antt =====
-- A user has at most one open drawer in a store.
use coffee_shop_saas_platfor.Prelude.{
  ℕ, ◌≡◌, refl, sym, ap, ◌∙◌, ◌⊎◌, inl, inr, Bool, true, false, Option, none, some, List, [], ◌∷◌,
  arith, ◌==◌, ==_refl, eq_of_==, Bool-cases, Option-cases,
}
use mathlib.Core.Option.{some-injective}
use coffee_shop_saas_platfor.Table.{
  Table, find, find_first, update, create, sum_of, find-update, find-update_self, find-update_ne,
}
use coffee_shop_saas_platfor.Table.Rows.{find_first-none, find-create-cases}
use coffee_shop_saas_platfor.CashDrawer.{
  drops, open_drawer, close_drawer, create_cash_drop, verify_cash_drop, approve_cash_variance,
  expected_of, TillCall, opens, closes, verifies, approves, till_step, till_run,
}
use coffee_shop_saas_platfor.CashDrawer.Rows.{
  Till, Drawer, is_open, is_drawer_of, new_drawer, closed_as, set_approved, cash_of, Cash,
}
use coffee_shop_saas_platfor.Int.{ℤ}
use coffee_shop_saas_platfor.Schema.{PaymentStatus}

-- Two open drawers of the same user in the same store are one.
abbrev pub IsSingle : Table Drawer → Type 0
IsSingle t =
    (i j : ℕ) (a b : Drawer)
    → find i t ≡ some a
    → find j t ≡ some b
    → is_open a.status ≡ true
    → is_open b.status ≡ true
    → a.user ≡ b.user
    → a.store ≡ b.store
    → i ≡ j

-- A row of which no other open row has the user and the store may be added.
create-IsSingle :
    (k : ℕ) (v : Drawer) (t : Table Drawer)
    → find_first (is_drawer_of v.user v.store) t ≡ none
    → IsSingle t
    → IsSingle (create k v t)
create-IsSingle k v t free s i j a b ha hb oa ob u w = elim (find-create-cases i k v a t ha) [
  | inl old ↦ elim (find-create-cases j k v b t hb) [
    | inl old' ↦ s i j a b old old' oa ob u w
    | inr (at, new) ↦
        let stands = find_first-none (is_drawer_of v.user v.store) t i a free old in
        let is_v : is_drawer_of v.user v.store a ≡ true =
          rw (u, w, oa, new, ==_refl v.user, ==_refl v.store) in
        absurd (cc)
  ]
  | inr (at, new) ↦ elim (find-create-cases j k v b t hb) [
    | inl old' ↦
        let stands = find_first-none (is_drawer_of v.user v.store) t j b free old' in
        let is_v : is_drawer_of v.user v.store b ≡ true =
          rw (← u, ← w, ob, new, ==_refl v.user, ==_refl v.store) in
        absurd (cc)
    | inr (at', new') ↦ at ∙ sym at'
  ]
]

-- An open row of a table in which a row was closed stood there before.
open_before :
    (k j : ℕ) (f : Drawer → Drawer) (t : Table Drawer) (b : Drawer)
    → ((d : Drawer) → is_open (f d).status ≡ false)
    → find j (update k f t) ≡ some b
    → is_open b.status ≡ true
    → find j t ≡ some b
open_before k j f t b shuts h o = elim (Bool-cases (j == k)) [
  | inr other ↦ sym (find-update_ne j k f t (ground arith)) ∙ h
  | inl same ↦
      let at : j ≡ k = eq_of_== j k same in
      elim (Option-cases (find j t)) [
        | inl e ↦ absurd (ground (arith, find-update j k f t))
        | inr (a, e) ↦
            let row : f a ≡ b =
              some-injective _ _ (sym (find-update_self k f t a (rw (← at) e)) ∙ (rw at at h)) in
            absurd (cc (shuts a, ap (λ (d : Drawer). is_open d.status) row))
      ]
]

close-IsSingle :
    (k : ℕ) (f : Drawer → Drawer) (t : Table Drawer)
    → ((d : Drawer) → is_open (f d).status ≡ false)
    → IsSingle t
    → IsSingle (update k f t)
close-IsSingle k f t shuts s i j a b ha hb oa ob u w =
    s i j a b (open_before k i f t a shuts ha oa) (open_before k j f t b shuts hb ob) oa ob u w

open_cases :
    (can_open : ℕ → ℕ → Bool) (user store : ℕ) (cash : ℤ) (t : Till)
    → let t' = (open_drawer can_open user store cash t).1 in
      (t'.drawers ≡ t.drawers)
      ⊎ (find_first (is_drawer_of user store) t.drawers ≡ none)
        × (t'.drawers ≡ create t.next_key (new_drawer user store cash t.now) t.drawers)
unfolding open_drawer
open_cases can_open user store cash t =
    elim (Option-cases (find_first (is_drawer_of user store) t.drawers)) [
      | inl e ↦ ground arith
      | inr (r, e) ↦ ground arith
    ]

-- What a call that is not an opening does to the drawers.
abbrev Closes : Table Drawer → Table Drawer → Type 0
Closes t t' =
    (t' ≡ t)
    ⊎ (k : ℕ) × (f : Drawer → Drawer) × ((d : Drawer) → is_open (f d).status ≡ false)
      × (t' ≡ update k f t)

close_missing :
    (k : ℕ) (actual : ℤ) (counted : Option Cash) (t : Till)
    → find k t.drawers ≡ none
    → (close_drawer k actual counted t).1.drawers ≡ t.drawers
unfolding close_drawer
close_missing k actual counted t h = ground arith

-- The update that closes a drawer as the session stands.
abbrev closing : ℕ → ℤ → Drawer → Till → Drawer → Drawer
closing k actual d t =
    closed_as (expected_of k d t) actual (sum_of (cash_of PaymentStatus.completed d) t.payments)
      (sum_of (cash_of PaymentStatus.refunded d) t.payments)

close_found :
    (k : ℕ) (actual : ℤ) (counted : Option Cash) (t : Till) (d : Drawer)
    → find k t.drawers ≡ some d
    → let t' = (close_drawer k actual counted t).1 in
      (t'.drawers ≡ t.drawers) ⊎ (t'.drawers ≡ update k (closing k actual d t) t.drawers)
unfolding close_drawer
close_found k actual counted t d h = ground arith

close_cases :
    (k : ℕ) (actual : ℤ) (counted : Option Cash) (t : Till)
    → Closes t.drawers (close_drawer k actual counted t).1.drawers
close_cases k actual counted t = elim (Option-cases (find k t.drawers)) [
  | inl e ↦ inl (close_missing k actual counted t e)
  | inr (d, e) ↦ elim (close_found k actual counted t d e) [
    | inl same ↦ inl same
    | inr moved ↦ inr (k, closing k actual d t, (λ x. ground arith), moved)
  ]
]

approve_cases : (k : ℕ) (t : Till) → Closes t.drawers (approve_cash_variance k t).1.drawers
unfolding approve_cash_variance
approve_cases k t = elim (Option-cases (find k t.drawers)) [
  | inl e ↦ inl (ground arith)
  | inr (d, e) ↦ inr (k, set_approved, (λ x. refl), ground arith)
]

drop_kept : (k : ℕ) (amount : ℤ) (t : Till) → (create_cash_drop k amount t).1.drawers ≡ t.drawers
unfolding create_cash_drop
drop_kept k amount t = ground arith

verify_kept : (k by : ℕ) (t : Till) → (verify_cash_drop k by t).1.drawers ≡ t.drawers
unfolding verify_cash_drop
verify_kept k by t = ground arith

Closes-IsSingle : (t t' : Table Drawer) → Closes t t' → IsSingle t → IsSingle t'
Closes-IsSingle t t' (inl same) s = rw same s
Closes-IsSingle t t' (inr (k, f, shuts, moved)) s = rw moved (close-IsSingle k f t shuts s)

module _ (can_open : ℕ → ℕ → Bool) where
  step-IsSingle :
      (c : TillCall) (t : Till) → IsSingle t.drawers → IsSingle (till_step can_open c t).drawers
  unfolding till_step
  step-IsSingle (opens user store cash) t s = elim (open_cases can_open user store cash t) [
    | inl same ↦ rw same s
    | inr (free, moved) ↦
        rw moved (create-IsSingle t.next_key (new_drawer user store cash t.now) t.drawers free s)
  ]
  step-IsSingle (closes k actual counted) t s =
      Closes-IsSingle t.drawers (close_drawer k actual counted t).1.drawers
        (close_cases k actual counted t) s
  step-IsSingle (drops k amount) t s = rw (drop_kept k amount t) s
  step-IsSingle (verifies k by) t s = rw (verify_kept k by t) s
  step-IsSingle (approves k) t s =
      Closes-IsSingle t.drawers (approve_cash_variance k t).1.drawers (approve_cases k t) s

  -- Whatever is asked of the drawers, in whatever order and whoever may open one: if no user has two
  -- open drawers in a store, no user ever has.
  pub till_run-IsSingle :
      (cs : List TillCall) (t : Till)
      → IsSingle t.drawers
      → IsSingle (till_run can_open cs t).drawers
  unfolding till_run
  till_run-IsSingle [] t s = s
  till_run-IsSingle (c ∷ cs) t s =
      till_run-IsSingle cs (till_step can_open c t) (step-IsSingle c t s)

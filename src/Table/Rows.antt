-- ===== src/Table/Rows.antt =====
-- The rows of a table that was changed, told from the rows that it had: `updateMany`, `create` under a
-- key that is above all others, and a `findFirst` that finds nothing.
use coffee_shop_saas_platfor.Prelude.{
  ℕ, suc, ◌≤◌, ◌≡◌, refl, sym, ◌∙◌, ◌⊎◌, inl, inr, Bool, false, none, some, [], ◌∷◌, arith, ◌==◌,
  eq_of_==, if◌then◌else◌, Bool-cases, Option-cases,
}
use mathlib.Core.Option
use mathlib.Core.Option.{some-injective}
use coffee_shop_saas_platfor.Table.{
  Table, find, find_first, update, update_many, create, find-update_self, find-update_ne,
  find-create_ne,
}
use coffee_shop_saas_platfor.Table.Keys.{IsKeyed, find-update-none}

module _ {ℓ} {A : Type ℓ} where
  pub find_first-none :
      (q : A → Bool) (t : Table A) (j : ℕ) (a : A)
      → find_first q t ≡ none
      → find j t ≡ some a
      → q a ≡ false
  find_first-none q [] j a n h = absurd (ground arith)
  find_first-none q (e ∷ t) j a n h = ground (arith, find_first-none q t j a)

  pub find-create-cases :
      (j k : ℕ) (v a : A) (t : Table A)
      → find j (create k v t) ≡ some a
      → (find j t ≡ some a) ⊎ ((j ≡ k) × (a ≡ v))
  find-create-cases j k v a [] h = elim (Bool-cases (j == k)) [
    | inl same ↦ inr (eq_of_== j k same, some-injective _ _ (sym (rw same at h)))
    | inr other ↦ absurd (ground arith)
  ]
  find-create-cases j k v a (e ∷ t) h = elim (Bool-cases (j == e.0)) [
    | inl same ↦ inl (rw same (rw same at h))
    | inr other ↦ rw other (find-create-cases j k v a t (rw other at h))
  ]

  -- A row that was not the one updated stood there before; the one updated is its new form.
  pub find-update-cases :
      (j k : ℕ) (f : A → A) (t : Table A) (b : A)
      → find j (update k f t) ≡ some b
      → (find j t ≡ some b) ⊎ ((j ≡ k) × (a : A) × (find j t ≡ some a) × (b ≡ f a))
  find-update-cases j k f t b h = elim (Bool-cases (j == k)) [
    | inr other ↦ inl (sym (find-update_ne j k f t (ground arith)) ∙ h)
    | inl same ↦ elim (Option-cases (find j t)) [
      | inl e ↦ absurd (ground (arith, find-update-none j k f t e))
      | inr (a, e) ↦
          let at : j ≡ k = eq_of_== j k same in
          let row = find-update_self k f t a (rw (← at) e) in
          inr (at, a, e, some-injective _ _ (sym (rw at at h) ∙ row))
    ]
  ]

  pub find-update_many :
      (j : ℕ) (q : A → Bool) (f : A → A) (t : Table A)
      → find j (update_many q f t) ≡ Option.map (λ v. if q v then f v else v) (find j t)
  find-update_many j q f [] = refl
  find-update_many j q f (e ∷ t) = ground (arith, find-update_many j q f t)

  pub find-update_many-cases :
      (j : ℕ) (q : A → Bool) (f : A → A) (t : Table A) (b : A)
      → find j (update_many q f t) ≡ some b
      → (a : A) × (find j t ≡ some a) × (b ≡ (if q a then f a else a))
  find-update_many-cases j q f t b h = elim (Option-cases (find j t)) [
    | inl e ↦ absurd (ground (arith, find-update_many j q f t))
    | inr (a, e) ↦ (a, e, some-injective _ _ (sym h ∙ find-update_many j q f t ∙ (rw e)))
  ]

  pub find-update_many-none :
      (j : ℕ) (q : A → Bool) (f : A → A) (t : Table A)
      → find j t ≡ none
      → find j (update_many q f t) ≡ none
  find-update_many-none j q f t h = ground (arith, find-update_many j q f t)

  pub IsKeyed-update_many :
      (q : A → Bool) (f : A → A) (t : Table A) → IsKeyed t → IsKeyed (update_many q f t)
  IsKeyed-update_many q f [] h = h
  IsKeyed-update_many q f (e ∷ t) h =
      (find-update_many-none e.0 q f t h.0, IsKeyed-update_many q f t h.1)

  -- All keys of the table are below `n`, the next key to be given.
  abbrev pub IsBelow : ℕ → Table A → Type ℓ
  IsBelow n t = (k : ℕ) → n ≤ k → find k t ≡ none

  pub IsBelow-create : (n : ℕ) (v : A) (t : Table A) → IsBelow n t → IsBelow (suc n) (create n v t)
  IsBelow-create n v t h k le =
      find-create_ne k n v t (λ same. (omega (arith, same, le))) ∙ h k (omega (arith, le))

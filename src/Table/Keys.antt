-- ===== src/Table/Keys.antt =====
-- Tables whose keys differ, as a primary key has it, and what a query finds in them.
use coffee_shop_saas_platfor.Prelude.{
  ℕ, ◌≡◌, refl, sym, eq_of_==, ◌≢◌, ap, ◌∙◌, inl, inr, Bool, true, none, some, [], ◌∷◌, arith, ◌==◌,
  ==_of_ne, if◌then◌else◌, Bool-cases, All,
}
use mathlib.Core.Option.{some-injective}
use mathlib.Core.Path.{subst}
use coffee_shop_saas_platfor.Int.{ℤ, pos, ◌+ℤ◌, int_laws, parts_of_eq}
use coffee_shop_saas_platfor.Table.{
  Table, find, find_first, find_many, update, create, delete, sum_of, find-update_ne,
  find-create_ne,
}

module _ {ℓ} {A : Type ℓ} where
  abbrev pub IsKeyed : Table A → Type ℓ
  IsKeyed [] = Unit
  IsKeyed ((k, v) ∷ t) = (find k t ≡ none) × IsKeyed t

  -- Each row of `rows` stands in `t`.
  abbrev pub Listed : Table A → Table A → Type ℓ
  Listed t rows = All (λ e. find e.0 t ≡ some e.1) rows

  find-find_many-none :
      (q : A → Bool) (k : ℕ) (t : Table A) → find k t ≡ none → find k (find_many q t) ≡ none
  find-find_many-none q k [] h = refl
  find-find_many-none q k (e ∷ t) h = ground (arith, find-find_many-none q k t)

  pub IsKeyed-find_many : (q : A → Bool) (t : Table A) → IsKeyed t → IsKeyed (find_many q t)
  IsKeyed-find_many q [] h = h
  IsKeyed-find_many q (e ∷ t) h = elim (Bool-cases (q e.1)) [
    | inl yes' ↦ rw yes' (find-find_many-none q e.0 t h.0, IsKeyed-find_many q t h.1)
    | inr no' ↦ rw no' (IsKeyed-find_many q t h.1)
  ]

  -- The rows of a table with another key keep their places when a row is put in front.
  Listed-cons :
      (e : ℕ × A) (t rows : Table A) → find e.0 rows ≡ none → Listed t rows → Listed (e ∷ t) rows
  Listed-cons e t [] h l = l
  Listed-cons e t (r ∷ rows) h l = (ground arith, Listed-cons e t rows (ground arith) l.1)

  pub Listed-find_many : (q : A → Bool) (t : Table A) → IsKeyed t → Listed t (find_many q t)
  Listed-find_many q [] h = tt
  Listed-find_many q (e ∷ t) h =
      let rest =
        Listed-cons e t (find_many q t) (find-find_many-none q e.0 t h.0)
          (Listed-find_many q t h.1) in
      elim (Bool-cases (q e.1)) [ inl yes' ↦ rw yes' (ground arith, rest) | inr no' ↦ rw no' rest ]

  pub All-find_many : (q : A → Bool) (t : Table A) → All (λ e. q e.1 ≡ true) (find_many q t)
  All-find_many q [] = tt
  All-find_many q (e ∷ t) = elim (Bool-cases (q e.1)) [
    | inl yes' ↦ rw yes' (yes', All-find_many q t)
    | inr no' ↦ rw no' (All-find_many q t)
  ]

  pub Listed-update :
      (k : ℕ) (f : A → A) (t rows : Table A)
      → find k rows ≡ none
      → Listed t rows
      → Listed (update k f t) rows
  Listed-update k f t [] h l = l
  Listed-update k f t (r ∷ rows) h l =
      let other : r.0 ≢ k = λ e. (ground arith) in
      (find-update_ne r.0 k f t other ∙ l.0, Listed-update k f t rows (ground arith) l.1)

  pub find-update-none :
      (j k : ℕ) (f : A → A) (t : Table A) → find j t ≡ none → find j (update k f t) ≡ none
  find-update-none j k f [] h = refl
  find-update-none j k f (e ∷ t) h = ground (arith, find-update-none j k f t)

  pub IsKeyed-update : (k : ℕ) (f : A → A) (t : Table A) → IsKeyed t → IsKeyed (update k f t)
  IsKeyed-update k f [] h = h
  IsKeyed-update k f (e ∷ t) h = elim (Bool-cases (k == e.0)) [
    | inl here ↦ rw here h
    | inr there ↦ rw there (find-update-none e.0 k f t h.0, IsKeyed-update k f t h.1)
  ]

  pub sum_of-find_many :
      (w : A → ℤ) (q : A → Bool) (t : Table A)
      → sum_of w (find_many q t) ≡ sum_of (λ v. if q v then w v else pos 0) t
  sum_of-find_many w q [] = refl
  sum_of-find_many w q (e ∷ t) = elim (Bool-cases (q e.1)) [
    | inl yes' ↦ rw yes' (ap (λ s. w e.1 +ℤ s) (sum_of-find_many w q t))
    | inr no' ↦ rw no' (omega (int_laws, parts_of_eq (sum_of-find_many w q t)))
  ]

  pub find_first-find :
      (q : A → Bool) (t : Table A) (k : ℕ) (v : A)
      → IsKeyed t
      → find_first q t ≡ some (k, v)
      → find k t ≡ some v
  find_first-find q [] k v h e = ground arith
  find_first-find q (x ∷ t) k v h e = elim (Bool-cases (q x.1)) [
    | inl yes' ↦ ground arith
    | inr no' ↦
        let later = find_first-find q t k v h.1 (rw no' at e) in
        let other : k ≢ x.0 = λ same. (ground (arith, h.0, later)) in
        rw (==_of_ne k x.0 other) later
  ]

  pub find-create-none :
      (j k : ℕ) (v : A) (t : Table A) → j ≢ k → find j t ≡ none → find j (create k v t) ≡ none
  find-create-none j k v t ne h = find-create_ne j k v t ne ∙ h

  pub IsKeyed-create :
      (k : ℕ) (v : A) (t : Table A) → find k t ≡ none → IsKeyed t → IsKeyed (create k v t)
  IsKeyed-create k v [] h e = (refl, tt)
  IsKeyed-create k v (x ∷ t) h e = (
    find-create-none x.0 k v t (λ same. (ground arith)) e.0,
    IsKeyed-create k v t (ground arith) e.1,
  )

  pub All-create :
      (P : A → Type 0) (k : ℕ) (v : A) (t : Table A)
      → P v
      → All (λ e. P e.1) t
      → All (λ e. P e.1) (create k v t)
  All-create P k v [] p h = (p, tt)
  All-create P k v (e ∷ t) p h = (h.0, All-create P k v t p h.1)

  pub sum_of-delete :
      (w : A → ℤ) (k : ℕ) (t : Table A) (v : A)
      → find k t ≡ some v
      → sum_of w (delete k t) +ℤ w v ≡ sum_of w t
  sum_of-delete w k [] v h = ground arith
  sum_of-delete w k (e ∷ t) v h = elim (Bool-cases (k == e.0)) [
    | inl here ↦
        let same : w v ≡ w e.1 = ap w (some-injective _ _ (sym h ∙ (rw here))) in
        rw (here, same) (omega int_laws)
    | inr there ↦ rw there (omega (int_laws, parts_of_eq (sum_of-delete w k t v (rw there at h))))
  ]

  pub All-delete :
      (P : A → Type 0) (k : ℕ) (t : Table A) → All (λ e. P e.1) t → All (λ e. P e.1) (delete k t)
  All-delete P k [] h = h
  All-delete P k (e ∷ t) h = elim (Bool-cases (k == e.0)) [
    | inl here ↦ rw here h.1
    | inr there ↦ rw there (h.0, All-delete P k t h.1)
  ]

  find-delete-none : (j k : ℕ) (t : Table A) → find j t ≡ none → find j (delete k t) ≡ none
  find-delete-none j k [] h = refl
  find-delete-none j k (e ∷ t) h = ground (arith, find-delete-none j k t)

  pub IsKeyed-delete : (k : ℕ) (t : Table A) → IsKeyed t → IsKeyed (delete k t)
  IsKeyed-delete k [] h = h
  IsKeyed-delete k (e ∷ t) h = elim (Bool-cases (k == e.0)) [
    | inl here ↦ rw here h.1
    | inr there ↦ rw there (find-delete-none e.0 k t h.0, IsKeyed-delete k t h.1)
  ]

  -- A predicate on the rows, for one that is found.
  pub All-find {κ} :
      (P : ℕ × A → Type κ) (k : ℕ) (rows : Table A) (v : A)
      → All P rows
      → find k rows ≡ some v
      → P (k, v)
  All-find P k [] v h f = ground arith
  All-find P k (e ∷ rows) v h f = elim (Bool-cases (k == e.0)) [
    | inl here ↦
        let key = eq_of_== k e.0 here in
        let row : e.1 ≡ v = some-injective _ _ (sym (rw here refl) ∙ f) in
        subst P (λ i. (sym key i, row i)) h.0
    | inr there ↦ All-find P k rows v h.1 (rw there at f)
  ]

  -- What is found among the rows of a query is a row of the table, for which the query asks.
  pub find-find_many :
      (q : A → Bool) (k : ℕ) (t : Table A) (v : A)
      → IsKeyed t
      → find k (find_many q t) ≡ some v
      → (find k t ≡ some v) × (q v ≡ true)
  find-find_many q k t v h f = (
    All-find (λ e. find e.0 t ≡ some e.1) k (find_many q t) v (Listed-find_many q t h) f,
    All-find (λ e. q e.1 ≡ true) k (find_many q t) v (All-find_many q t) f,
  )

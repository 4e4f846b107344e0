-- ===== src/Table.antt =====
-- A database table: rows under their primary key, in the order in which they were created. The
-- operations are those of the Prisma client that the services call (`findUnique`, `findMany`,
-- `update`, `updateMany`, `create`, `aggregate`), each for one table.
pub mod Keys
pub mod Rows
pub mod Single
use coffee_shop_saas_platfor.Prelude.{
  ℕ, true, ◌≡◌, refl, sym, ap, ◌∙◌, ◌≢◌, inl, inr, Bool, Option, none, some, List, [], ◌∷◌, arith,
  ◌==◌, if◌then◌else◌, Bool-cases, length, All,
}
use mathlib.Core.Option
use mathlib.Core.Option.{some-injective}
use coffee_shop_saas_platfor.Int.{ℤ, pos, ◌+ℤ◌, int_laws, parts_of_eq}

abbrev pub Table {ℓ} : Type ℓ → Type ℓ
Table A = List (ℕ × A)

module _ {ℓ} {A : Type ℓ} where
  -- `findUnique({ where: { uuid } })`
  abbrev pub find : ℕ → Table A → Option A
  find k [] = none
  find k ((j, v) ∷ t) = if k == j then some v else find k t

  -- `findFirst({ where })`
  abbrev pub find_first : (A → Bool) → Table A → Option (ℕ × A)
  find_first p [] = none
  find_first p ((j, v) ∷ t) = if p v then some (j, v) else find_first p t

  -- `findMany({ where })`
  abbrev pub find_many : (A → Bool) → Table A → Table A
  find_many p [] = []
  find_many p ((j, v) ∷ t) = if p v then (j, v) ∷ find_many p t else find_many p t

  -- `update({ where: { uuid }, data })` for a row that exists
  abbrev pub update : ℕ → (A → A) → Table A → Table A
  update k f [] = []
  update k f ((j, v) ∷ t) = if k == j then (j, f v) ∷ t else (j, v) ∷ update k f t

  -- `updateMany({ where, data })`
  abbrev pub update_many : (A → Bool) → (A → A) → Table A → Table A
  update_many p f [] = []
  update_many p f ((j, v) ∷ t) = (j, if p v then f v else v) ∷ update_many p f t

  -- `create({ data })`, under a key that the database chooses
  abbrev pub create : ℕ → A → Table A → Table A
  create k v [] = (k, v) ∷ []
  create k v (e ∷ t) = e ∷ create k v t

  -- `delete({ where: { uuid } })`
  abbrev pub delete : ℕ → Table A → Table A
  delete k [] = []
  delete k ((j, v) ∷ t) = if k == j then t else (j, v) ∷ delete k t

  -- `aggregate({ where, _sum })`: the weight of a row that does not match is zero
  abbrev pub sum_of : (A → ℤ) → Table A → ℤ
  sum_of w [] = pos 0
  sum_of w ((_, v) ∷ t) = w v +ℤ sum_of w t

  pub find-update :
      (j k : ℕ) (f : A → A) (t : Table A)
      → find j (update k f t) ≡ (if j == k then Option.map f (find j t) else find j t)
  find-update j k f [] = ground arith
  find-update j k f (e ∷ t) = ground (arith, find-update j k f t)

  pub find-update_self :
      (k : ℕ) (f : A → A) (t : Table A) (v : A)
      → find k t ≡ some v
      → find k (update k f t) ≡ some (f v)
  find-update_self k f [] v h = ground arith
  find-update_self k f (e ∷ t) v h = ground (arith, find-update_self k f t v)

  pub find-update_ne :
      (j k : ℕ) (f : A → A) (t : Table A) → j ≢ k → find j (update k f t) ≡ find j t
  find-update_ne j k f [] h = refl
  find-update_ne j k f (e ∷ t) h = ground (arith, find-update_ne j k f t)

  pub find-create_self :
      (k : ℕ) (v : A) (t : Table A) → find k t ≡ none → find k (create k v t) ≡ some v
  find-create_self k v [] h = ground arith
  find-create_self k v (e ∷ t) h = ground (arith, find-create_self k v t)

  pub find-create_ne : (j k : ℕ) (v : A) (t : Table A) → j ≢ k → find j (create k v t) ≡ find j t
  find-create_ne j k v [] h = ground arith
  find-create_ne j k v (e ∷ t) h = ground (arith, find-create_ne j k v t)

  -- An update moves the sum by the change of the one row's weight.
  pub sum_of-update :
      (w : A → ℤ) (k : ℕ) (f : A → A) (t : Table A) (v : A)
      → find k t ≡ some v
      → sum_of w (update k f t) +ℤ w v ≡ sum_of w t +ℤ w (f v)
  sum_of-update w k f [] v h = ground arith
  sum_of-update w k f (e ∷ t) v h = elim (Bool-cases (k == e.0)) [
    | inl here ↦
        let same : w v ≡ w e.1 = ap w (some-injective _ _ (sym h ∙ (rw here))) in
        let new : w (f v) ≡ w (f e.1) =
          ap (λ u. w (f u)) (some-injective _ _ (sym h ∙ (rw here))) in
        rw (here, same, new) (omega int_laws)
    | inr there ↦ rw there (omega (int_laws, parts_of_eq (sum_of-update w k f t v (rw there at h))))
  ]

  pub sum_of-create :
      (w : A → ℤ) (k : ℕ) (v : A) (t : Table A) → sum_of w (create k v t) ≡ sum_of w t +ℤ w v
  sum_of-create w k v [] = omega int_laws
  sum_of-create w k v (e ∷ t) = omega (int_laws, parts_of_eq (sum_of-create w k v t))

  pub sum_of-update_twice :
      (w : A → ℤ) (k : ℕ) (f g : A → A) (t : Table A) (v : A)
      → find k t ≡ some v
      → sum_of w (update k f (update k g t)) +ℤ w v ≡ sum_of w t +ℤ w (f (g v))
  sum_of-update_twice w k f g t v h =
      let first = parts_of_eq (sum_of-update w k g t v h) in
      let second =
        parts_of_eq (sum_of-update w k f (update k g t) (g v) (find-update_self k g t v h)) in
      omega (int_laws, first, second)

  -- A predicate on rows, and an update of one row that keeps it.
  pub All-update :
      (P : A → Type 0) (k : ℕ) (f : A → A) (t : Table A)
      → ((v : A) → P v → P (f v))
      → All (λ e. P e.1) t
      → All (λ e. P e.1) (update k f t)
  All-update P k f [] keep h = h
  All-update P k f (e ∷ t) keep h = elim (Bool-cases (k == e.0)) [
    | inl here ↦ rw here (keep e.1 h.0, h.1)
    | inr there ↦ rw there (h.0, All-update P k f t keep h.1)
  ]

  pub find_first_sound :
      (q : A → Bool) (t : Table A) (k : ℕ) (v : A) → find_first q t ≡ some (k, v) → q v ≡ true
  find_first_sound q [] k v h = ground arith
  find_first_sound q (e ∷ t) k v h = ground (arith, find_first_sound q t k v)

  pub find_first-update :
      (q : A → Bool) (f : A → A) (t : Table A) (k : ℕ) (v : A)
      → find_first q t ≡ some (k, v)
      → find k t ≡ some v
      → q (f v) ≡ true
      → find_first q (update k f t) ≡ some (k, f v)
  find_first-update q f [] k v h e keep = ground arith
  find_first-update q f (x ∷ t) k v h e keep =
      ground (arith, find_first_sound q (x ∷ t) k v h, find_first-update q f t k v)

  pub find_first-create :
      (q : A → Bool) (k : ℕ) (v : A) (t : Table A)
      → find_first q t ≡ none
      → q v ≡ true
      → find_first q (create k v t) ≡ some (k, v)
  find_first-create q k v [] h e = rw e refl
  find_first-create q k v (x ∷ t) h e = ground (arith, find_first-create q k v t)

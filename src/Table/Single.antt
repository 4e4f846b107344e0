-- ===== src/Table/Single.antt =====
-- Tables in which an owner has at most one row that is on: `is_on` and `owner` say which rows are, and
-- whose they are.
use coffee_shop_saas_platfor.Prelude.{
  ℕ, ◌≡◌, refl, sym, ap, ◌∙◌, inl, inr, Bool, true, false, none, some, Bool-cases,
}
use mathlib.Core.Path.{subst}
use mathlib.Core.Option.{some-injective}
use coffee_shop_saas_platfor.Table.{
  Table, find, find_first, update, update_many, create, find-update_self,
}
use coffee_shop_saas_platfor.Table.Rows.{
  find_first-none, find-create-cases, find-update-cases, find-update_many-cases,
}

module _ {A B : Type 0} (is_on : A → Bool) (owner : A → B) where
  -- Two rows of an owner that are on are one.
  abbrev pub IsSingle : Table A → Type 0
  IsSingle t =
      (i j : ℕ) (a b : A)
      → find i t ≡ some a
      → find j t ≡ some b
      → is_on a ≡ true
      → is_on b ≡ true
      → owner a ≡ owner b
      → i ≡ j

  -- The owner has no row that is on.
  abbrev pub IsIdle : B → Table A → Type 0
  IsIdle w t = (j : ℕ) (b : A) → find j t ≡ some b → is_on b ≡ true → owner b ≡ w → ⊥

  -- A change of a row that turns none on and leaves the owner.
  abbrev pub Fades : (A → A) → Type 0
  Fades f = (v : A) → (owner (f v) ≡ owner v) × (is_on (f v) ≡ true → is_on v ≡ true)

  -- Each row of `t'` that is on stood in `t`, on and of the same owner.
  abbrev pub Faded : Table A → Table A → Type 0
  Faded t t' =
      (j : ℕ) (b : A)
      → find j t' ≡ some b
      → is_on b ≡ true
      → (a : A) × (find j t ≡ some a) × (is_on a ≡ true) × (owner a ≡ owner b)

  pub Faded-update : (k : ℕ) (f : A → A) (t : Table A) → Fades f → Faded t (update k f t)
  Faded-update k f t fades j b h on = elim (find-update-cases j k f t b h) [
    | inl old ↦ (b, old, on, refl)
    | inr (at, a, old, new) ↦
        let on' = subst (λ r. is_on r ≡ true) new on in
        (a, old, (fades a).1 on', sym (fades a).0 ∙ ap owner (sym new))
  ]

  pub Faded-update_many :
      (q : A → Bool) (f : A → A) (t : Table A) → Fades f → Faded t (update_many q f t)
  Faded-update_many q f t fades j b h on =
      let (a, old, new) = find-update_many-cases j q f t b h in
      elim (Bool-cases (q a)) [
        | inl yes' ↦
            let new' : b ≡ f a = new ∙ (rw yes') in
            let on' = subst (λ r. is_on r ≡ true) new' on in
            (a, old, (fades a).1 on', sym (fades a).0 ∙ ap owner (sym new'))
        | inr no' ↦
            let new' : b ≡ a = new ∙ (rw no') in
            (a, old, subst (λ r. is_on r ≡ true) new' on, ap owner (sym new'))
      ]

  pub IsSingle-Faded : (t t' : Table A) → Faded t t' → IsSingle t → IsSingle t'
  IsSingle-Faded t t' fade s i j a b ha hb oa ob same =
      let (a', ha', oa', fa) = fade i a ha oa in
      let (b', hb', ob', fb) = fade j b hb ob in s i j a' b' ha' hb' oa' ob' (fa ∙ same ∙ sym fb)

  pub IsSingle-update :
      (k : ℕ) (f : A → A) (t : Table A) → Fades f → IsSingle t → IsSingle (update k f t)
  IsSingle-update k f t fades s = IsSingle-Faded t (update k f t) (Faded-update k f t fades) s

  -- A row may be added to an owner that has none that is on.
  pub IsSingle-create :
      (k : ℕ) (v : A) (t : Table A) → IsIdle (owner v) t → IsSingle t → IsSingle (create k v t)
  IsSingle-create k v t idle s i j a b ha hb oa ob same = elim (find-create-cases i k v a t ha) [
    | inl old ↦ elim (find-create-cases j k v b t hb) [
      | inl old' ↦ s i j a b old old' oa ob same
      | inr (at, new) ↦ absurd (idle i a old oa (same ∙ ap owner new))
    ]
    | inr (at, new) ↦ elim (find-create-cases j k v b t hb) [
      | inl old' ↦ absurd (idle j b old' ob (sym same ∙ ap owner new))
      | inr (at', new') ↦ at ∙ sym at'
    ]
  ]

  -- An owner whose row that is on stands under `k` is idle once that row is off.
  pub IsIdle-update :
      (k : ℕ) (f : A → A) (t : Table A) (v : A)
      → ((r : A) → is_on (f r) ≡ false)
      → IsSingle t
      → find k t ≡ some v
      → is_on v ≡ true
      → IsIdle (owner v) (update k f t)
  IsIdle-update k f t v ends single h on j b hb ob same = elim (find-update-cases j k f t b hb) [
    | inl old ↦
        let at : j ≡ k = single j k b v old h ob on same in
        let row = find-update_self k f t v h in
        let new : b ≡ f v = some-injective _ _ (sym (rw at at hb) ∙ row) in
        let off = subst (λ r. is_on r ≡ false) (sym new) (ends v) in absurd (cc)
    | inr (at, a, old, new) ↦
        let off = subst (λ r. is_on r ≡ false) (sym new) (ends a) in absurd (cc)
  ]

  -- An owner is idle when a query that any row of it that is on would answer finds nothing.
  pub find_first-IsIdle :
      (q : A → Bool) (w : B) (t : Table A)
      → ((v : A) → is_on v ≡ true → owner v ≡ w → q v ≡ true)
      → find_first q t ≡ none
      → IsIdle w t
  find_first-IsIdle q w t asks h j b hb ob same =
      let missed = find_first-none q t j b h hb in let met = asks b ob same in absurd (cc)

-- ===== src/MenuDiff/Lists.antt =====
-- Each list that `calculateDiff` fills, as what one pass over a map gathers.
use coffee_shop_saas_platfor.Prelude.{
  ℕ, ◌≡◌, refl, sym, ap, ◌∙◌, inl, inr, true, false, Option, none, some, [], ◌∷◌, ◌++◌, arith, ◌==◌,
  if◌then◌else◌, Bool-cases, eq_of_==,
}
use mathlib.Core.List.{append_assoc, append-nil}
use coffee_shop_saas_platfor.Table.{Table, find}
use coffee_shop_saas_platfor.Table.Keys.{IsKeyed}
use coffee_shop_saas_platfor.MenuDiff.{each}
use coffee_shop_saas_platfor.MenuDiff.Changes.{Diff, set_key, map_of, set_all}

module _ {κ} {B : Type κ} where
  abbrev pub one : ℕ → Option B → Table B
  one k none = []
  one k (some b) = (k, b) ∷ []

  find_other :
      (j k : ℕ) (o : Option B) (t : Table B) → (j == k) ≡ false → find j (one k o ++ t) ≡ find j t
  find_other j k none t h = refl
  find_other j k (some b) t h = rw h refl

  find_here :
      (j k : ℕ) (o : Option B) (t : Table B)
      → (j == k) ≡ true
      → find j t ≡ none
      → find j (one k o ++ t) ≡ o
  find_here j k none t h e = e
  find_here j k (some b) t h e = rw h refl

module _ {ℓ κ} {A : Type ℓ} {B : Type κ} where
  -- What the rows of a map give, each at most one entry under its own key.
  abbrev pub gather : (ℕ → A → Option B) → Table A → Table B
  gather g [] = []
  gather g ((k, v) ∷ t) = one k (g k v) ++ gather g t

  abbrev pub given : (ℕ → A → Option B) → ℕ → Option A → Option B
  given g k none = none
  given g k (some v) = g k v

  find-gather-none :
      (g : ℕ → A → Option B) (j : ℕ) (t : Table A) → find j t ≡ none → find j (gather g t) ≡ none
  find-gather-none g j [] h = refl
  find-gather-none g j ((k, v) ∷ t) h = elim (Bool-cases (j == k)) [
    | inl e ↦ absurd (ground (arith, h, e))
    | inr e ↦ find_other j k (g k v) (gather g t) e ∙ find-gather-none g j t (rw e at h)
  ]

  pub find-gather :
      (g : ℕ → A → Option B) (j : ℕ) (t : Table A)
      → IsKeyed t
      → find j (gather g t) ≡ given g j (find j t)
  find-gather g j [] h = refl
  find-gather g j ((k, v) ∷ t) h = elim (Bool-cases (j == k)) [
    | inl e ↦
        let same = eq_of_== j k e in
        rw e (
          find_here j k (g k v) (gather g t) e (find-gather-none g j t (rw same h.0))
          ∙ ap (λ i. g i v) (sym same))
    | inr e ↦ rw e (find_other j k (g k v) (gather g t) e ∙ find-gather g j t h.1)
  ]

  pub each-gather :
      (field : Diff → Table B) (f : ℕ → A → Diff → Diff) (g : ℕ → A → Option B)
      → ((k : ℕ) (v : A) (d : Diff) → field (f k v d) ≡ field d ++ one k (g k v))
      → (t : Table A) (d : Diff) → field (each f t d) ≡ field d ++ gather g t
  each-gather field f g step [] d = sym (append-nil (field d))
  each-gather field f g step ((k, v) ∷ t) d =
      each-gather field f g step t (f k v d)
      ∙ ap (λ l. l ++ gather g t) (step k v d)
      ∙ append_assoc (field d) (one k (g k v)) (gather g t)

  pub each-same :
      (field : Diff → Table B) (f : ℕ → A → Diff → Diff)
      → ((k : ℕ) (v : A) (d : Diff) → field (f k v d) ≡ field d)
      → (t : Table A) (d : Diff) → field (each f t d) ≡ field d
  each-same field f step [] d = refl
  each-same field f step ((k, v) ∷ t) d = each-same field f step t (f k v d) ∙ step k v d

module _ {ℓ} {A : Type ℓ} where
  find-set_key :
      (j k : ℕ) (v : A) (t : Table A)
      → find j (set_key k v t) ≡ (if j == k then some v else find j t)
  find-set_key j k v [] = refl
  find-set_key j k v (e ∷ t) = ground (arith, find-set_key j k v t)

  IsKeyed-set_key : (k : ℕ) (v : A) (t : Table A) → IsKeyed t → IsKeyed (set_key k v t)
  IsKeyed-set_key k v [] h = (refl, tt)
  IsKeyed-set_key k v ((j, w) ∷ t) h = elim (Bool-cases (k == j)) [
    | inl e ↦ rw e h
    | inr e ↦ rw e (ground (arith, find-set_key j k v t, h.0, e), IsKeyed-set_key k v t h.1)
  ]

  IsKeyed-set_all : (t m : Table A) → IsKeyed m → IsKeyed (set_all t m)
  IsKeyed-set_all [] m h = h
  IsKeyed-set_all ((k, v) ∷ t) m h = IsKeyed-set_all t (set_key k v m) (IsKeyed-set_key k v m h)

  pub IsKeyed-map_of : (t : Table A) → IsKeyed (map_of t)
  unfolding map_of
  IsKeyed-map_of t = IsKeyed-set_all t [] tt

-- ===== src/Token/Sound.antt =====
-- Tables of refresh tokens in which every family has at most one active token.
use coffee_shop_saas_platfor.Prelude.{ℕ, suc, ◌<◌, ◌≡◌, sym, inl, inr, Bool, true, some, arith}
use mathlib.Core.Path.{subst}
use coffee_shop_saas_platfor.Table.{Table, find, update, update_many, create}
use coffee_shop_saas_platfor.Table.Keys.{IsKeyed, IsKeyed-update, IsKeyed-create, find-update-none}
use coffee_shop_saas_platfor.Table.Rows.{
  IsBelow, IsBelow-create, find-create-cases, find-update_many-none, IsKeyed-update_many,
}
use coffee_shop_saas_platfor.Table.Single
use coffee_shop_saas_platfor.Table.Single.{
  Faded, Faded-update, Faded-update_many, IsSingle-Faded, IsSingle-create,
}
use coffee_shop_saas_platfor.Token.Rows.{RefreshToken, is_active}

abbrev pub is_on : RefreshToken → Bool
is_on t = is_active t.status

abbrev pub family_of : RefreshToken → ℕ
family_of t = t.family

-- No family has two active tokens.
abbrev pub IsSingle : Table RefreshToken → Type 0
IsSingle t = Single.IsSingle is_on family_of t

-- No token of the family is active.
abbrev pub IsIdle : ℕ → Table RefreshToken → Type 0
IsIdle f t = Single.IsIdle is_on family_of f t

-- A change of a row that activates nothing and leaves the family.
abbrev pub Fades : (RefreshToken → RefreshToken) → Type 0
Fades f = Single.Fades is_on family_of f

-- The families of active tokens are below `n`.
abbrev pub IsKnown : ℕ → Table RefreshToken → Type 0
IsKnown n t =
    (i : ℕ) (a : RefreshToken) → find i t ≡ some a → is_active a.status ≡ true → a.family < n

-- The primary keys differ and are below the next one, families of active tokens too, and every
-- family has at most one active token.
abbrev pub IsSound : ℕ → Table RefreshToken → Type 0
IsSound n t = IsKeyed t × IsBelow n t × IsSingle t × IsKnown n t

IsKnown-Faded :
    (n : ℕ) (t t' : Table RefreshToken) → Faded is_on family_of t t' → IsKnown n t → IsKnown n t'
IsKnown-Faded n t t' fade known i a ha oa =
    let (a', ha', oa', fa) = fade i a ha oa in subst (λ (x : ℕ). x < n) fa (known i a' ha' oa')

pub IsSound-update :
    (n k : ℕ) (f : RefreshToken → RefreshToken) (t : Table RefreshToken)
    → Fades f
    → IsSound n t
    → IsSound n (update k f t)
IsSound-update n k f t fades (keyed, below, single, known) =
    let fade = Faded-update is_on family_of k f t fades in
    (
      IsKeyed-update k f t keyed,
      λ j le. find-update-none j k f t (below j le),
      IsSingle-Faded is_on family_of t (update k f t) fade single,
      IsKnown-Faded n t (update k f t) fade known,
    )

pub IsSound-update_many :
    (n : ℕ) (q : RefreshToken → Bool) (f : RefreshToken → RefreshToken) (t : Table RefreshToken)
    → Fades f
    → IsSound n t
    → IsSound n (update_many q f t)
IsSound-update_many n q f t fades (keyed, below, single, known) =
    let fade = Faded-update_many is_on family_of q f t fades in
    (
      IsKeyed-update_many q f t keyed,
      λ j le. find-update_many-none j q f t (below j le),
      IsSingle-Faded is_on family_of t (update_many q f t) fade single,
      IsKnown-Faded n t (update_many q f t) fade known,
    )

pub IsSound-suc : (n : ℕ) (t : Table RefreshToken) → IsSound n t → IsSound (suc n) t
IsSound-suc n t (keyed, below, single, known) = (
  keyed,
  λ j le. below j (omega (arith, le)),
  single,
  λ i a ha oa. (let lt = known i a ha oa in omega (arith, lt)),
)

-- A token may be added to a family of which no token is active.
pub IsSound-create :
    (n : ℕ) (v : RefreshToken) (t : Table RefreshToken)
    → IsIdle v.family t
    → v.family < suc n
    → IsSound n t
    → IsSound (suc n) (create n v t)
IsSound-create n v t idle lt (keyed, below, single, known) = (
  IsKeyed-create n v t (below n (omega arith)) keyed,
  IsBelow-create n v t below,
  IsSingle-create is_on family_of n v t idle single,
  λ i a ha oa. elim (find-create-cases i n v a t ha) [
    | inl old ↦ (let lt' = known i a old oa in omega (arith, lt'))
    | inr (at, new) ↦ subst (λ (r : RefreshToken). r.family < suc n) (sym new) lt
  ],
)

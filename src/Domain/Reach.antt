-- ===== src/Domain/Reach.antt =====
-- Paths through a transition table.
use coffee_shop_saas_platfor.Prelude.{◌≡◌, Bool, true}

pub data Reach {ℓ} {A : Type ℓ} (edge : A → A → Bool) (s : A) : A → Type ℓ where
  here : Reach edge s s
  next : {t u : A} → Reach edge s t → edge t u ≡ true → Reach edge s u

pub Reach-trans {ℓ} :
    {A : Type ℓ} (edge : A → A → Bool) {s t u : A}
    → Reach edge s t
    → Reach edge t u
    → Reach edge s u
Reach-trans edge r here = r
Reach-trans edge r (next q e) = next (Reach-trans edge r q) e

-- ===== src/Quota/Budget.antt =====
-- Guarded requests, one after the other, as a budget that is spent.
use coffee_shop_saas_platfor.Prelude.{
  ℕ, ◌≡◌, refl, ap, ◌∙◌, ◌⊎◌, inl, inr, Bool, true, false, some, List, [], ◌∷◌, map, if◌then◌else◌,
  Bool-cases,
}
use coffee_shop_saas_platfor.Int.{
  ℤ, pos, ◌+ℤ◌, ◌-ℤ◌, ◌≤ℤ◌, leb_ℤ, leb→le_ℤ, leb→lt_ℤ, le→leb_ℤ, lt→leb_ℤ, int_laws, parts_of_eq,
}
use coffee_shop_saas_platfor.Table.{update, find_first-update, find_first_sound}
use coffee_shop_saas_platfor.Table.Keys.{IsKeyed, IsKeyed-update, find_first-find}
use coffee_shop_saas_platfor.Quota.Found.{guard_found, counted_found}
use coffee_shop_saas_platfor.Quota.{
  Quotas, UsageQuota, is_quota, quota_of, amount_or_one, add_used, GuardAnswer, next,
  quota_exceeded, quota_guard, increment_quota_after,
}

-- The specification: a budget, of which an amount is granted while it lasts.
unfoldable pub spend : ℤ → ℤ → Bool × ℤ
spend amount left = if leb_ℤ amount left then (true, left -ℤ amount) else (false, left)

unfoldable pub spend_all : List ℤ → ℤ → List Bool × ℤ
spend_all [] left = ([], left)
spend_all (a ∷ as') left =
    let (granted, left') = spend a left in
    let (rest, final) = spend_all as' left' in (granted ∷ rest, final)

abbrev pub is_next : GuardAnswer → Bool
is_next (next _ _) = true
is_next _ = false

-- What is left of a quota.
abbrev pub left_of : UsageQuota → ℤ
left_of q = q.limit -ℤ q.used

module _ (near : ℤ → ℤ → Bool) (tenant key : ℕ) where
  -- A request through the guard: whether it was let through, and the quotas after it was counted.
  unfoldable pub guarded : ℤ → Quotas → Bool × Quotas
  guarded amount s =
      let g = quota_guard key (some amount) (some tenant) s in
      (is_next g, (increment_quota_after near (some tenant) g s).1)

  unfoldable pub guarded_all : List ℤ → Quotas → List Bool × Quotas
  guarded_all [] s = ([], s)
  guarded_all (a ∷ as') s =
      let (granted, s') = guarded a s in
      let (rest, final) = guarded_all as' s' in (granted ∷ rest, final)

  guarded_found :
      (amount : ℤ) (s : Quotas) (k : ℕ) (q : UsageQuota)
      → quota_of tenant key s ≡ some (k, q)
      → let a = amount_or_one (some amount) in
        let (g, s') = guarded amount s in
        ((leb_ℤ (q.used +ℤ a) q.limit ≡ true)
          × (g ≡ true)
          × (s'.quotas ≡ update k (add_used a) s.quotas))
        ⊎ ((leb_ℤ (q.used +ℤ a) q.limit ≡ false) × (g ≡ false) × (s'.quotas ≡ s.quotas))
  unfolding guarded increment_quota_after
  guarded_found amount s k q h =
      let a = amount_or_one (some amount) in
      let guard = guard_found tenant key s k q h amount in
      elim (Bool-cases (leb_ℤ (q.used +ℤ a) q.limit)) [
        | inl fits ↦
            let g : quota_guard key (some amount) (some tenant) s ≡ next key amount =
              guard ∙ rw fits refl in
            inl (
              fits,
              ap is_next g,
              ap (λ g. (increment_quota_after near (some tenant) g s).1.quotas) g
                  ∙ counted_found tenant key s k q h near amount,
            )
        | inr short ↦
            let g : quota_guard key (some amount) (some tenant) s ≡ quota_exceeded =
              guard ∙ rw short refl in
            inr (
              short,
              ap is_next g,
              ap (λ g. (increment_quota_after near (some tenant) g s).1.quotas) g,
            )
      ]

  -- The quota row stands for a budget.
  abbrev pub Stands : ℕ → ℤ → ℤ → Quotas → Type 0
  Stands k limit left s =
      (q : UsageQuota) × (quota_of tenant key s ≡ some (k, q))
      × (q.limit ≡ limit)
      × (left_of q ≡ left)
      × IsKeyed s.quotas

  guarded-spend :
      (amount : ℤ) (s : Quotas) (k : ℕ) (limit left : ℤ)
      → Stands k limit left s
      → let (granted, left') = spend (amount_or_one (some amount)) left in
        let (g, s') = guarded amount s in (g ≡ granted) × Stands k limit left' s'
  unfolding spend
  guarded-spend amount s k limit left (q, h, hl, hr, keyed) =
      let a = amount_or_one (some amount) in
      let facts = parts_of_eq hr in
      let row = find_first-find (is_quota tenant key) s.quotas k q keyed h in
      let mine = find_first_sound (is_quota tenant key) s.quotas k q h in
      elim (guarded_found amount s k q h) [
        | inl (fits, yes', moved) ↦
            let le : leb_ℤ a left ≡ true =
              le→leb_ℤ a left (omega (int_laws, facts, leb→le_ℤ (q.used +ℤ a) q.limit fits)) in
            rw le (
              yes',
              (
                add_used a q,
                rw moved
                    (find_first-update (is_quota tenant key) (add_used a) s.quotas k q h row mine),
                hl,
                omega (int_laws, facts),
                rw moved (IsKeyed-update k (add_used a) s.quotas keyed),
              ),
            )
        | inr (short, no', same) ↦
            let gt : leb_ℤ a left ≡ false =
              lt→leb_ℤ a left (omega (int_laws, facts, leb→lt_ℤ (q.used +ℤ a) q.limit short)) in
            rw gt (no', (q, rw same h, hl, hr, rw same keyed))
      ]

  -- Where the keys of quotas differ and the tenant has the quota: requests for it that are guarded and
  -- counted one after the other are granted exactly as the specification grants them from what was
  -- left of the quota, and leave what it leaves; the limit stays as it was, and the keys still differ.
  pub guarded_all-spend_all :
      (amounts : List ℤ) (s : Quotas) (k : ℕ) (limit left : ℤ)
      → Stands k limit left s
      → let (granted, left') = spend_all (map (λ a. amount_or_one (some a)) amounts) left in
        let (g, s') = guarded_all amounts s in (g ≡ granted) × Stands k limit left' s'
  unfolding guarded_all spend_all
  guarded_all-spend_all [] s k limit left st = (refl, st)
  guarded_all-spend_all (a ∷ as') s k limit left st =
      let (g, st') = guarded-spend a s k limit left st in
      let (gs, final) =
        guarded_all-spend_all as' (guarded a s).1 k limit (spend (amount_or_one (some a)) left).1
          st' in
      (cc (g, gs), final)

  spend_nonneg : (as' : List ℤ) (left : ℤ) → pos 0 ≤ℤ left → pos 0 ≤ℤ (spend_all as' left).1
  unfolding spend_all spend
  spend_nonneg [] left h = h
  spend_nonneg (a ∷ as') left h = elim (Bool-cases (leb_ℤ a left)) [
    | inl fits ↦ rw fits (spend_nonneg as' (left -ℤ a) (omega (int_laws, leb→le_ℤ a left fits)))
    | inr short ↦ rw short (spend_nonneg as' left h)
  ]

  -- So a quota that is not over its limit is never brought over it by such requests.
  pub guarded_within :
      (amounts : List ℤ) (s : Quotas) (k : ℕ) (q : UsageQuota)
      → quota_of tenant key s ≡ some (k, q)
      → IsKeyed s.quotas
      → q.used ≤ℤ q.limit
      → (q' : UsageQuota) × (quota_of tenant key (guarded_all amounts s).1 ≡ some (k, q'))
        × (q'.limit ≡ q.limit)
        × (q'.used ≤ℤ q'.limit)
  guarded_within amounts s k q h keyed le =
      let (gs, (q', h', hl, hr, keyed')) =
        guarded_all-spend_all amounts s k q.limit (left_of q) (q, h, refl, refl, keyed) in
      let left =
        spend_nonneg (map (λ a. amount_or_one (some a)) amounts) (left_of q)
          (omega (int_laws, le)) in
      (q', h', hl, omega (int_laws, left, parts_of_eq hr))

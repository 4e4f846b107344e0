-- ===== src/Token/Renew.antt =====
-- What a rotation comes down to, once the token and its user are found.
use coffee_shop_saas_platfor.Prelude.{
  ℕ, ◌≡◌, inl, inr, false, not, ◌||◌, Option, none, some, ltb, sym, ap, ◌∙◌, arith, Bool-cases,
  Option-cases,
}
use coffee_shop_saas_platfor.Table.{find, find_first, update, update_many, create}
use coffee_shop_saas_platfor.Action.{Action, Result, ok, pure, ◌>>=◌, ◌>>◌}
use coffee_shop_saas_platfor.Token.{
  create_token, create_session, detect_reuse, renew, rotate_current, rotate_found, rotate,
}
use coffee_shop_saas_platfor.Token.Rows.{
  Auth, RefreshToken, User, Claims, Request, is_value, is_live_of, end_session, set_rotated,
  agent_or, unknown_agent, claims_of, next_token, is_active, is_stale,
}

-- A token that was created and a session for it.
abbrev pub create_both : RefreshToken → ℕ → ℕ → Option ℕ → Option ℕ → Request → Action Auth ℕ
create_both v user value tenant store req = do
  token ← create_token v
  create_session user tenant token store req
  pure value

-- The state in which `renew` creates the next token.
abbrev pub retired : ℕ → Auth → Auth
retired k a = record a {
  tokens = update k set_rotated a.tokens;
  sessions = update_many (is_live_of k) end_session a.sessions;
}

-- What is known when both were created.
pub create_both_ok :
    (v : RefreshToken) (user value : ℕ) (tenant store : Option ℕ) (req : Request) (a : Auth) (r : ℕ)
    → (create_both v user value tenant store req a).0 ≡ ok r
    → let a' = (create_both v user value tenant store req a).1 in
      (r ≡ value)
      × (find_first (is_value v.token) a.tokens ≡ none)
      × (a'.tokens ≡ create a.next_key v a.tokens)
      × (a'.users ≡ a.users)
unfolding create_token create_session
create_both_ok v user value tenant store req a r h = elim (Option-cases (find v.user a.users)) [
  | inl e ↦ absurd (ground arith)
  | inr (u, e) ↦ elim (Option-cases (find_first (is_value v.token) a.tokens)) [
    | inr (x, e') ↦ absurd (ground arith)
    | inl e' ↦ (ground arith, e', ground arith, ground arith)
  ]
]

detect_fails :
    (k : ℕ) (stored : RefreshToken) (a : Auth) (r : ℕ) → (detect_reuse k stored a).0 ≡ ok r → ⊥
unfolding detect_reuse
detect_fails k stored a r h = ground arith

module _ (sign : Claims → ℕ → ℕ) where
  pub renew_effect :
      (k : ℕ) (stored : RefreshToken) (user : User) (req : Request) (a : Auth)
      → find k a.tokens ≡ some stored
      → let value = sign (claims_of stored.user user.token_version) a.now in
        let agent = agent_or req.agent (agent_or stored.agent unknown_agent) in
        renew sign k stored user req a
        ≡ create_both
            (next_token value k stored agent a.now)
            stored.user
            value
            stored.tenant
            none
            req
            (retired k a)
  unfolding renew
  renew_effect k stored user req a h = ground arith

  pub rotate_reaches :
      (verify : ℕ → ℕ → Option Claims) (value : ℕ) (req : Request) (a : Auth) (c : Claims) (k : ℕ)
      (stored : RefreshToken) (user : User)
      → verify value a.now ≡ some c
      → find_first (is_value value) a.tokens ≡ some (k, stored)
      → find stored.user a.users ≡ some user
      → rotate sign verify value req a ≡ rotate_found sign c.version k stored user req a
  unfolding rotate
  rotate_reaches verify value req a c k stored user e e' e'' = ground arith

  -- A rotation that ends well is a renewal of a token that may be used.
  pub found_ok :
      (version : Option ℕ) (k : ℕ) (stored : RefreshToken) (user : User) (req : Request) (a : Auth)
      (r : ℕ)
      → (rotate_found sign version k stored user req a).0 ≡ ok r
      → (is_stale version user.token_version ≡ false)
        × (rotate_found sign version k stored user req a ≡ renew sign k stored user req a)
  unfolding rotate_found rotate_current
  found_ok version k stored user req a r h =
      elim (Bool-cases (stored.is_revoked || not (is_active stored.status))) [
        | inl used ↦ absurd (detect_fails k stored a r (rw used at h))
        | inr unused ↦ elim (Bool-cases (ltb stored.expires_at a.now)) [
          | inl over ↦ absurd (ground arith)
          | inr current ↦ elim (Bool-cases (is_stale version user.token_version)) [
            | inl stale ↦ absurd (ground arith)
            | inr valid ↦ elim (Bool-cases (user.is_banned || user.is_globally_banned)) [
              | inl banned ↦ absurd (ground arith)
              | inr free ↦ (valid, ground arith)
            ]
          ]
        ]
      ]

  -- What a rotation found, that ended well.
  abbrev pub Rotated : (ℕ → ℕ → Option Claims) → ℕ → Request → Auth → Type 0
  Rotated verify value req a =
      (c : Claims) × (k : ℕ) × (stored : RefreshToken) × (user : User) × (verify value a.now
        ≡ some c)
      × (find_first (is_value value) a.tokens ≡ some (k, stored))
      × (find stored.user a.users ≡ some user)
      × (is_stale c.version user.token_version ≡ false)
      × (rotate sign verify value req a ≡ renew sign k stored user req a)

  pub rotate_ok :
      (verify : ℕ → ℕ → Option Claims) (value : ℕ) (req : Request) (a : Auth) (r : ℕ)
      → (rotate sign verify value req a).0 ≡ ok r
      → Rotated verify value req a
  unfolding rotate
  rotate_ok verify value req a r h = elim (Option-cases (verify value a.now)) [
    | inl e ↦ absurd (ground arith)
    | inr (c, e) ↦ elim (Option-cases (find_first (is_value value) a.tokens)) [
      | inl e' ↦ absurd (ground arith)
      | inr ((k, stored), e') ↦ elim (Option-cases (find stored.user a.users)) [
        | inl e'' ↦ absurd (ground arith)
        | inr (user, e'') ↦
            let reached = rotate_reaches verify value req a c k stored user e e' e'' in
            let (valid, same) =
              found_ok c.version k stored user req a r
                (sym (ap (λ (x : Result ℕ × Auth). x.0) reached) ∙ h) in
            (c, k, stored, user, e, e', e'', valid, reached ∙ same)
      ]
    ]
  ]

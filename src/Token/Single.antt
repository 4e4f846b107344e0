-- ===== src/Token/Single.antt =====
-- A family of refresh tokens has at most one active token, whatever is called.
use coffee_shop_saas_platfor.Prelude.{
  ℕ, suc, ◌<◌, ◌≡◌, refl, sym, ◌⊎◌, inl, inr, true, not, ◌||◌, Option, none, some, List, [], ◌∷◌,
  ltb, arith, Bool-cases, Option-cases,
}
use mathlib.Core.Path.{subst}
use coffee_shop_saas_platfor.Table.{Table, find, find_first, create}
use coffee_shop_saas_platfor.Table.Keys.{find_first-find}
use coffee_shop_saas_platfor.Action.{Result}
use coffee_shop_saas_platfor.Token.{
  create_token, create_session, renew, rotate_current, rotate_found, rotate, issue_token_pair,
}
use coffee_shop_saas_platfor.Token.Rows.{
  Auth, RefreshToken, User, Claims, Request, is_active, is_value, set_expired, set_rotated,
  agent_or, first_token, next_token, version_or_one, claims_of, unknown_agent, is_stale,
}
use coffee_shop_saas_platfor.Token.Renew.{create_both, retired, renew_effect, rotate_reaches}
use coffee_shop_saas_platfor.Token.Sessions.{create_user_session, cleanup_expired_sessions}
use coffee_shop_saas_platfor.Token.Calls.{
  AuthCall, auth_step, auth_run, issues, rotates, revokes, revokes_all, invalidates, revokes_family,
  revokes_sessions, logs_out, ends_session, starts_session, touches, cleans_up, waits,
}
use coffee_shop_saas_platfor.Token.Sound.{
  IsSound, IsIdle, IsKnown, IsSound-update, IsSound-suc, IsSound-create, is_on, family_of,
}
use coffee_shop_saas_platfor.Table.Single.{IsIdle-update}
use coffee_shop_saas_platfor.Token.Guarded.{
  IsGuarded, Becomes, becomes, revoke-IsGuarded, revoke_all-IsGuarded, revoke_family-IsGuarded,
  invalidate-IsGuarded, session-IsGuarded, revoke_sessions-IsGuarded, logout-IsGuarded,
  end_session-IsGuarded, touch-IsGuarded, detect-IsGuarded,
}

create_both_cases :
    (v : RefreshToken) (user value : ℕ) (tenant store : Option ℕ) (req : Request) (a : Auth)
    → let r = (create_both v user value tenant store req a).1 in
      let a' = record a { tokens = create a.next_key v a.tokens; next_key = suc a.next_key } in
      Becomes a.next_key a.tokens r ⊎ (r ≡ (create_session user tenant a.next_key store req a').1)
unfolding create_token
create_both_cases v user value tenant store req a = elim (Option-cases (find v.user a.users)) [
  | inl e ↦ inl (ground arith, ground arith)
  | inr (u, e) ↦ elim (Option-cases (find_first (is_value v.token) a.tokens)) [
    | inr (x, e') ↦ inl (ground arith, ground arith)
    | inl e' ↦ inr (ground arith)
  ]
]

create_both-IsGuarded :
    (v : RefreshToken) (user value : ℕ) (tenant store : Option ℕ) (req : Request) (a : Auth)
    → IsIdle v.family a.tokens
    → v.family < suc a.next_key
    → IsGuarded a
    → IsGuarded (create_both v user value tenant store req a).1
create_both-IsGuarded v user value tenant store req a idle lt s =
    elim (create_both_cases v user value tenant store req a) [
      | inl same ↦
          becomes a.next_key a.tokens (create_both v user value tenant store req a).1 same s
      | inr moved ↦
          let a' = record a { tokens = create a.next_key v a.tokens; next_key = suc a.next_key } in
          subst IsGuarded (sym moved) (
            session-IsGuarded user tenant a.next_key store req a'
              (IsSound-create a.next_key v a.tokens idle lt s))
    ]

new_IsIdle : (n : ℕ) (t : Table RefreshToken) → IsKnown n t → IsIdle n t
new_IsIdle n t known j b h on same = let lt = known j b h on in omega (arith, lt, same)

module _ (sign : Claims → ℕ → ℕ) where
  issue-IsGuarded :
      (user : ℕ) (tenant store : Option ℕ) (req : Request) (a : Auth)
      → IsGuarded a
      → IsGuarded (issue_token_pair sign user tenant store req a).1
  unfolding issue_token_pair
  issue-IsGuarded user tenant store req a s =
      let value = sign (claims_of user (version_or_one (find user a.users))) a.now in
      let a' = record a { next_key = suc a.next_key } in
      create_both-IsGuarded
        (first_token value user tenant a.next_key (agent_or req.agent unknown_agent) a.now) user
        value tenant store req a' (new_IsIdle a.next_key a.tokens s.3) (omega arith)
        (IsSound-suc a.next_key a.tokens s)

  renew-IsGuarded :
      (k : ℕ) (stored : RefreshToken) (user : User) (req : Request) (a : Auth)
      → find k a.tokens ≡ some stored
      → is_active stored.status ≡ true
      → IsGuarded a
      → IsGuarded (renew sign k stored user req a).1
  renew-IsGuarded k stored user req a h on s =
      let value = sign (claims_of stored.user user.token_version) a.now in
      let agent = agent_or req.agent (agent_or stored.agent unknown_agent) in
      let lt = s.3 k stored h on in
      subst (λ (r : Result ℕ × Auth). IsGuarded r.1) (sym (renew_effect sign k stored user req a h))
        (create_both-IsGuarded (next_token value k stored agent a.now) stored.user value
          stored.tenant none req (retired k a)
          (IsIdle-update is_on family_of k set_rotated a.tokens stored (λ r. refl) s.2 h on)
          (omega (arith, lt))
          (IsSound-update a.next_key k set_rotated a.tokens
            (λ t. (refl, λ off. absurd (ground arith))) s))

  rotate_current-IsGuarded :
      (version : Option ℕ) (k : ℕ) (stored : RefreshToken) (user : User) (req : Request) (a : Auth)
      → find k a.tokens ≡ some stored
      → is_active stored.status ≡ true
      → IsGuarded a
      → IsGuarded (rotate_current sign version k stored user req a).1
  unfolding rotate_current
  rotate_current-IsGuarded version k stored user req a h on s =
      elim (Bool-cases (ltb stored.expires_at a.now)) [
        | inl over ↦
            becomes _ _ (rotate_current sign version k stored user req a).1
              (ground arith, ground arith)
              (IsSound-update a.next_key k set_expired a.tokens
                (λ t. (refl, λ off. absurd (ground arith))) s)
        | inr current ↦ elim (Bool-cases (is_stale version user.token_version)) [
          | inl stale ↦
              becomes _ _ (rotate_current sign version k stored user req a).1
                (ground arith, ground arith) s
          | inr valid ↦ elim (Bool-cases (user.is_banned || user.is_globally_banned)) [
            | inl banned ↦
                becomes _ _ (rotate_current sign version k stored user req a).1
                  (ground arith, ground arith) s
            | inr free ↦ rw (current, valid, free) (renew-IsGuarded k stored user req a h on s)
          ]
        ]
      ]

  rotate_found-IsGuarded :
      (version : Option ℕ) (k : ℕ) (stored : RefreshToken) (user : User) (req : Request) (a : Auth)
      → find k a.tokens ≡ some stored
      → IsGuarded a
      → IsGuarded (rotate_found sign version k stored user req a).1
  unfolding rotate_found
  rotate_found-IsGuarded version k stored user req a h s =
      elim (Bool-cases (stored.is_revoked || not (is_active stored.status))) [
        | inl used ↦ rw used (detect-IsGuarded k stored stored a h s)
        | inr unused ↦
            rw unused (rotate_current-IsGuarded version k stored user req a h (ground arith) s)
      ]

  module _ (verify : ℕ → ℕ → Option Claims) where
    pub rotate-IsGuarded :
        (value : ℕ) (req : Request) (a : Auth)
        → IsGuarded a
        → IsGuarded (rotate sign verify value req a).1
    unfolding rotate
    rotate-IsGuarded value req a s = elim (Option-cases (verify value a.now)) [
      | inl e ↦ rw e s
      | inr (c, e) ↦ elim (Option-cases (find_first (is_value value) a.tokens)) [
        | inl e' ↦ becomes _ _ (rotate sign verify value req a).1 (ground arith, ground arith) s
        | inr ((k, stored), e') ↦ elim (Option-cases (find stored.user a.users)) [
          | inl e'' ↦ becomes _ _ (rotate sign verify value req a).1 (ground arith, ground arith) s
          | inr (u, e'') ↦
              let there = find_first-find (is_value value) a.tokens k stored s.0 e' in
              let same = rotate_reaches sign verify value req a c k stored u e e' e'' in
              subst (λ (r : Result ℕ × Auth). IsGuarded r.1) (sym same)
                (rotate_found-IsGuarded c.version k stored u req a there s)
        ]
      ]
    ]

    step-IsGuarded : (c : AuthCall) (a : Auth) → IsGuarded a → IsGuarded (auth_step sign verify c a)
    unfolding auth_step create_user_session cleanup_expired_sessions
    step-IsGuarded (issues user tenant store req) a s = issue-IsGuarded user tenant store req a s
    step-IsGuarded (rotates value req) a s = rotate-IsGuarded value req a s
    step-IsGuarded (revokes value reason) a s = revoke-IsGuarded value reason a s
    step-IsGuarded (revokes_all user reason) a s = revoke_all-IsGuarded user reason a s
    step-IsGuarded (invalidates user) a s = invalidate-IsGuarded user a s
    step-IsGuarded (revokes_family f reason) a s = revoke_family-IsGuarded f reason a s
    step-IsGuarded (revokes_sessions user store reason) a s =
        revoke_sessions-IsGuarded user store reason a s
    step-IsGuarded (logs_out value) a s = logout-IsGuarded value a s
    step-IsGuarded (ends_session k) a s = end_session-IsGuarded k a s
    step-IsGuarded (starts_session user token req) a s =
        session-IsGuarded user none token req.store req a s
    step-IsGuarded (touches k) a s = touch-IsGuarded k a s
    step-IsGuarded cleans_up a s = s
    step-IsGuarded (waits n) a s = s

    -- Whatever is called, in whatever order and whatever is signed: if the primary keys differ and are
    -- below the next one, the families of active tokens are too, and no family has two active tokens,
    -- then this holds afterwards.
    pub auth_run-IsSound :
        (cs : List AuthCall) (a : Auth)
        → IsSound a.next_key a.tokens
        → IsSound (auth_run sign verify cs a).next_key (auth_run sign verify cs a).tokens
    unfolding auth_run
    auth_run-IsSound [] a s = s
    auth_run-IsSound (c ∷ cs) a s =
        auth_run-IsSound cs (auth_step sign verify c a) (step-IsGuarded c a s)

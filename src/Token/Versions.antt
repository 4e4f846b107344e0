-- ===== src/Token/Versions.antt =====
-- The version of a user's tokens, which `invalidateAllTokens` raises.
use coffee_shop_saas_platfor.Prelude.{
  ℕ, suc, ◌<◌, ◌≤◌, ◌≡◌, sym, ap, ◌∙◌, inl, inr, Option, none, some, List, [], ◌∷◌, ◌==◌, eq_of_==,
  arith, Bool-cases, Option-cases,
}
use mathlib.Core.Path.{subst}
use coffee_shop_saas_platfor.Table.{find, find_first, update, find-update_self, find-update_ne}
use coffee_shop_saas_platfor.Action.{Result, ok, err, validation_error}
use coffee_shop_saas_platfor.Token.{
  detect_reuse, renew, rotate_current, rotate_found, rotate, create_token, create_session, revoke,
  revoke_all_for_user, invalidate_all_tokens, revoke_token_family, issue_token_pair,
}
use coffee_shop_saas_platfor.Token.Rows.{
  Auth, RefreshToken, User, Claims, Reason, Request, is_value, bump,
}
use coffee_shop_saas_platfor.Token.Sessions.{
  revoke_all_sessions, logout_by_token, revoke_session, touch_activity, create_user_session,
  cleanup_expired_sessions,
}
use coffee_shop_saas_platfor.Token.Calls.{
  AuthCall, auth_step, auth_run, issues, rotates, revokes, revokes_all, invalidates, revokes_family,
  revokes_sessions, logs_out, ends_session, starts_session, touches, cleans_up, waits,
}
use coffee_shop_saas_platfor.Token.Renew.{found_ok, rotate_reaches}

-- For a user of the table: `invalidateAllTokens` raises the version of the user's tokens and throws,
-- before it has revoked any token or session.
pub invalidate_throws :
    (user : ℕ) (a : Auth) (u : User)
    → find user a.users ≡ some u
    → invalidate_all_tokens user a
      ≡ (err validation_error, record a { users = update user bump a.users })
unfolding invalidate_all_tokens revoke_all_for_user
invalidate_throws user a u h = ground arith

-- The user is in the table, and the version of the user's tokens is at least `n`.
abbrev IsPast : ℕ → ℕ → Auth → Type 0
IsPast user n a = (u : User) × (find user a.users ≡ some u) × (n ≤ u.token_version)

revoke_users : (value : ℕ) (reason : Reason) (a : Auth) → (revoke value reason a).1.users ≡ a.users
unfolding revoke
revoke_users value reason a = ground arith

revoke_all_users :
    (user : ℕ) (reason : Reason) (a : Auth) → (revoke_all_for_user user reason a).1.users ≡ a.users
unfolding revoke_all_for_user
revoke_all_users user reason a = ground arith

family_users :
    (f : ℕ) (reason : Reason) (a : Auth) → (revoke_token_family f reason a).1.users ≡ a.users
unfolding revoke_token_family
family_users f reason a = ground arith

sessions_users :
    (user : ℕ) (store : Option ℕ) (reason : Option Reason) (a : Auth)
    → (revoke_all_sessions user store reason a).1.users ≡ a.users
unfolding revoke_all_sessions
sessions_users user store reason a = ground arith

logout_users : (value : ℕ) (a : Auth) → (logout_by_token value a).1.users ≡ a.users
unfolding logout_by_token
logout_users value a = ground arith

end_users : (k : ℕ) (a : Auth) → (revoke_session k a).1.users ≡ a.users
unfolding revoke_session
end_users k a = ground arith

touch_users : (k : ℕ) (a : Auth) → (touch_activity k a).1.users ≡ a.users
unfolding touch_activity
touch_users k a = ground arith

token_users : (t : RefreshToken) (a : Auth) → (create_token t a).1.users ≡ a.users
unfolding create_token
token_users t a = ground arith

session_users :
    (user : ℕ) (tenant : Option ℕ) (token : ℕ) (store : Option ℕ) (req : Request) (a : Auth)
    → (create_session user tenant token store req a).1.users ≡ a.users
unfolding create_session
session_users user tenant token store req a = ground arith

detect_users : (k : ℕ) (t : RefreshToken) (a : Auth) → (detect_reuse k t a).1.users ≡ a.users
unfolding detect_reuse
detect_users k t a = ground arith

module _ (sign : Claims → ℕ → ℕ) where
  issue_users :
      (user : ℕ) (tenant store : Option ℕ) (req : Request) (a : Auth)
      → (issue_token_pair sign user tenant store req a).1.users ≡ a.users
  unfolding issue_token_pair create_token create_session
  issue_users user tenant store req a = ground arith

  renew_users :
      (k : ℕ) (t : RefreshToken) (user : User) (req : Request) (a : Auth)
      → (renew sign k t user req a).1.users ≡ a.users
  unfolding renew create_token create_session
  renew_users k t user req a = ground arith

  found_users :
      (version : Option ℕ) (k : ℕ) (t : RefreshToken) (user : User) (req : Request) (a : Auth)
      → (rotate_found sign version k t user req a).1.users ≡ a.users
  unfolding rotate_found rotate_current
  found_users version k t user req a =
      ground (arith, detect_users k t a, renew_users k t user req a)

  rotate_users :
      (verify : ℕ → ℕ → Option Claims) (value : ℕ) (req : Request) (a : Auth)
      → (rotate sign verify value req a).1.users ≡ a.users
  unfolding rotate
  rotate_users verify value req a = elim (Option-cases (verify value a.now)) [
    | inl e ↦ ground arith
    | inr (c, e) ↦ elim (Option-cases (find_first (is_value value) a.tokens)) [
      | inl e' ↦ ground arith
      | inr ((k, stored), e') ↦ elim (Option-cases (find stored.user a.users)) [
        | inl e'' ↦ ground arith
        | inr (user, e'') ↦
            ap (λ (x : Result ℕ × Auth). x.1.users)
              (rotate_reaches sign verify value req a c k stored user e e' e'')
            ∙ found_users c.version k stored user req a
      ]
    ]
  ]

IsPast-kept : (user n : ℕ) (a b : Auth) → b.users ≡ a.users → IsPast user n a → IsPast user n b
IsPast-kept user n a b same (u, h, le) = (u, ap (find user) same ∙ h, le)

missing_users :
    (k : ℕ) (a : Auth) → find k a.users ≡ none → (invalidate_all_tokens k a).1.users ≡ a.users
unfolding invalidate_all_tokens
missing_users k a h = ground arith

IsPast-bump :
    (user n k : ℕ) (a : Auth) → IsPast user n a → IsPast user n (invalidate_all_tokens k a).1
IsPast-bump user n k a (u, h, le) = elim (Option-cases (find k a.users)) [
  | inl e ↦ IsPast-kept user n a (invalidate_all_tokens k a).1 (missing_users k a e) (u, h, le)
  | inr (v, e) ↦ elim (Bool-cases (user == k)) [
    | inl same ↦
        let at : user ≡ k = eq_of_== user k same in
        (
          bump u,
          ap (λ (x : Result Unit × Auth). find user x.1.users) (invalidate_throws k a v e)
              ∙ subst (λ (i : ℕ). find user (update i bump a.users) ≡ some (bump u)) at
                  (find-update_self user bump a.users u h),
          omega (arith, le),
        )
    | inr other ↦ (
      u,
      ap (λ (x : Result Unit × Auth). find user x.1.users) (invalidate_throws k a v e)
          ∙ find-update_ne user k bump a.users (ground arith)
          ∙ h,
      le,
    )
  ]
]

module _ (sign : Claims → ℕ → ℕ) (verify : ℕ → ℕ → Option Claims) where
  step-IsPast :
      (user n : ℕ) (c : AuthCall) (a : Auth)
      → IsPast user n a
      → IsPast user n (auth_step sign verify c a)
  unfolding auth_step create_user_session cleanup_expired_sessions
  step-IsPast user n (issues user' tenant store req) a p =
      IsPast-kept user n a (issue_token_pair sign user' tenant store req a).1
        (issue_users sign user' tenant store req a) p
  step-IsPast user n (rotates value req) a p =
      IsPast-kept user n a (rotate sign verify value req a).1 (rotate_users sign verify value req a)
        p
  step-IsPast user n (revokes value reason) a p =
      IsPast-kept user n a (revoke value reason a).1 (revoke_users value reason a) p
  step-IsPast user n (revokes_all user' reason) a p =
      IsPast-kept user n a (revoke_all_for_user user' reason a).1 (revoke_all_users user' reason a)
        p
  step-IsPast user n (invalidates user') a p = IsPast-bump user n user' a p
  step-IsPast user n (revokes_family f reason) a p =
      IsPast-kept user n a (revoke_token_family f reason a).1 (family_users f reason a) p
  step-IsPast user n (revokes_sessions user' store reason) a p =
      IsPast-kept user n a (revoke_all_sessions user' store reason a).1
        (sessions_users user' store reason a) p
  step-IsPast user n (logs_out value) a p =
      IsPast-kept user n a (logout_by_token value a).1 (logout_users value a) p
  step-IsPast user n (ends_session k) a p =
      IsPast-kept user n a (revoke_session k a).1 (end_users k a) p
  step-IsPast user n (starts_session user' token req) a p =
      IsPast-kept user n a (create_session user' none token req.store req a).1
        (session_users user' none token req.store req a) p
  step-IsPast user n (touches k) a p =
      IsPast-kept user n a (touch_activity k a).1 (touch_users k a) p
  step-IsPast user n cleans_up a p = p
  step-IsPast user n (waits m) a p = p

  run-IsPast :
      (user n : ℕ) (cs : List AuthCall) (a : Auth)
      → IsPast user n a
      → IsPast user n (auth_run sign verify cs a)
  unfolding auth_run
  run-IsPast user n [] a p = p
  run-IsPast user n (c ∷ cs) a p =
      run-IsPast user n cs (auth_step sign verify c a) (step-IsPast user n c a p)

  -- A rotation that ends well has the version of the user's tokens.
  rotated_version :
      (value r v : ℕ) (req : Request) (b : Auth) (c : Claims) (k : ℕ) (stored : RefreshToken)
      (u : User)
      → find_first (is_value value) b.tokens ≡ some (k, stored)
      → find stored.user b.users ≡ some u
      → verify value b.now ≡ some c
      → c.version ≡ some v
      → (rotate sign verify value req b).0 ≡ ok r
      → v ≡ u.token_version
  rotated_version value r v req b c k stored u found there verified version ends =
      let reached = rotate_reaches sign verify value req b c k stored u verified found there in
      let (valid, _) =
        found_ok sign c.version k stored u req b r
          (sym (ap (λ (x : Result ℕ × Auth). x.0) reached) ∙ ends) in
      ground (arith, version, valid)

  -- After the tokens of a user of the table were invalidated, whatever is called next: a rotation of
  -- one of the user's tokens, whose claims carry a version, ends well only where this version is above
  -- the one before the invalidation.
  pub invalidated_die :
      (user value r v : ℕ) (req : Request) (cs : List AuthCall) (a : Auth) (u : User) (c : Claims)
      (k : ℕ) (stored : RefreshToken)
      → find user a.users ≡ some u
      → let b = auth_run sign verify cs (invalidate_all_tokens user a).1 in
        find_first (is_value value) b.tokens ≡ some (k, stored)
        → stored.user ≡ user
        → verify value b.now ≡ some c
        → c.version ≡ some v
        → (rotate sign verify value req b).0 ≡ ok r
        → u.token_version < v
  invalidated_die user value r v req cs a u c k stored h found owner verified version ends =
      let a' = (invalidate_all_tokens user a).1 in
      let b = auth_run sign verify cs a' in
      let raised : IsPast user (suc u.token_version) a' = (
        bump u,
        ap (λ (x : Result Unit × Auth). find user x.1.users) (invalidate_throws user a u h)
            ∙ find-update_self user bump a.users u h,
        omega arith,
      ) in
      let (u', there, le) = run-IsPast user (suc u.token_version) cs a' raised in
      let exact =
        rotated_version value r v req b c k stored u' found (ap (λ i. find i b.users) owner ∙ there)
          verified version ends in
      omega (arith, le, exact)

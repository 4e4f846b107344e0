-- ===== src/Token.antt =====
-- Refresh tokens: `TokenService` of backend/src/services/auth/Token.service.ts, with the sessions that
-- it opens (`SessionService.create`). What the library `jsonwebtoken` signs and verifies is a
-- parameter: `sign` gives the string for a payload at a time, `verify` the payload of a string at a
-- time, or nothing where the library throws. The access tokens, which no table keeps, are left out,
-- and so are addresses, devices and what is logged; of a user agent the model keeps what the tests for
-- mobile devices say of it. A foreign key is checked where the code gives a literal or a foreign one.
pub mod Sessions
pub mod Calls
pub mod Renew
pub mod Reuse
pub mod Signing
pub mod Issued
pub mod Single
pub mod Guarded
pub mod Sound
pub mod Versions
pub mod Rows
use coffee_shop_saas_platfor.Prelude.{
  ℕ, suc, ◌+◌, Bool, not, Option, none, some, [], ◌∷◌, ◌++◌, ◌||◌, ltb, if◌then◌else◌,
}
use coffee_shop_saas_platfor.Table.{find, find_first, find_many, update, update_many, create}
use coffee_shop_saas_platfor.Action.{
  Action, ok, err, pure, or_throw, throw, gets, modify, throw_if, ◌>>=◌, ◌>>◌, record_not_found,
  unique_violation, foreign_key_violation, validation_error, invalid_refresh_token, token_not_found,
  token_reuse_detected, token_expired, token_version_mismatch, account_banned,
}
use coffee_shop_saas_platfor.Token.Rows.{
  is_active, suspicious_activity, Reason, token_version_incremented, enum_reason, unknown_agent,
  agent_or, User, RefreshToken, Session, Auth, Claims, is_value, is_session_of, Request,
  new_session, version_or_one, first_token, next_token, set_reused, set_expired, set_revoked,
  set_rotated, end_session, is_of_family, keys, is_live_of, is_live_in, fraud_of, can_report,
  is_stale, claims_of, is_active_of_user, is_live_of_user, bump, is_active_of_family,
}

-- `uuidv4()`: a key that was not given before.
abbrev pub fresh : Action Auth ℕ
fresh a = (ok a.next_key, record a { next_key = suc a.next_key })

abbrev pub update_token : ℕ → (RefreshToken → RefreshToken) → Action Auth RefreshToken
update_token k f a = elim (find k a.tokens) [
  | none ↦ (err record_not_found, a)
  | some t ↦ (ok (f t), record a { tokens = update k f a.tokens })
]

abbrev pub update_tokens :
    (RefreshToken → Bool) → (RefreshToken → RefreshToken) → Action Auth (Unit {0})
update_tokens q f = modify (λ a. record a { tokens = update_many q f a.tokens })

abbrev pub update_sessions : (Session → Bool) → (Session → Session) → Action Auth (Unit {0})
update_sessions q f = modify (λ a. record a { sessions = update_many q f a.sessions })

-- `refreshToken.create`: `token` is unique, and the user must exist.
create_token_for : Option User → Option (ℕ × RefreshToken) → RefreshToken → Action Auth ℕ
create_token_for none _ t a = (err foreign_key_violation, a)
create_token_for (some _) (some _) t a = (err unique_violation, a)
create_token_for (some _) none t a =
    (ok a.next_key, record a { tokens = create a.next_key t a.tokens; next_key = suc a.next_key })

unfoldable pub create_token : RefreshToken → Action Auth ℕ
unfolding create_token_for
create_token t a =
    create_token_for (find t.user a.users) (find_first (is_value t.token) a.tokens) t a

-- `session.create`: `refreshTokenUuid` is unique, and the token must exist.
insert_session_for : Option (ℕ × Session) → Option RefreshToken → Session → Action Auth ℕ
insert_session_for (some _) _ s a = (err unique_violation, a)
insert_session_for none none s a = (err foreign_key_violation, a)
insert_session_for none (some _) s a = (
  ok a.next_key,
  record a { sessions = create a.next_key s a.sessions; next_key = suc a.next_key },
)

unfoldable pub create_session : ℕ → Option ℕ → ℕ → Option ℕ → Request → Action Auth ℕ
unfolding insert_session_for
create_session user tenant token store req a =
    insert_session_for (find_first (is_session_of token) a.sessions) (find token a.tokens)
      (new_session user tenant token store req a.now) a

create_fraud : RefreshToken → Action Auth (Unit {0})
create_fraud t = do
  known ← gets (can_report t.tenant)
  throw_if (not known) foreign_key_violation
  modify (λ a. record a { frauds = a.frauds ++ fraud_of t ∷ [] })

-- What `rotate` does with a token that was used or revoked before.
unfoldable pub detect_reuse : ℕ → RefreshToken → Action Auth ℕ
unfolding create_fraud
detect_reuse k stored = do
  update_token k set_reused
  update_tokens (is_of_family stored.family) (set_revoked suspicious_activity)
  family ← gets (λ a. find_many (is_of_family stored.family) a.tokens)
  update_sessions (is_live_in (keys family)) end_session
  create_fraud stored
  throw token_reuse_detected

expire : ℕ → Action Auth ℕ
expire k = do update_token k set_expired; throw token_expired

module _ (sign : Claims → ℕ → ℕ) where
  unfoldable pub issue_token_pair : ℕ → Option ℕ → Option ℕ → Request → Action Auth ℕ
  issue_token_pair user tenant store req = do
    now ← gets (λ a. a.now)
    version ← gets (λ a. version_or_one (find user a.users))
    let value = sign (claims_of user version) now
    family ← fresh
    token ←
        create_token (first_token value user tenant family (agent_or req.agent unknown_agent) now)
    create_session user tenant token store req
    pure value

  -- What `rotate` does with a token that may be used.
  unfoldable pub renew : ℕ → RefreshToken → User → Request → Action Auth ℕ
  renew k stored user req = do
    update_token k set_rotated
    update_sessions (is_live_of k) end_session
    now ← gets (λ a. a.now)
    let value = sign (claims_of stored.user user.token_version) now
    token ←
        create_token
          (next_token value k stored (agent_or req.agent (agent_or stored.agent unknown_agent)) now)
    create_session stored.user stored.tenant token none req
    pure value

  unfoldable pub rotate_current : Option ℕ → ℕ → RefreshToken → User → Request → Action Auth ℕ
  unfolding expire
  rotate_current version k stored user req = do
    now ← gets (λ a. a.now)
    if ltb stored.expires_at now then expire k else do
      throw_if (is_stale version user.token_version) token_version_mismatch
      throw_if (user.is_banned || user.is_globally_banned) account_banned
      renew k stored user req

  unfoldable pub rotate_found : Option ℕ → ℕ → RefreshToken → User → Request → Action Auth ℕ
  rotate_found version k stored user req =
      if stored.is_revoked || not (is_active stored.status)
      then detect_reuse k stored
      else rotate_current version k stored user req

  unfoldable pub rotate : (ℕ → ℕ → Option Claims) → ℕ → Request → Action Auth ℕ
  rotate verify value req = do
    now ← gets (λ a. a.now)
    claims ← or_throw (verify value now) invalid_refresh_token
    (k, stored) ← or_throw (← gets (λ a. find_first (is_value value) a.tokens)) token_not_found
    user ← or_throw (← gets (λ a. find stored.user a.users)) record_not_found
    rotate_found claims.version k stored user req

revoke_found : Option (ℕ × RefreshToken) → Reason → Action Auth (Unit {0})
revoke_found none reason = pure tt
revoke_found (some (k, _)) reason = do
  r ← or_throw (enum_reason reason) validation_error
  update_token k (set_revoked r)
  update_sessions (is_live_of k) end_session

unfoldable pub revoke : ℕ → Reason → Action Auth (Unit {0})
unfolding revoke_found
revoke value reason = do
  found ← gets (λ a. find_first (is_value value) a.tokens)
  revoke_found found reason

unfoldable pub revoke_all_for_user : ℕ → Reason → Action Auth (Unit {0})
revoke_all_for_user user reason = do
  r ← or_throw (enum_reason reason) validation_error
  update_tokens (is_active_of_user user) (set_revoked r)
  update_sessions (is_live_of_user user) end_session

abbrev update_user : ℕ → (User → User) → Action Auth User
update_user k f a = elim (find k a.users) [
  | none ↦ (err record_not_found, a)
  | some u ↦ (ok (f u), record a { users = update k f a.users })
]

unfoldable pub invalidate_all_tokens : ℕ → Action Auth (Unit {0})
invalidate_all_tokens user = do
  update_user user bump
  revoke_all_for_user user token_version_incremented

unfoldable pub revoke_token_family : ℕ → Reason → Action Auth (Unit {0})
revoke_token_family f reason = do
  r ← or_throw (enum_reason reason) validation_error
  update_tokens (is_active_of_family f) (set_revoked r)
  family ← gets (λ a. find_many (is_of_family f) a.tokens)
  update_sessions (is_live_in (keys family)) end_session

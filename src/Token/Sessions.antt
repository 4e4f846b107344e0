-- ===== src/Token/Sessions.antt =====
-- Sessions: `SessionService` of backend/src/services/auth/Session.service.ts, whose `create` stands with
-- the tokens. The risk columns and the queries are left out, and so is `lastActivityAt`,
-- which is written with `lastUsedAt`.
use coffee_shop_saas_platfor.Prelude.{ℕ, Bool, true, Option, none, some, ◌==◌, ◌&&◌, ltb}
use coffee_shop_saas_platfor.Table.{find, find_first, update}
use coffee_shop_saas_platfor.Action.{
  Action, ok, err, pure, or_throw, try_catch, gets, ◌>>=◌, ◌>>◌, record_not_found, validation_error,
}
use coffee_shop_saas_platfor.Token.{update_token, update_tokens, update_sessions, create_session}
use coffee_shop_saas_platfor.Token.Rows.{
  Auth, RefreshToken, Session, SessionStatus, Reason, named, session_revoked, user_logout,
  admin_revoke, Request, is_live, is_value, is_session_of, is_active_of_user, enum_reason,
  set_revoked, end_session,
}

abbrev update_session : ℕ → (Session → Session) → Action Auth Session
update_session k f a = elim (find k a.sessions) [
  | none ↦ (err record_not_found, a)
  | some s ↦ (ok (f s), record a { sessions = update k f a.sessions })
]

-- `...(storeUuid && { storeUuid })`
abbrev pub is_at_store : Option ℕ → Session → Bool
is_at_store none s = true
is_at_store (some store) s = elim s.store [ none ↦ Bool.false | some k ↦ k == store ]

abbrev pub is_live_at : ℕ → Option ℕ → Session → Bool
is_live_at user store s = s.user == user && is_at_store store s && is_live s.status

abbrev pub reason_or : Option Reason → Reason
reason_or none = named admin_revoke
reason_or (some r) = r

unfoldable pub revoke_all_sessions : ℕ → Option ℕ → Option Reason → Action Auth (Unit {0})
revoke_all_sessions user store reason = do
  update_sessions (is_live_at user store) end_session
  r ← or_throw (enum_reason (reason_or reason)) validation_error
  update_tokens (is_active_of_user user) (set_revoked r)

logout_found : Option (ℕ × RefreshToken) → Action Auth (Unit {0})
logout_found none = pure tt
logout_found (some (k, _)) = do
  update_token k (set_revoked user_logout)
  update_sessions (is_session_of k) end_session

unfoldable pub logout_by_token : ℕ → Action Auth (Unit {0})
unfolding logout_found
logout_by_token value = do
  found ← gets (λ a. find_first (is_value value) a.tokens)
  logout_found found

abbrev used_at : ℕ → Session → Session
used_at now s = record s { last_used_at = now }

-- A row that is missing is no error: `.catch(() => {})`.
unfoldable pub touch_activity : ℕ → Action Auth (Unit {0})
touch_activity k = do
  now ← gets (λ a. a.now)
  try_catch (update_session k (used_at now) >> pure tt) (λ _. pure tt)

unfoldable pub revoke_session : ℕ → Action Auth RefreshToken
revoke_session k = do
  session ← update_session k end_session
  update_token session.refresh_token (set_revoked session_revoked)

unfoldable pub create_user_session : ℕ → ℕ → Request → Action Auth ℕ
create_user_session user token req = create_session user none token req.store req

abbrev pub is_over : ℕ → Session → Bool
is_over now s = ltb s.expires_at now && is_live s.status

abbrev pub expire_session : Session → Session
expire_session s = record s { status = SessionStatus.expired; is_revoked = true }

unfoldable pub cleanup_expired_sessions : Action Auth (Unit {0})
cleanup_expired_sessions = do now ← gets (λ a. a.now); update_sessions (is_over now) expire_session

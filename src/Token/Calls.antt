-- ===== src/Token/Calls.antt =====
-- The calls of the two services, one after the other: a throw ends its call and leaves what it wrote.
use coffee_shop_saas_platfor.Prelude.{ℕ, ◌+◌, Option, List, [], ◌∷◌}
use coffee_shop_saas_platfor.Token.{
  issue_token_pair, rotate, revoke, revoke_all_for_user, invalidate_all_tokens, revoke_token_family,
}
use coffee_shop_saas_platfor.Token.Rows.{Auth, Claims, Reason, Request}
use coffee_shop_saas_platfor.Token.Sessions.{
  revoke_all_sessions, logout_by_token, revoke_session, touch_activity, create_user_session,
  cleanup_expired_sessions,
}

pub data AuthCall : Type 0 where
  issues : ℕ → Option ℕ → Option ℕ → Request → AuthCall
  rotates : ℕ → Request → AuthCall
  revokes : ℕ → Reason → AuthCall
  revokes_all : ℕ → Reason → AuthCall
  invalidates : ℕ → AuthCall
  revokes_family : ℕ → Reason → AuthCall
  revokes_sessions : ℕ → Option ℕ → Option Reason → AuthCall
  logs_out : ℕ → AuthCall
  ends_session : ℕ → AuthCall
  starts_session : ℕ → ℕ → Request → AuthCall
  touches : ℕ → AuthCall
  cleans_up : AuthCall
  -- time that passes before the next call
  waits : ℕ → AuthCall

module _ (sign : Claims → ℕ → ℕ) (verify : ℕ → ℕ → Option Claims) where
  unfoldable pub auth_step : AuthCall → Auth → Auth
  auth_step (issues user tenant store req) a = (issue_token_pair sign user tenant store req a).1
  auth_step (rotates value req) a = (rotate sign verify value req a).1
  auth_step (revokes value reason) a = (revoke value reason a).1
  auth_step (revokes_all user reason) a = (revoke_all_for_user user reason a).1
  auth_step (invalidates user) a = (invalidate_all_tokens user a).1
  auth_step (revokes_family f reason) a = (revoke_token_family f reason a).1
  auth_step (revokes_sessions user store reason) a = (revoke_all_sessions user store reason a).1
  auth_step (logs_out value) a = (logout_by_token value a).1
  auth_step (ends_session k) a = (revoke_session k a).1
  auth_step (starts_session user token req) a = (create_user_session user token req a).1
  auth_step (touches k) a = (touch_activity k a).1
  auth_step cleans_up a = (cleanup_expired_sessions a).1
  auth_step (waits n) a = record a { now = a.now + n }

  unfoldable pub auth_run : List AuthCall → Auth → Auth
  auth_run [] a = a
  auth_run (c ∷ cs) a = auth_run cs (auth_step c a)

-- ===== src/Token/Rows.antt =====
-- The rows of users, refresh tokens and sessions that backend/src/services/auth/Token.service.ts reads
-- and writes, what it asks of a row, and the new rows and changes of rows that it writes.
use coffee_shop_saas_platfor.Prelude.{
  ℕ, ◌+◌, ◌*◌, Bool, true, false, not, Option, none, some, List, [], ◌∷◌, ◌==◌, ◌&&◌, if◌then◌else◌,
}
use coffee_shop_saas_platfor.Table.{Table}

-- `enum TokenStatus`
pub data TokenStatus : Type 0 where
  active revoked expired reused : TokenStatus

abbrev pub is_active : TokenStatus → Bool
is_active TokenStatus.active = true
is_active _ = false

-- `enum SessionStatus`
pub data SessionStatus : Type 0 where
  active revoked expired suspicious : SessionStatus

abbrev pub is_live : SessionStatus → Bool
is_live SessionStatus.active = true
is_live _ = false

-- `enum RevokeReason`
pub data RevokeReason : Type 0 where
  session_revoked user_logout admin_revoke token_rotation suspicious_activity : RevokeReason
  password_changed reuse_detected expiry : RevokeReason

-- A reason as a string: a value of the enum, the string `TOKEN_VERSION_INCREMENTED` of
-- `invalidateAllTokens`, or any other.
pub data Reason : Type 0 where
  named : RevokeReason → Reason
  token_version_incremented : Reason
  other : ℕ → Reason

-- The value of the enum that a string is, for the column `revokedReason`.
abbrev pub enum_reason : Reason → Option RevokeReason
enum_reason (named r) = some r
enum_reason _ = none

-- What the regular expression and `getDeviceType` say of a user agent.
pub record Agent : Type 0 where
  pub is_mobile : Bool
  pub is_handheld : Bool

abbrev pub unknown_agent : Agent
unknown_agent = record { is_mobile = false; is_handheld = false }

abbrev pub agent_or : Option Agent → Agent → Agent
agent_or none a = a
agent_or (some a) _ = a

pub record User : Type 0 where
  pub token_version : ℕ
  pub is_banned : Bool
  pub is_globally_banned : Bool

pub record RefreshToken : Type 0 where
  pub token : ℕ
  pub user : ℕ
  pub tenant : Option ℕ
  pub family : ℕ
  pub version : ℕ
  pub parent : Option ℕ
  pub expires_at : ℕ
  pub agent : Option Agent
  pub status : TokenStatus
  pub is_revoked : Bool
  pub revoked_reason : Option RevokeReason
  pub used_count : ℕ
  pub is_reused : Bool

pub record Session : Type 0 where
  pub user : ℕ
  pub tenant : Option ℕ
  pub refresh_token : ℕ
  pub store : Option ℕ
  pub last_used_at : ℕ
  pub expires_at : ℕ
  pub status : SessionStatus
  pub is_revoked : Bool

-- The columns of `FraudEvent` that `rotate` fills from the token.
pub record FraudEvent : Type 0 where
  pub tenant : Option ℕ
  pub user : ℕ
  pub family : ℕ
  pub version : ℕ

-- `system_store` and `system_tenant`: whether there is a store and a tenant under the key "SYSTEM".
pub record Auth : Type 0 where
  pub users : Table User
  pub tokens : Table RefreshToken
  pub sessions : Table Session
  pub frauds : List FraudEvent
  pub system_store : Bool
  pub system_tenant : Bool
  pub next_key : ℕ
  pub now : ℕ

-- The payload of a refresh token: `version` is absent where the string was signed without it.
pub record Claims : Type 0 where
  pub user : ℕ
  pub version : Option ℕ

-- Milliseconds.
abbrev pub days : ℕ → ℕ
days n = n * 24 * 60 * 60 * 1000

abbrev hours : ℕ → ℕ
hours n = n * 60 * 60 * 1000

abbrev pub is_value : ℕ → RefreshToken → Bool
is_value value t = t.token == value

abbrev pub is_session_of : ℕ → Session → Bool
is_session_of k s = s.refresh_token == k

-- What a request says: its user agent and its store, each where it names one.
pub record Request : Type 0 where
  pub agent : Option Agent
  pub store : Option ℕ

abbrev pub new_session : ℕ → Option ℕ → ℕ → Option ℕ → Request → ℕ → Session
new_session user tenant token store req now = record {
  user = user;
  tenant = tenant;
  refresh_token = token;
  store = store;
  last_used_at = now;
  expires_at = now + hours (if (agent_or req.agent unknown_agent).is_handheld then 720 else 24);
  status = SessionStatus.active;
  is_revoked = false;
}

abbrev pub expiry_days : Agent → ℕ
expiry_days g = if g.is_mobile then 30 else 7

abbrev pub version_or_one : Option User → ℕ
version_or_one none = 1
version_or_one (some u) = u.token_version

-- The row of a new pair.
abbrev pub first_token : ℕ → ℕ → Option ℕ → ℕ → Agent → ℕ → RefreshToken
first_token value user tenant family g now = record {
  token = value;
  user = user;
  tenant = tenant;
  family = family;
  version = 1;
  parent = none;
  expires_at = now + days (expiry_days g);
  agent = some g;
  status = TokenStatus.active;
  is_revoked = false;
  revoked_reason = none;
  used_count = 0;
  is_reused = false;
}

-- The row that follows `t`, the token under the key `k`.
abbrev pub next_token : ℕ → ℕ → RefreshToken → Agent → ℕ → RefreshToken
next_token value k t g now = record {
  token = value;
  user = t.user;
  tenant = t.tenant;
  family = t.family;
  version = t.version + 1;
  parent = some k;
  expires_at = now + days (expiry_days g);
  agent = some g;
  status = TokenStatus.active;
  is_revoked = false;
  revoked_reason = none;
  used_count = 0;
  is_reused = false;
}

abbrev pub set_reused : RefreshToken → RefreshToken
set_reused t = record t { is_reused = true }

abbrev pub set_expired : RefreshToken → RefreshToken
set_expired t = record t { status = TokenStatus.expired }

abbrev pub set_revoked : RevokeReason → RefreshToken → RefreshToken
set_revoked r t = record t {
  is_revoked = true;
  status = TokenStatus.revoked;
  revoked_reason = some r;
}

abbrev pub set_rotated : RefreshToken → RefreshToken
set_rotated t = record t {
  is_revoked = true;
  status = TokenStatus.revoked;
  revoked_reason = some token_rotation;
  used_count = t.used_count + 1;
}

abbrev pub end_session : Session → Session
end_session s = record s { status = SessionStatus.revoked; is_revoked = true }

abbrev pub is_of_family : ℕ → RefreshToken → Bool
is_of_family f t = t.family == f

abbrev pub is_in : ℕ → List ℕ → Bool
is_in k [] = false
is_in k (j ∷ js) = if k == j then true else is_in k js

abbrev pub keys {ℓ} : {A : Type ℓ} → Table A → List ℕ
keys [] = []
keys ((k, _) ∷ t) = k ∷ keys t

-- Live sessions of a token, and of the tokens of a list.
abbrev pub is_live_of : ℕ → Session → Bool
is_live_of k s = s.refresh_token == k && is_live s.status

abbrev pub is_live_in : List ℕ → Session → Bool
is_live_in ks s = is_in s.refresh_token ks && is_live s.status

abbrev pub fraud_of : RefreshToken → FraudEvent
fraud_of t = record { tenant = t.tenant; user = t.user; family = t.family; version = t.version }

-- Whether the rows exist that the fraud event of a token without or with a tenant refers to.
abbrev pub can_report : Option ℕ → Auth → Bool
can_report none a = a.system_store && a.system_tenant
can_report (some _) a = a.system_store

-- `decoded.tokenVersion !== undefined && decoded.tokenVersion !== user.tokenVersion`
abbrev pub is_stale : Option ℕ → ℕ → Bool
is_stale none v = false
is_stale (some c) v = not (c == v)

abbrev pub claims_of : ℕ → ℕ → Claims
claims_of user version = record { user = user; version = some version }

abbrev pub is_active_of_user : ℕ → RefreshToken → Bool
is_active_of_user user t = t.user == user && is_active t.status

abbrev pub is_live_of_user : ℕ → Session → Bool
is_live_of_user user s = s.user == user && is_live s.status

abbrev pub bump : User → User
bump u = record u { token_version = u.token_version + 1 }

abbrev pub is_active_of_family : ℕ → RefreshToken → Bool
is_active_of_family f t = t.family == f && is_active t.status

-- ===== src/Idempotency.antt =====
-- Idempotency keys: `IdempotencyService` of backend/src/services/order/idempotency.service.ts.
-- Parameters stand for the runtime's JSON: `parse`, which throws where it gives nothing, and
-- `stringify`. An hour is one of sixty minutes, also where the local time changes.
pub mod Answers
use coffee_shop_saas_platfor.Prelude.{
  ℕ, suc, ◌+◌, ◌*◌, Bool, Option, none, some, [], ◌∷◌, ◌==◌, ◌&&◌, ltb, if◌then◌else◌,
}
use coffee_shop_saas_platfor.Table.{Table, find_first, create, delete}
use coffee_shop_saas_platfor.Action.{
  Action, ok, err, pure, or_throw, gets, modify, ◌>>=◌, ◌>>◌, unique_violation, syntax_error,
}

pub record IdempotencyKey : Type 0 where
  pub tenant : ℕ
  pub key : ℕ
  pub route : ℕ
  pub response : ℕ
  pub status_code : ℕ
  pub expires_at : ℕ

pub record Responses : Type 0 where
  pub rows : Table IdempotencyKey
  pub next_key : ℕ
  pub now : ℕ

-- The unique columns of a row.
pub record Name : Type 0 where
  pub tenant : ℕ
  pub key : ℕ
  pub route : ℕ

abbrev pub is_named : Name → IdempotencyKey → Bool
is_named n e = e.tenant == n.tenant && e.key == n.key && e.route == n.route

-- `expiresAt < new Date()`
abbrev pub is_expired : ℕ → IdempotencyKey → Bool
is_expired now e = ltb e.expires_at now

-- `deleteMany({ where })`
abbrev pub delete_many {ℓ} : {A : Type ℓ} → (A → Bool) → Table A → Table A
delete_many q [] = []
delete_many q ((k, v) ∷ t) = if q v then delete_many q t else (k, v) ∷ delete_many q t

module _ (stringify : ℕ → ℕ) where
  check_found : Option (ℕ × IdempotencyKey) → Action Responses (Option (ℕ × ℕ))
  check_found none = pure none
  check_found (some (k, e)) = do
    now ← gets (λ s. s.now)
    if is_expired now e
        then (do modify (λ s. record s { rows = delete k s.rows }); pure none)
        else pure (some (stringify e.response, e.status_code))

  -- The response and the status code that are kept for a name, if any.
  unfoldable pub check : Name → Action Responses (Option (ℕ × ℕ))
  unfolding check_found
  check n = do existing ← gets (λ s. find_first (is_named n) s.rows); check_found existing

abbrev pub new_row : Name → ℕ → ℕ → ℕ → IdempotencyKey
new_row n response code expires = record {
  tenant = n.tenant;
  key = n.key;
  route = n.route;
  response = response;
  status_code = code;
  expires_at = expires;
}

-- `idempotencyKey.create`: tenant, key and route are unique together.
insert_row : Option (ℕ × IdempotencyKey) → IdempotencyKey → Action Responses (Unit {0})
insert_row (some _) e s = (err unique_violation, s)
insert_row none e s =
    (ok tt, record s { rows = create s.next_key e s.rows; next_key = suc s.next_key })

unfoldable pub store : (ℕ → Option ℕ) → Name → ℕ → ℕ → ℕ → Action Responses (Unit {0})
unfolding insert_row
store parse n response code hours = do
  now ← gets (λ s. s.now)
  parsed ← or_throw (parse response) syntax_error
  taken ← gets (λ s. find_first (is_named n) s.rows)
  insert_row taken (new_row n parsed code (now + hours * 3600000))

unfoldable pub cleanup : Action Responses (Unit {0})
cleanup = modify (λ s. record s { rows = delete_many (is_expired s.now) s.rows })

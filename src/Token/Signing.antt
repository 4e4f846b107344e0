-- ===== src/Token/Signing.antt =====
-- What a rotation needs of the strings that are signed: a payload that is signed twice in a second is
-- signed alike, and `RefreshToken.token` is unique.
use coffee_shop_saas_platfor.Prelude.{
  ℕ, ◌≡◌, refl, sym, ◌∙◌, true, false, Option, none, some, arith, ltb,
}
use mathlib.Core.Path.{subst}
use coffee_shop_saas_platfor.Table.{find, find_first, update, find_first-update, find_first_sound}
use coffee_shop_saas_platfor.Table.Keys.{find_first-find}
use coffee_shop_saas_platfor.Action.{err, unique_violation}
use coffee_shop_saas_platfor.Token.{renew, rotate_current, rotate_found, rotate, create_token}
use coffee_shop_saas_platfor.Token.Rows.{
  Auth, RefreshToken, User, Claims, Request, is_active, is_value, set_rotated, is_stale, claims_of,
  next_token, agent_or, unknown_agent,
}
use coffee_shop_saas_platfor.Token.Renew.{create_both, retired, renew_effect, rotate_reaches}
use coffee_shop_saas_platfor.Token.Sound.{IsSound, IsIdle, is_on, family_of}
use coffee_shop_saas_platfor.Table.Single.{IsIdle-update}

-- A token that `rotate` accepts at the time `now`.
abbrev pub IsUsable : RefreshToken → User → Option ℕ → ℕ → Type 0
IsUsable t u version now =
    (t.is_revoked ≡ false)
    × (is_active t.status ≡ true)
    × (ltb t.expires_at now ≡ false)
    × (is_stale version u.token_version ≡ false)
    × (u.is_banned ≡ false)
    × (u.is_globally_banned ≡ false)

taken :
    (v : RefreshToken) (user value : ℕ) (tenant store : Option ℕ) (req : Request) (a : Auth)
    (u : User) (e : ℕ × RefreshToken)
    → find v.user a.users ≡ some u
    → find_first (is_value v.token) a.tokens ≡ some e
    → create_both v user value tenant store req a ≡ (err unique_violation, a)
unfolding create_token
taken v user value tenant store req a u e h h' = ground arith

module _ (sign : Claims → ℕ → ℕ) where
  pub usable_renews :
      (version : Option ℕ) (k : ℕ) (stored : RefreshToken) (user : User) (req : Request) (a : Auth)
      → IsUsable stored user version a.now
      → rotate_found sign version k stored user req a ≡ renew sign k stored user req a
  unfolding rotate_found rotate_current
  usable_renews version k stored user req a (h0, h1, h2, h3, h4, h5) = ground arith

  module _ (verify : ℕ → ℕ → Option Claims) where
    -- A verified token on record that may be used, of a user of the table; keys and families are
    -- below the next key, keys differ, and no family has two active tokens. Where the string that is
    -- signed now for the user's claims is the token itself, as it is within the second in which the
    -- token was signed, the rotation throws a unique violation and leaves the family without an
    -- active token.
    pub same_second_locks_out :
        (value : ℕ) (req : Request) (a : Auth) (c : Claims) (k : ℕ) (stored : RefreshToken)
        (user : User)
        → IsSound a.next_key a.tokens
        → verify value a.now ≡ some c
        → find_first (is_value value) a.tokens ≡ some (k, stored)
        → find stored.user a.users ≡ some user
        → IsUsable stored user c.version a.now
        → sign (claims_of stored.user user.token_version) a.now ≡ value
        → let (r, a') = rotate sign verify value req a in
          (r ≡ err unique_violation) × IsIdle stored.family a'.tokens
    same_second_locks_out value req a c k stored user s e e' e'' usable same =
        let there = find_first-find (is_value value) a.tokens k stored s.0 e' in
        let agent = agent_or req.agent (agent_or stored.agent unknown_agent) in
        let v = sign (claims_of stored.user user.token_version) a.now in
        let old =
          find_first-update (is_value value) set_rotated a.tokens k stored e' there
            (find_first_sound (is_value value) a.tokens k stored e') in
        let blocked =
          taken (next_token v k stored agent a.now) stored.user v stored.tenant none req
            (retired k a) user (k, set_rotated stored) e''
            (subst
              (λ (x : ℕ).
                find_first (is_value x) (update k set_rotated a.tokens)
                ≡ some (k, set_rotated stored))
              (sym same) old) in
        let whole : rotate sign verify value req a ≡ (err unique_violation, retired k a) =
          rotate_reaches sign verify value req a c k stored user e e' e''
          ∙ usable_renews c.version k stored user req a usable
          ∙ renew_effect sign k stored user req a there
          ∙ blocked in
        rw whole (
          refl,
          IsIdle-update is_on family_of k set_rotated a.tokens stored (λ r. refl) s.2 there
              usable.1,
        )

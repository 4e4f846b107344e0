-- ===== src/Tests/Tokens.antt =====
-- Refresh tokens. What is signed is a number: the second, the user and the version, each in its digits.
use coffee_shop_saas_platfor.Prelude.{
  ℕ, ◌+◌, ◌*◌, ◌/◌, ◌%◌, ◌<◌, ◌≡◌, refl, ◌⊎◌, true, false, Option, none, some, List, [], ◌∷◌, arith,
}
use coffee_shop_saas_platfor.Table.{find, find_first}
use coffee_shop_saas_platfor.Action.{
  ok, err, token_reuse_detected, foreign_key_violation, unique_violation,
}
use coffee_shop_saas_platfor.Token.{
  rotate, rotate_found, rotate_current, renew, create_token, create_session, revoke_all_for_user,
  issue_token_pair, invalidate_all_tokens,
}
use coffee_shop_saas_platfor.Token.Rows.{
  Auth, User, RefreshToken, Claims, Request, is_active, is_value, claims_of, first_token,
  unknown_agent, set_rotated,
}
use coffee_shop_saas_platfor.Token.Calls.{
  AuthCall, auth_run, auth_step, issues, rotates, waits, logs_out,
}
use coffee_shop_saas_platfor.Token.Sound.{IsSound, IsIdle}
use coffee_shop_saas_platfor.Token.Single.{auth_run-IsSound}
use coffee_shop_saas_platfor.Token.Reuse.{IsCut, Holds, reuse_ends_family, replay_ends_family}
use coffee_shop_saas_platfor.Token.Signing.{same_second_locks_out}
use coffee_shop_saas_platfor.Token.Issued.{issue_then_rotate}
use coffee_shop_saas_platfor.Token.Versions.{invalidated_die}

abbrev a_user : User
a_user = record { token_version = 1; is_banned = false; is_globally_banned = false }

abbrev no_tokens : Auth
no_tokens = record {
  users = (5, a_user) ∷ [];
  tokens = [];
  sessions = [];
  frauds = [];
  system_store = false;
  system_tenant = false;
  next_key = 1;
  now = 3000;
}

abbrev version_of : Claims → ℕ
version_of c = elim c.version [ none ↦ 0 | some v ↦ v ]

abbrev signed : Claims → ℕ → ℕ
signed c t = (t / 1000) * 100 + c.user * 10 + version_of c

abbrev verified : ℕ → ℕ → Option Claims
verified value t = some (claims_of ((value / 10) % 10) (value % 10))

abbrev plain : Request
plain = record { agent = none; store = none }

no_tokens-IsSound : IsSound no_tokens.next_key no_tokens.tokens
no_tokens-IsSound = (
  tt,
  λ k le. refl,
  λ i j a b h h' o o' f. absurd (ground arith),
  λ i a h o. absurd (ground arith),
)

abbrev sign_in : List AuthCall
sign_in = issues 5 none none plain ∷ waits 2000 ∷ []

abbrev signed_in : Auth
signed_in = auth_run signed verified sign_in no_tokens

signed_in-IsSound : IsSound signed_in.next_key signed_in.tokens
signed_in-IsSound = auth_run-IsSound signed verified sign_in no_tokens no_tokens-IsSound

abbrev calls : List AuthCall
calls =
    issues 5 none none plain
    ∷ waits 2000
    ∷ rotates 351 plain
    ∷ rotates 351 plain
    ∷ logs_out 551
    ∷ []

auth_run-IsSound_example :
    IsSound
      (auth_run signed verified calls no_tokens).next_key
      (auth_run signed verified calls no_tokens).tokens
auth_run-IsSound_example = auth_run-IsSound signed verified calls no_tokens no_tokens-IsSound

abbrev old_token : RefreshToken
old_token = set_rotated (first_token 351 5 none 9 unknown_agent 3000)

abbrev used_once : Auth
used_once = record no_tokens { tokens = (2, old_token) ∷ []; next_key = 10 }

reuse_ends_family_example :
    let (r, a') = rotate signed verified 351 plain used_once in
    (r ≡ err foreign_key_violation) × IsIdle 9 a'.tokens × IsCut 9 a'
reuse_ends_family_example =
    reuse_ends_family signed verified 351 plain used_once (claims_of 5 1) 2 old_token a_user
      (refl, tt) refl refl refl refl

replay_ends_family_example :
    let later = record (rotate signed verified 351 plain signed_in).1 { now = 6000 } in
    let (r, a'') = rotate signed verified 351 plain later in
    (f : ℕ) × Holds f 551 later
    × ((r ≡ err token_reuse_detected) ⊎ (r ≡ err foreign_key_violation))
    × IsIdle f a''.tokens
    × IsCut f a''
unfolding auth_run auth_step issue_token_pair create_token create_session rotate rotate_found
    rotate_current renew
replay_ends_family_example =
    replay_ends_family signed verified 351 551 1000 plain plain signed_in (claims_of 5 1)
      signed_in-IsSound refl refl

same_second_locks_out_example :
    let (r, a') = rotate signed verified 351 plain (record signed_in { now = 3500 }) in
    (r ≡ err unique_violation) × IsIdle 1 a'.tokens
unfolding auth_run auth_step issue_token_pair create_token create_session
same_second_locks_out_example =
    same_second_locks_out signed verified 351 plain (record signed_in { now = 3500 })
      (claims_of 5 1) 2 (first_token 351 5 none 1 unknown_agent 3000) a_user signed_in-IsSound refl
      refl refl (refl, refl, refl, refl, refl, refl) refl

abbrev after_invalidation : List AuthCall
after_invalidation = waits 1000 ∷ issues 5 none none plain ∷ waits 2000 ∷ []

invalidated_die_example : a_user.token_version < 2
unfolding auth_run auth_step issue_token_pair create_token create_session invalidate_all_tokens
    revoke_all_for_user rotate rotate_found rotate_current renew
invalidated_die_example =
    invalidated_die signed verified 5 452 652 2 plain after_invalidation no_tokens a_user
      (claims_of 5 2) 2 (first_token 452 5 none 1 unknown_agent 4000) refl refl refl refl refl refl

issue_then_rotate_example :
    let (r, a') = issue_token_pair signed 5 none none plain no_tokens in
    let (r', a'') = rotate signed verified 351 plain (record a' { now = 5000 }) in
    (r ≡ ok 351)
    × (r' ≡ ok 551)
    × ((k : ℕ) × (t : RefreshToken) × (find_first (is_value 351) a'.tokens ≡ some (k, t))
        × ((j : ℕ) × (t' : RefreshToken) × (find j a''.tokens ≡ some t')
            × (t'.token ≡ 551)
            × (t'.version ≡ 2)
            × (t'.parent ≡ some k)
            × (t'.family ≡ t.family)
            × (is_active t'.status ≡ true)))
unfolding issue_token_pair create_token create_session
issue_then_rotate_example =
    issue_then_rotate signed verified 5 2000 none none plain plain no_tokens a_user (claims_of 5 1)
      no_tokens-IsSound tt refl (refl, refl) (omega arith) refl refl (ground arith) refl refl

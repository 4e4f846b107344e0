-- ===== src/Token/Guarded.antt =====
-- No revocation gives a family of refresh tokens a second active token.
use coffee_shop_saas_platfor.Prelude.{ℕ, ◌≡◌, refl, inl, inr, Option, some, arith, Option-cases}
use coffee_shop_saas_platfor.Table.{Table, find, find_first, update, update_many}
use coffee_shop_saas_platfor.Token.{
  create_session, detect_reuse, revoke, revoke_all_for_user, invalidate_all_tokens,
  revoke_token_family,
}
use coffee_shop_saas_platfor.Token.Rows.{
  Auth, RefreshToken, Reason, RevokeReason, Request, is_value, is_of_family, is_active_of_user,
  is_active_of_family, set_reused, set_revoked, suspicious_activity, enum_reason, is_session_of,
  user_logout, session_revoked,
}
use coffee_shop_saas_platfor.Token.Sessions.{
  reason_or, revoke_all_sessions, logout_by_token, revoke_session, touch_activity,
}
use coffee_shop_saas_platfor.Token.Sound.{
  IsSound, Fades, IsSound-update, IsSound-update_many, IsSound-suc,
}

abbrev pub IsGuarded : Auth → Type 0
IsGuarded a = IsSound a.next_key a.tokens

revoked_Fades : (r : RevokeReason) → Fades (set_revoked r)
revoked_Fades r t = (refl, λ h. absurd (ground arith))

-- What a call does to the tokens and to the next key.
abbrev pub Becomes : ℕ → Table RefreshToken → Auth → Type 0
Becomes n t a = (a.next_key ≡ n) × (a.tokens ≡ t)

pub becomes :
    (n : ℕ) (t : Table RefreshToken) (a : Auth) → Becomes n t a → IsSound n t → IsGuarded a
becomes n t a (key, rows) s = rw (key, rows) s

detect_effect :
    (k : ℕ) (stored v : RefreshToken) (a : Auth)
    → find k a.tokens ≡ some v
    → Becomes a.next_key
        (update_many
          (is_of_family stored.family)
          (set_revoked suspicious_activity)
          (update k set_reused a.tokens))
        (detect_reuse k stored a).1
unfolding detect_reuse
detect_effect k stored v a h = (ground arith, ground arith)

pub revoke-IsGuarded :
    (value : ℕ) (reason : Reason) (a : Auth) → IsGuarded a → IsGuarded (revoke value reason a).1
unfolding revoke
revoke-IsGuarded value reason a s = elim (Option-cases (find_first (is_value value) a.tokens)) [
  | inl e ↦ becomes a.next_key a.tokens (revoke value reason a).1 (ground arith, ground arith) s
  | inr ((k, v), e) ↦ elim (Option-cases (enum_reason reason)) [
    | inl e' ↦ becomes a.next_key a.tokens (revoke value reason a).1 (ground arith, ground arith) s
    | inr (r, e') ↦ elim (Option-cases (find k a.tokens)) [
      | inl gone ↦
          becomes a.next_key a.tokens (revoke value reason a).1 (ground arith, ground arith) s
      | inr (v', there) ↦
          becomes _ _ (revoke value reason a).1 (ground arith, ground arith)
            (IsSound-update a.next_key k (set_revoked r) a.tokens (revoked_Fades r) s)
    ]
  ]
]

pub revoke_all-IsGuarded :
    (user : ℕ) (reason : Reason) (a : Auth)
    → IsGuarded a
    → IsGuarded (revoke_all_for_user user reason a).1
unfolding revoke_all_for_user
revoke_all-IsGuarded user reason a s = elim (Option-cases (enum_reason reason)) [
  | inl e ↦ rw e s
  | inr (r, e) ↦ rw e (
      IsSound-update_many a.next_key (is_active_of_user user) (set_revoked r) a.tokens
        (revoked_Fades r) s)
]

pub revoke_family-IsGuarded :
    (f : ℕ) (reason : Reason) (a : Auth)
    → IsGuarded a
    → IsGuarded (revoke_token_family f reason a).1
unfolding revoke_token_family
revoke_family-IsGuarded f reason a s = elim (Option-cases (enum_reason reason)) [
  | inl e ↦ rw e s
  | inr (r, e) ↦ rw e (
      IsSound-update_many a.next_key (is_active_of_family f) (set_revoked r) a.tokens
        (revoked_Fades r) s)
]

pub invalidate-IsGuarded :
    (user : ℕ) (a : Auth) → IsGuarded a → IsGuarded (invalidate_all_tokens user a).1
unfolding invalidate_all_tokens revoke_all_for_user
invalidate-IsGuarded user a s = elim (Option-cases (find user a.users)) [
  | inl e ↦
      becomes a.next_key a.tokens (invalidate_all_tokens user a).1 (ground arith, ground arith) s
  | inr (u, e) ↦
      becomes a.next_key a.tokens (invalidate_all_tokens user a).1 (ground arith, ground arith) s
]

pub session-IsGuarded :
    (user : ℕ) (tenant : Option ℕ) (token : ℕ) (store : Option ℕ) (req : Request) (a : Auth)
    → IsGuarded a
    → IsGuarded (create_session user tenant token store req a).1
unfolding create_session
session-IsGuarded user tenant token store req a s =
    elim (Option-cases (find_first (is_session_of token) a.sessions)) [
      | inl e ↦ elim (Option-cases (find token a.tokens)) [
        | inl gone ↦ rw (e, gone) s
        | inr (t, there) ↦ rw (e, there) (IsSound-suc a.next_key a.tokens s)
      ]
      | inr (x, e) ↦ rw e s
    ]

pub revoke_sessions-IsGuarded :
    (user : ℕ) (store : Option ℕ) (reason : Option Reason) (a : Auth)
    → IsGuarded a
    → IsGuarded (revoke_all_sessions user store reason a).1
unfolding revoke_all_sessions
revoke_sessions-IsGuarded user store reason a s =
    elim (Option-cases (enum_reason (reason_or reason))) [
      | inl e ↦ rw e s
      | inr (r, e) ↦ rw e (
          IsSound-update_many a.next_key (is_active_of_user user) (set_revoked r) a.tokens
            (revoked_Fades r) s)
    ]

pub logout-IsGuarded : (value : ℕ) (a : Auth) → IsGuarded a → IsGuarded (logout_by_token value a).1
unfolding logout_by_token
logout-IsGuarded value a s = elim (Option-cases (find_first (is_value value) a.tokens)) [
  | inl e ↦ becomes a.next_key a.tokens (logout_by_token value a).1 (ground arith, ground arith) s
  | inr ((k, v), e) ↦ elim (Option-cases (find k a.tokens)) [
    | inl gone ↦
        becomes a.next_key a.tokens (logout_by_token value a).1 (ground arith, ground arith) s
    | inr (v', there) ↦
        becomes _ _ (logout_by_token value a).1 (ground arith, ground arith)
          (IsSound-update a.next_key k (set_revoked user_logout) a.tokens
            (revoked_Fades user_logout) s)
  ]
]

pub end_session-IsGuarded : (k : ℕ) (a : Auth) → IsGuarded a → IsGuarded (revoke_session k a).1
unfolding revoke_session
end_session-IsGuarded k a s = elim (Option-cases (find k a.sessions)) [
  | inl e ↦ becomes a.next_key a.tokens (revoke_session k a).1 (ground arith, ground arith) s
  | inr (x, e) ↦ elim (Option-cases (find x.refresh_token a.tokens)) [
    | inl gone ↦ becomes a.next_key a.tokens (revoke_session k a).1 (ground arith, ground arith) s
    | inr (v, there) ↦
        becomes _ _ (revoke_session k a).1 (ground arith, ground arith)
          (IsSound-update a.next_key x.refresh_token (set_revoked session_revoked) a.tokens
            (revoked_Fades session_revoked) s)
  ]
]

pub touch-IsGuarded : (k : ℕ) (a : Auth) → IsGuarded a → IsGuarded (touch_activity k a).1
unfolding touch_activity
touch-IsGuarded k a s = elim (Option-cases (find k a.sessions)) [
  | inl e ↦ becomes a.next_key a.tokens (touch_activity k a).1 (ground arith, ground arith) s
  | inr (x, e) ↦ becomes a.next_key a.tokens (touch_activity k a).1 (ground arith, ground arith) s
]

pub detect-IsGuarded :
    (k : ℕ) (stored v : RefreshToken) (a : Auth)
    → find k a.tokens ≡ some v
    → IsGuarded a
    → IsGuarded (detect_reuse k stored a).1
detect-IsGuarded k stored v a h s =
    let marked = IsSound-update a.next_key k set_reused a.tokens (λ t. (refl, λ on. on)) s in
    becomes _ _ (detect_reuse k stored a).1 (detect_effect k stored v a h) (
      IsSound-update_many a.next_key (is_of_family stored.family) (set_revoked suspicious_activity)
        (update k set_reused a.tokens) (revoked_Fades suspicious_activity) marked)

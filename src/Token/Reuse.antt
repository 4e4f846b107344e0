-- ===== src/Token/Reuse.antt =====
-- A refresh token that is presented a second time: the whole family of tokens ends, and its sessions.
use coffee_shop_saas_platfor.Prelude.{
  ℕ, ◌+◌, ◌≡◌, refl, sym, ap, ◌∙◌, ◌⊎◌, inl, inr, Bool, true, false, not, ◌||◌, Option, none, some,
  [], ◌∷◌, ==_refl, arith, Bool-cases, Option-cases, if◌then◌else◌,
}
use mathlib.Core.Path.{subst}
use coffee_shop_saas_platfor.Table.{
  Table, find, find_first, find_many, update, update_many, create, find_first-update,
  find_first_sound, find-create_self,
}
use coffee_shop_saas_platfor.Table.Keys.{IsKeyed, find_first-find, find-update-none}
use coffee_shop_saas_platfor.Table.Rows.{find-update_many-cases}
use coffee_shop_saas_platfor.Action.{Result, ok, err, token_reuse_detected, foreign_key_violation}
use coffee_shop_saas_platfor.Token.{detect_reuse, rotate_found, rotate}
use coffee_shop_saas_platfor.Token.Rows.{
  Auth, RefreshToken, Session, User, Claims, Request, is_active, is_live, is_value, is_of_family,
  is_in, keys, is_live_in, end_session, set_reused, set_revoked, set_rotated, suspicious_activity,
  can_report, agent_or, unknown_agent, claims_of, next_token,
}
use coffee_shop_saas_platfor.Token.Renew.{
  retired, renew_effect, rotate_reaches, rotate_ok, create_both_ok,
}
use coffee_shop_saas_platfor.Token.Single.{rotate-IsGuarded}
use coffee_shop_saas_platfor.Token.Sound.{IsSound, IsIdle}

-- No live session belongs to a token of the family.
abbrev pub IsCut : ℕ → Auth → Type 0
IsCut f a =
    (i : ℕ) (s : Session) (t : RefreshToken)
    → find i a.sessions ≡ some s
    → is_live s.status ≡ true
    → find s.refresh_token a.tokens ≡ some t
    → t.family ≡ f
    → ⊥

is_in-keys :
    (q : RefreshToken → Bool) (k : ℕ) (t : Table RefreshToken) (v : RefreshToken)
    → find k t ≡ some v
    → q v ≡ true
    → is_in k (keys (find_many q t)) ≡ true
is_in-keys q k [] v h yes' = absurd (ground arith)
is_in-keys q k (e ∷ t) v h yes' = ground (arith, is_in-keys q k t v)

IsIdle-revoked :
    (f : ℕ) (t : Table RefreshToken)
    → IsIdle f (update_many (is_of_family f) (set_revoked suspicious_activity) t)
IsIdle-revoked f t j b h on same =
    let (a, old, new) =
      find-update_many-cases j (is_of_family f) (set_revoked suspicious_activity) t b h in
    elim (Bool-cases (is_of_family f a)) [
      | inl yes' ↦
          let new' : b ≡ set_revoked suspicious_activity a = new ∙ (rw yes') in
          let on' = subst (λ (r : RefreshToken). is_active r.status ≡ true) new' on in
          absurd (ground arith)
      | inr no' ↦
          let new' : b ≡ a = new ∙ (rw no') in
          let same' : a.family ≡ f = sym (ap (λ (r : RefreshToken). r.family) new') ∙ same in
          absurd (ground arith)
    ]

-- The family of tokens and sessions after the reuse was detected.
abbrev cut : ℕ → RefreshToken → Auth → Auth
cut k stored a =
    let rows =
      update_many (is_of_family stored.family) (set_revoked suspicious_activity)
        (update k set_reused a.tokens) in
    record a {
      tokens = rows;
      sessions =
          update_many (is_live_in (keys (find_many (is_of_family stored.family) rows))) end_session
            a.sessions;
    }

detect_effect :
    (k : ℕ) (stored v : RefreshToken) (a : Auth)
    → find k a.tokens ≡ some v
    → let r = detect_reuse k stored a in
      (r.0 ≡ (
        if can_report stored.tenant a then err token_reuse_detected else err foreign_key_violation))
      × (r.1.tokens ≡ (cut k stored a).tokens)
      × (r.1.sessions ≡ (cut k stored a).sessions)
unfolding detect_reuse
detect_effect k stored v a h = elim (Option-cases stored.tenant) [
  | inl e ↦ (ground arith, ground arith, ground arith)
  | inr (t, e) ↦ (ground arith, ground arith, ground arith)
]

IsCut-cut : (k : ℕ) (stored : RefreshToken) (a : Auth) → IsCut stored.family (cut k stored a)
IsCut-cut k stored a i s t h on there same =
    let rows = (cut k stored a).tokens in
    let family = keys (find_many (is_of_family stored.family) rows) in
    let (x, old, new) = find-update_many-cases i (is_live_in family) end_session a.sessions s h in
    let listed : is_in s.refresh_token family ≡ true =
      is_in-keys (is_of_family stored.family) s.refresh_token rows t there
        (rw same (==_refl stored.family)) in
    elim (Bool-cases (is_live_in family x)) [
      | inl yes' ↦
          let new' : s ≡ end_session x = new ∙ (rw yes') in
          let on' = subst (λ (r : Session). is_live r.status ≡ true) new' on in
          absurd (ground arith)
      | inr no' ↦
          let new' : x ≡ s = sym (new ∙ (rw no')) in
          let no'' = subst (λ (r : Session). is_live_in family r ≡ false) new' no' in
          absurd (ground (arith, listed, on))
    ]

found_used :
    (sign : Claims → ℕ → ℕ) (version : Option ℕ) (k : ℕ) (stored : RefreshToken) (user : User)
    (req : Request) (a : Auth)
    → (stored.is_revoked || not (is_active stored.status)) ≡ true
    → rotate_found sign version k stored user req a ≡ detect_reuse k stored a
unfolding rotate_found
found_used sign version k stored user req a used = rw used refl

-- A row found first stays first when another is created.
find_first-create-some :
    (q : RefreshToken → Bool) (n : ℕ) (v : RefreshToken) (t : Table RefreshToken)
    (e : ℕ × RefreshToken)
    → find_first q t ≡ some e
    → find_first q (create n v t) ≡ some e
find_first-create-some q n v [] e h = absurd (ground arith)
find_first-create-some q n v (x ∷ t) e h = ground (arith, find_first-create-some q n v t e)

-- An active token of a family that has the value.
abbrev pub Holds : ℕ → ℕ → Auth → Type 0
Holds f value a =
    (k : ℕ) × (t : RefreshToken) × (find k a.tokens ≡ some t)
    × (t.token ≡ value)
    × (t.family ≡ f)
    × (is_active t.status ≡ true)

thrown_cases :
    (b : Bool) (r : Result ℕ)
    → r ≡ (if b then err token_reuse_detected else err foreign_key_violation)
    → (r ≡ err token_reuse_detected) ⊎ (r ≡ err foreign_key_violation)
thrown_cases true r h = inl h
thrown_cases false r h = inr h

module _ (sign : Claims → ℕ → ℕ) (verify : ℕ → ℕ → Option Claims) where
  -- A verified token that is on record for a user of the table, and is revoked or not active: the
  -- rotation throws, `TOKEN_REUSE_DETECTED` where the fraud event can be written and a violated
  -- foreign key elsewhere, and either way no token of the family is active afterwards and no live
  -- session belongs to one. (Primary keys differ.)
  pub reuse_ends_family :
      (value : ℕ) (req : Request) (a : Auth) (c : Claims) (k : ℕ) (stored : RefreshToken)
      (user : User)
      → IsKeyed a.tokens
      → verify value a.now ≡ some c
      → find_first (is_value value) a.tokens ≡ some (k, stored)
      → find stored.user a.users ≡ some user
      → (stored.is_revoked || not (is_active stored.status)) ≡ true
      → let (r, a') = rotate sign verify value req a in
        (r ≡ (
          if can_report stored.tenant a
          then err token_reuse_detected
          else err foreign_key_violation))
        × IsIdle stored.family a'.tokens
        × IsCut stored.family a'
  reuse_ends_family value req a c k stored user keyed e e' e'' used =
      let there = find_first-find (is_value value) a.tokens k stored keyed e' in
      let reached = rotate_reaches sign verify value req a c k stored user e e' e'' in
      let (thrown, rows, live) = detect_effect k stored stored a there in
      let same : rotate sign verify value req a ≡ detect_reuse k stored a =
        reached ∙ found_used sign c.version k stored user req a used in
      rw (same, thrown, rows, live)
        (refl, IsIdle-revoked stored.family (update k set_reused a.tokens), IsCut-cut k stored a)

  -- What the rotation of a token leaves: the old one first with its value, and revoked; the new one
  -- active in the same family.
  rotated :
      (value new : ℕ) (req : Request) (a : Auth)
      → IsSound a.next_key a.tokens
      → (rotate sign verify value req a).0 ≡ ok new
      → let a' = (rotate sign verify value req a).1 in
        (k : ℕ) × (stored : RefreshToken) × (user : User) × (find_first (is_value value) a'.tokens
          ≡ some (k, set_rotated stored))
        × (find stored.user a'.users ≡ some user)
        × Holds stored.family new a'
  rotated value new req a (keyed, below, single, known) h =
      let (c, k, stored, user, e, e', e'', valid, same) = rotate_ok sign verify value req a new h in
      let there = find_first-find (is_value value) a.tokens k stored keyed e' in
      let v = sign (claims_of stored.user user.token_version) a.now in
      let agent = agent_or req.agent (agent_or stored.agent unknown_agent) in
      let next = next_token v k stored agent a.now in
      let same' = same ∙ renew_effect sign k stored user req a there in
      let (value', unused, rows, users) =
        create_both_ok next stored.user v stored.tenant none req (retired k a) new
          (sym (ap (λ (x : Result ℕ × Auth). x.0) same') ∙ h) in
      let old =
        find_first-update (is_value value) set_rotated a.tokens k stored e' there
          (find_first_sound (is_value value) a.tokens k stored e') in
      rw (same', rows, users)
        (
          k,
          stored,
          user,
          find_first-create-some (is_value value) a.next_key next (update k set_rotated a.tokens)
              (k, set_rotated stored) old,
          e'',
          (
            a.next_key,
            next,
            find-create_self a.next_key next (update k set_rotated a.tokens) (
                find-update-none a.next_key k set_rotated a.tokens
                  (below a.next_key (omega arith))),
            sym value',
            refl,
            refl,
          ),
        )

  -- A token that was rotated and is presented again any time later, verified and with no call in
  -- between: the new token, active in some family, was of the same family as the old one; the second
  -- rotation throws, no token of the family is active afterwards, the new one included, and no live
  -- session belongs to one. (Keys and families are below the next key, keys differ, and no family had
  -- two active tokens.)
  pub replay_ends_family :
      (value new n : ℕ) (req req' : Request) (a : Auth) (c : Claims)
      → IsSound a.next_key a.tokens
      → (rotate sign verify value req a).0 ≡ ok new
      → let a' = (rotate sign verify value req a).1 in
        let later = record a' { now = a'.now + n } in
        verify value later.now ≡ some c
        → let (r, a'') = rotate sign verify value req' later in
          (f : ℕ) × Holds f new later
          × ((r ≡ err token_reuse_detected) ⊎ (r ≡ err foreign_key_violation))
          × IsIdle f a''.tokens
          × IsCut f a''
  replay_ends_family value new n req req' a c s h verified =
      let a' = (rotate sign verify value req a).1 in
      let later = record a' { now = a'.now + n } in
      let (k, stored, user, old, known, holds) = rotated value new req a s h in
      let keyed' = (rotate-IsGuarded sign verify value req a s).0 in
      let (thrown, idle, dead) =
        reuse_ends_family value req' later c k (set_rotated stored) user keyed' verified old known
          refl in
      (stored.family, holds, thrown_cases (can_report stored.tenant later) _ thrown, idle, dead)

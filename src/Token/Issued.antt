-- ===== src/Token/Issued.antt =====
-- A pair of tokens that was issued, and its first rotation.
use coffee_shop_saas_platfor.Prelude.{
  ℕ, suc, ◌+◌, ◌<◌, ◌≤◌, ◌≡◌, ◌≢◌, refl, ◌∙◌, inl, inr, Bool, true, false, ==_of_ne, ==_refl,
  Option, none, some, [], ◌∷◌, arith, ltb, All, Bool-cases,
}
use coffee_shop_saas_platfor.Table.{
  Table, find, find_first, update, update_many, create, find_first-create, find-create_self,
}
use coffee_shop_saas_platfor.Table.Keys.{find-update-none, find-create-none}
use coffee_shop_saas_platfor.Table.Rows.{IsBelow}
use coffee_shop_saas_platfor.Action.{ok}
use coffee_shop_saas_platfor.Token.{renew, rotate, create_token, create_session, issue_token_pair}
use coffee_shop_saas_platfor.Token.Rows.{
  Auth, RefreshToken, Session, User, Claims, Request, is_active, is_value, is_session_of,
  is_live_of, end_session, set_rotated, is_stale, claims_of, next_token, first_token, new_session,
  Agent, days, expiry_days, agent_or, unknown_agent,
}
use coffee_shop_saas_platfor.Token.Renew.{create_both, retired, renew_effect, rotate_reaches}
use coffee_shop_saas_platfor.Token.Signing.{usable_renews}
use coffee_shop_saas_platfor.Token.Sound.{IsSound}

-- No session is of a token whose key is not given yet.
abbrev pub IsLinked : ℕ → Table Session → Type 0
IsLinked n t = All (λ e. e.1.refresh_token < n) t

linked_free :
    (n k : ℕ) (t : Table Session) → IsLinked n t → n ≤ k → find_first (is_session_of k) t ≡ none
linked_free n k [] h le = refl
linked_free n k (e ∷ t) h le =
    let lt = h.0 in
    let other : e.1.refresh_token ≢ k = λ same. (omega (arith, lt, le, same)) in
    rw (==_of_ne e.1.refresh_token k other) (linked_free n k t h.1 le)

ended-IsLinked :
    (n k : ℕ) (t : Table Session)
    → IsLinked n t
    → IsLinked n (update_many (is_live_of k) end_session t)
ended-IsLinked n k [] h = h
ended-IsLinked n k (e ∷ t) h = elim (Bool-cases (is_live_of k e.1)) [
  | inl yes' ↦ rw yes' (h.0, ended-IsLinked n k t h.1)
  | inr no' ↦ rw no' (h.0, ended-IsLinked n k t h.1)
]

-- A token and its session, created.
abbrev created : RefreshToken → ℕ → Option ℕ → Option ℕ → Request → Auth → Auth
created v user tenant store req a = record a {
  tokens = create a.next_key v a.tokens;
  sessions =
      create (suc a.next_key) (new_session user tenant a.next_key store req a.now) a.sessions;
  next_key = suc (suc a.next_key);
}

create_both_runs :
    (v : RefreshToken) (user value : ℕ) (tenant store : Option ℕ) (req : Request) (a : Auth)
    (u : User)
    → find v.user a.users ≡ some u
    → find_first (is_value v.token) a.tokens ≡ none
    → find a.next_key (create a.next_key v a.tokens) ≡ some v
    → find_first (is_session_of a.next_key) a.sessions ≡ none
    → create_both v user value tenant store req a ≡ (ok value, created v user tenant store req a)
unfolding create_token create_session
create_both_runs v user value tenant store req a u h h' h'' h''' = ground arith

absent-create :
    (q : RefreshToken → Bool) (n : ℕ) (v : RefreshToken) (t : Table RefreshToken)
    → find_first q t ≡ none
    → q v ≡ false
    → find_first q (create n v t) ≡ none
absent-create q n v [] h h' = ground arith
absent-create q n v (e ∷ t) h h' = ground (arith, absent-create q n v t)

absent-rotated :
    (value k : ℕ) (t : Table RefreshToken)
    → find_first (is_value value) t ≡ none
    → find_first (is_value value) (update k set_rotated t) ≡ none
absent-rotated value k [] h = h
absent-rotated value k (e ∷ t) h = ground (arith, absent-rotated value k t)

create-IsLinked :
    (n k : ℕ) (s : Session) (t : Table Session)
    → s.refresh_token < n
    → IsLinked n t
    → IsLinked n (create k s t)
create-IsLinked n k s [] lt h = (lt, tt)
create-IsLinked n k s (e ∷ t) lt h = (h.0, create-IsLinked n k s t lt h.1)

suc-IsLinked : (n m : ℕ) (t : Table Session) → n ≤ m → IsLinked n t → IsLinked m t
suc-IsLinked n m [] le h = h
suc-IsLinked n m (e ∷ t) le h = (let lt = h.0 in omega (arith, le, lt), suc-IsLinked n m t le h.1)

in_time : (g : Agent) (now n : ℕ) → n ≤ days 7 → ltb (now + days (expiry_days g)) (now + n) ≡ false
in_time g now n le = elim (Bool-cases g.is_mobile) [
  | inl e ↦ ground (arith, le, e)
  | inr e ↦ ground (arith, le, e)
]

-- The state after a pair was issued to a user, and `n` milliseconds.
abbrev pub issued : ℕ → Option ℕ → Option ℕ → Request → ℕ → ℕ → Auth → Auth
issued user tenant store req value n a =
    let agent = agent_or req.agent unknown_agent in
    let row = first_token value user tenant a.next_key agent a.now in
    record (created row user tenant store req (record a { next_key = suc a.next_key })) {
      now = a.now + n;
    }

module _ (sign : Claims → ℕ → ℕ) where
  issue_runs :
      (user : ℕ) (tenant store : Option ℕ) (req : Request) (a : Auth) (u : User)
      → let value = sign (claims_of user u.token_version) a.now in
        find user a.users ≡ some u
        → find_first (is_value value) a.tokens ≡ none
        → IsBelow a.next_key a.tokens
        → IsLinked a.next_key a.sessions
        → issue_token_pair sign user tenant store req a
          ≡ (ok value, record (issued user tenant store req value 0 a) { now = a.now })
  unfolding issue_token_pair
  issue_runs user tenant store req a u known absent below linked =
      let value = sign (claims_of user u.token_version) a.now in
      let agent = agent_or req.agent unknown_agent in
      let row = first_token value user tenant a.next_key agent a.now in
      let a1 = record a { next_key = suc a.next_key } in
      let there =
        find-create_self (suc a.next_key) row a.tokens (below (suc a.next_key) (omega arith)) in
      let free = linked_free a.next_key (suc a.next_key) a.sessions linked (omega arith) in
      rw known (create_both_runs row user value tenant store req a1 u known absent there free)

  module _ (verify : ℕ → ℕ → Option Claims) where
    renewed_runs :
        (user n : ℕ) (tenant store : Option ℕ) (req req' : Request) (a : Auth) (u : User)
        → let value = sign (claims_of user u.token_version) a.now in
          let value' = sign (claims_of user u.token_version) (a.now + n) in
          let later = issued user tenant store req value n a in
          let row =
            first_token value user tenant a.next_key (agent_or req.agent unknown_agent) a.now in
          let k = suc a.next_key in
          find user a.users ≡ some u
          → find_first (is_value value') a.tokens ≡ none
          → value ≢ value'
          → IsBelow a.next_key a.tokens
          → IsLinked a.next_key a.sessions
          → let next =
              next_token value' k row
                (agent_or req'.agent (agent_or req.agent unknown_agent))
                later.now in
            renew sign k row u req' later
            ≡ (ok value', created next user tenant none req' (retired k later))
    renewed_runs user n tenant store req req' a u known absent differ below linked =
        let value = sign (claims_of user u.token_version) a.now in
        let value' = sign (claims_of user u.token_version) (a.now + n) in
        let later = issued user tenant store req value n a in
        let row =
          first_token value user tenant a.next_key (agent_or req.agent unknown_agent) a.now in
        let k = suc a.next_key in
        let next =
          next_token value' k row (agent_or req'.agent (agent_or req.agent unknown_agent))
            later.now in
        let stays : find k later.tokens ≡ some row =
          find-create_self k row a.tokens (below k (omega arith)) in
        let rows = update k set_rotated later.tokens in
        let free_value =
          absent-rotated value' k later.tokens (
            absent-create (is_value value') k row a.tokens absent (==_of_ne value value' differ)) in
        let n' = later.next_key in
        let free_key : find n' rows ≡ none =
          find-update-none n' k set_rotated later.tokens
            (find-create-none n' k row a.tokens (omega arith) (below n' (omega arith))) in
        let linked' : IsLinked n' later.sessions =
          create-IsLinked n' (suc k) (new_session user tenant k store req a.now) a.sessions
            (omega arith) (suc-IsLinked a.next_key n' a.sessions (omega arith) linked) in
        let free_session =
          linked_free n' n' (retired k later).sessions (ended-IsLinked n' k later.sessions linked')
            (omega arith) in
        renew_effect sign k row u req' later stays
        ∙ create_both_runs next user value' tenant none req' (retired k later) u known free_value
            (find-create_self n' next rows free_key) free_session

    -- A user of the table who is not banned; keys and families are below the next key, keys differ,
    -- no family has two active tokens, and sessions are of tokens below the next key. Where the
    -- strings that are signed now and `n` milliseconds later, seven days at most, differ and neither
    -- is on record, and the first verifies to the user's version: a pair is issued, and rotating its
    -- refresh token `n` milliseconds later returns the second string, which is an active token of
    -- version 2, the child of the first.
    pub issue_then_rotate :
        (user n : ℕ) (tenant store : Option ℕ) (req req' : Request) (a : Auth) (u : User)
        (c : Claims)
        → let value = sign (claims_of user u.token_version) a.now in
          let value' = sign (claims_of user u.token_version) (a.now + n) in
          IsSound a.next_key a.tokens
          → IsLinked a.next_key a.sessions
          → find user a.users ≡ some u
          → (u.is_banned ≡ false) × (u.is_globally_banned ≡ false)
          → n ≤ days 7
          → find_first (is_value value) a.tokens ≡ none
          → find_first (is_value value') a.tokens ≡ none
          → value ≢ value'
          → verify value (a.now + n) ≡ some c
          → c.version ≡ some u.token_version
          → let (r, a') = issue_token_pair sign user tenant store req a in
            let (r', a'') = rotate sign verify value req' (record a' { now = a'.now + n }) in
            (r ≡ ok value)
            × (r' ≡ ok value')
            × ((k : ℕ) × (t : RefreshToken) × (find_first (is_value value) a'.tokens ≡ some (k, t))
                × ((j : ℕ) × (t' : RefreshToken) × (find j a''.tokens ≡ some t')
                    × (t'.token ≡ value')
                    × (t'.version ≡ 2)
                    × (t'.parent ≡ some k)
                    × (t'.family ≡ t.family)
                    × (is_active t'.status ≡ true)))
    issue_then_rotate user n tenant store req req' a u c s linked known free le absent absent'
          differ verified version =
        let value = sign (claims_of user u.token_version) a.now in
        let value' = sign (claims_of user u.token_version) (a.now + n) in
        let later = issued user tenant store req value n a in
        let agent = agent_or req.agent unknown_agent in
        let row = first_token value user tenant a.next_key agent a.now in
        let k = suc a.next_key in
        let first = issue_runs user tenant store req a u known absent s.1 linked in
        let found = find_first-create (is_value value) k row a.tokens absent (==_refl value) in
        let fresh' : is_stale c.version u.token_version ≡ false = ground (arith, version) in
        let second : rotate sign verify value req' later ≡ (
          ok value',
          created (next_token value' k row (agent_or req'.agent agent) later.now) user tenant none
              req' (retired k later),
        ) =
          rotate_reaches sign verify value req' later c k row u verified found known
          ∙ usable_renews sign c.version k row u req' later
              (refl, refl, in_time agent a.now n le, fresh', free.0, free.1)
          ∙ renewed_runs user n tenant store req req' a u known absent' differ s.1 linked in
        let next = next_token value' k row (agent_or req'.agent agent) later.now in
        let rows = update k set_rotated later.tokens in
        let free_key : find later.next_key rows ≡ none =
          find-update-none later.next_key k set_rotated later.tokens (
            find-create-none later.next_key k row a.tokens (omega arith)
              (s.1 later.next_key (omega arith))) in
        rw (first, second)
          (
            refl,
            refl,
            (
              k,
              row,
              found,
              (
                later.next_key,
                next,
                find-create_self later.next_key next rows free_key,
                refl,
                refl,
                refl,
                refl,
                refl,
              ),
            ),
          )

-- ===== src/Action.antt =====
-- A service method: it reads and writes a store, and returns or throws. What was written before a
-- throw stays written, unless it was written in a transaction.
use mathlib.Core.Path.{subst}
use coffee_shop_saas_platfor.Prelude.{
  ◌≡◌, sym, refl, ◌⊎◌, inl, inr, Bool, Option, none, some, List, [], ◌∷◌, arith, if◌then◌else◌,
}

-- The errors that the services throw, by the message or code that they carry.
pub data Error : Type 0 where
  -- what the Prisma client and the JavaScript runtime throw
  record_not_found unique_violation validation_error type_error reference_error provider_error :
      Error
  foreign_key_violation syntax_error : Error
  -- payments and refunds
  order_not_found payment_not_found daily_payment_limit_exceeded max_retries_exceeded : Error
  daily_amount_limit_exceeded hourly_payment_limit_exceeded : Error
  missing_provider_ref invalid_payment_transition invalid_refund_transition : Error
  refund_not_found exceeds_remaining_balance : Error
  invalid_partial_amount : Error
  -- inventory
  inventory_not_found insufficient_stock : Error
  -- orders
  invalid_transition cannot_cancel_paid_order order_not_cancellable order_not_paid : Error
  cannot_cancel_in_status cannot_modify_paid_order order_item_not_found : Error
  cannot_remove_last_item quantity_must_be_positive product_not_found : Error
  option_not_found minimum_not_met : Error
  -- cash drawers
  drawer_already_open no_permission drawer_not_found drawer_not_open : Error
  -- idempotency keys, menus and snapshots
  snapshot_not_found : Error
  -- refresh tokens and sessions
  invalid_refresh_token token_not_found token_reuse_detected token_expired : Error
  token_version_mismatch account_banned : Error
  -- time entries
  staff_no_store_access already_clocked_in not_clocked_in already_on_break : Error
  time_entry_not_found break_not_found break_already_ended : Error
  -- shifts
  shift_conflict_exists shift_not_found not_your_shift shift_not_swappable : Error

pub data Result {ℓ} (A : Type ℓ) : Type ℓ where
  ok : A → Result A
  err : Error → Result A

abbrev pub Action {ℓ κ} : Type ℓ → Type κ → Type (ℓ ⊔ κ)
Action S A = S → Result A × S

module _ {ℓ κ} {S : Type ℓ} {A : Type κ} where
  abbrev pub pure : A → Action S A
  pure a s = (ok a, s)

  abbrev pub throw : Error → Action S A
  throw e s = (err e, s)

  -- `if (x === null) throw new Error(e)`
  abbrev pub or_throw : Option A → Error → Action S A
  or_throw none e = throw e
  or_throw (some a) _ = pure a

  abbrev pub gets : (S → A) → Action S A
  gets f s = (ok (f s), s)

  -- `prisma.$transaction`: a throw takes back what was written inside.
  abbrev pub transaction : Action S A → Action S A
  transaction m s = let (r, s') = m s in elim r [ ok a ↦ (ok a, s') | err e ↦ (err e, s) ]

module _ {ℓ κ} {S : Type ℓ} {A : Type κ} where
  -- `try { m } catch (error) { handler }`
  abbrev pub try_catch : Action S A → (Error → Action S A) → Action S A
  try_catch m handler s = let (r, s') = m s in elim r [ ok a ↦ (ok a, s') | err e ↦ handler e s' ]

infixl 5 ◌>>=◌ ◌>>◌
abbrev pub ◌>>=◌ {ℓ κ μ} :
    {S : Type ℓ} {A : Type κ} {B : Type μ} → Action S A → (A → Action S B) → Action S B
◌>>=◌ m f s = let (r, s') = m s in elim r [ ok a ↦ f a s' | err e ↦ (err e, s') ]

abbrev pub ◌>>◌ {ℓ κ μ} :
    {S : Type ℓ} {A : Type κ} {B : Type μ} → Action S A → Action S B → Action S B
m >> k = m >>= λ _. k

module _ {ℓ} {S : Type ℓ} where
  abbrev pub modify : (S → S) → Action S (Unit {0})
  modify f s = (ok tt, f s)

  -- `if (c) throw new Error(e)`
  abbrev pub throw_if : Bool → Error → Action S (Unit {0})
  throw_if c e s = (if c then err e else ok tt, s)

  -- `if (c) { ... }`
  abbrev pub when : Bool → Action S (Unit {0}) → Action S (Unit {0})
  when c m = if c then m else pure tt

pub Result-cases {ℓ} :
    {A : Type ℓ} (r : Result A) → ((a : A) × (r ≡ ok a)) ⊎ ((e : Error) × (r ≡ err e))
Result-cases (ok a) = inl (a, refl)
Result-cases (err e) = inr (e, refl)

module _ {ℓ κ} {S : Type ℓ} {A : Type κ} where
  -- `for (const item of items) { ... }`
  abbrev pub for_each : List A → (A → Action S (Unit {0})) → Action S (Unit {0})
  for_each [] f = pure tt
  for_each (a ∷ as') f = f a >> for_each as' f

  -- What a transaction has done, by how it ended.
  pub transaction-ok :
      (m : Action S A) (s : S) (a : A)
      → (transaction m s).0 ≡ ok a
      → ((m s).0 ≡ ok a) × ((transaction m s).1 ≡ (m s).1)
  transaction-ok m s a h = ground arith

  pub transaction-err :
      (m : Action S A) (s : S) (e : Error) → (transaction m s).0 ≡ err e → (transaction m s).1 ≡ s
  transaction-err m s e h = ground arith

-- The two halves of a sequence that ended well.
pub >>=-ok {ℓ κ μ} :
    {S : Type ℓ} {A : Type κ} {B : Type μ} (m : Action S A) (f : A → Action S B) (s : S) (b : B)
    → ((m >>= f) s).0 ≡ ok b
    → (a : A) × ((m s).0 ≡ ok a) × ((f a (m s).1).0 ≡ ok b) × (((m >>= f) s).1 ≡ (f a (m s).1).1)
>>=-ok m f s b h = elim (Result-cases (m s).0) [
  | inl (a, e) ↦ (a, e, ground arith, ground arith)
  | inr (x, e) ↦ absurd (ground arith)
]

-- What holds of each error and of all that the second half ends with holds of the whole.
pub >>=-ends {ℓ κ μ ν} :
    {S : Type ℓ} {A : Type κ} {B : Type μ} (Q : Result B → Type ν) (m : Action S A)
    (f : A → Action S B) (s : S)
    → ((e : Error) → Q (err e))
    → ((a : A) (s' : S) → Q (f a s').0)
    → Q ((m >>= f) s).0
>>=-ends {S} {A} {B} Q m f s wrong right =
    let go : Result A → Result B × S =
      λ r. elim r [ ok a ↦ f a (m s).1 | err e ↦ (err e, (m s).1) ] in
    elim (Result-cases (m s).0) [
      | inl (a, e) ↦ subst (λ r. Q (go r).0) (sym e) (right a (m s).1)
      | inr (x, e) ↦ subst (λ r. Q (go r).0) (sym e) (wrong x)
    ]

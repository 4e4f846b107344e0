-- ===== src/PaymentLimit/Windows.antt =====
-- How many payments a tenant user can start in an hour and in a day.
use coffee_shop_saas_platfor.Prelude.{
  ◌∙◌, ℕ, suc, ◌+◌, ◌≤◌, ◌≡◌, Bool, true, false, [], ◌∷◌, ◌==◌, ◌&&◌, leb, length, arith,
  Bool-cases, inl, inr, ◌⊎◌, ap, sym,
}
use coffee_shop_saas_platfor.Action.{
  ok, err, Error, daily_payment_limit_exceeded, daily_amount_limit_exceeded,
  hourly_payment_limit_exceeded,
}
use coffee_shop_saas_platfor.Int.{ℤ, pos, ◌+ℤ◌, ltb_ℤ}
use coffee_shop_saas_platfor.Table.{Table, find_many, create}
use coffee_shop_saas_platfor.PaymentLimit.{
  PayerOrder, PayerPayment, Payers, hour_ms, day_ms, is_payer, is_recent, count_recent, check_limit,
  total_spent,
}

module _ {ℓ} {A : Type ℓ} where
  abbrev count : (A → Bool) → Table A → ℕ
  count q t = length (find_many q t)

  count_counted :
      (q : A → Bool) (k : ℕ) (v : A) (t : Table A)
      → q v ≡ true
      → count q (create k v t) ≡ suc (count q t)
  count_counted q k v [] h = ground arith
  count_counted q k v (e ∷ t) h = ground (arith, count_counted q k v t h)

  count_uncounted :
      (q : A → Bool) (k : ℕ) (v : A) (t : Table A)
      → q v ≡ false
      → count q (create k v t) ≡ count q t
  count_uncounted q k v [] h = ground arith
  count_uncounted q k v (e ∷ t) h = ground (arith, count_uncounted q k v t h)

  count_mono :
      (q r : A → Bool) (t : Table A) → ((v : A) → q v ≡ true → r v ≡ true) → count q t ≤ count r t
  count_mono q r [] h = ground arith
  count_mono q r (e ∷ t) h = elim (Bool-cases (q e.1)) [
    | inl yes' ↦ rw (yes', h e.1 yes') (ground (arith, count_mono q r t h))
    | inr no' ↦ rw no' (ground (arith, count_mono q r t h))
  ]

-- The payments of a tenant user's orders that were created in a window of time, both ends included.
abbrev is_in_window : Table PayerOrder → ℕ → ℕ → ℕ → PayerPayment → Bool
is_in_window orders user from span p =
    is_payer orders user p && (leb from p.created_at && leb p.created_at (from + span))

abbrev in_window : ℕ → ℕ → ℕ → Payers → ℕ
in_window user from span db = count (is_in_window db.orders user from span) db.payments

-- No window of a span has more payments of a tenant user than the limit.
abbrev IsPaced : ℕ → ℕ → Payers → Type 0
IsPaced limit span db = (user from : ℕ) → in_window user from span db ≤ limit

window_recent :
    (db : Payers) (user from span : ℕ) (v : PayerPayment)
    → from ≤ db.now
    → db.now ≤ from + span
    → is_in_window db.orders user from span v ≡ true
    → is_recent db user span v ≡ true
window_recent db user from span v h h' w = ground arith

-- A payment that is created now, below the limit of the span that ends now.
module _ (limit span : ℕ) (db : Payers) (user : ℕ) (v : PayerPayment)
    (below : suc (count_recent user span db) ≤ limit) (now : v.created_at ≡ db.now)
    (own : (other : ℕ) → is_payer db.orders other v ≡ (other == user)) where
  create-IsPaced :
      (k : ℕ)
      → IsPaced limit span db
      → (other from : ℕ)
      → count (is_in_window db.orders other from span) (create k v db.payments) ≤ limit
  create-IsPaced k paced other from =
      let q = is_in_window db.orders other from span in
      elim (Bool-cases (q v)) [
        | inr out ↦ rw (count_uncounted q k v db.payments out) (paced other from)
        | inl in' ↦
            let mine : other ≡ user = ground (arith, own other) in
            let low : from ≤ db.now = ground arith in
            let high : db.now ≤ from + span = ground arith in
            let recent =
              count_mono q (is_recent db user span) db.payments
                (λ w h. window_recent db user from span w low high (rw mine at h)) in
            rw (count_counted q k v db.payments in') (omega (arith, recent, below))
      ]

-- The check changes nothing, and passes below both limits only.
check_cases :
    (user : ℕ) (amount : ℤ) (db : Payers)
    → ((e : Error) × (check_limit user amount db ≡ (err e, db)))
      ⊎ ((check_limit user amount db ≡ (ok true, db))
          × (suc (count_recent user hour_ms db) ≤ 10)
          × (suc (count_recent user day_ms db) ≤ 50))
unfolding check_limit
check_cases user amount db = elim (Bool-cases (leb 50 (count_recent user day_ms db))) [
  | inl daily ↦ inl (daily_payment_limit_exceeded, ground arith)
  | inr daily ↦ elim (Bool-cases (ltb_ℤ (pos 1000000) (total_spent user db +ℤ amount))) [
    | inl over ↦ inl (daily_amount_limit_exceeded, ground arith)
    | inr over ↦ elim (Bool-cases (leb 10 (count_recent user hour_ms db))) [
      | inl hourly ↦ inl (hourly_payment_limit_exceeded, ground arith)
      | inr hourly ↦ inr (ground arith, ground arith, ground arith)
    ]
  ]
]

-- At most ten payments of a tenant user in an hour, and at most fifty in a day.
abbrev pub IsLimited : Payers → Type 0
IsLimited db = IsPaced 10 hour_ms db × IsPaced 50 day_ms db

-- A tenant user passes the check for an amount and, at the same time, one payment is created for an
-- order of this tenant user, whatever else stands in its row: if no hour had more than ten payments of
-- a tenant user and no day more than fifty, that is so with the new payment too. Hours and days are
-- any windows of that length, both ends included. Where the payment is counted to somebody else than
-- the tenant user who was checked, or another check passes in between, nothing is said.
pub check_limit-IsLimited :
    (user key : ℕ) (amount : ℤ) (v : PayerPayment) (db : Payers)
    → IsLimited db
    → check_limit user amount db ≡ (ok true, db)
    → v.created_at ≡ db.now
    → ((other : ℕ) → is_payer db.orders other v ≡ (other == user))
    → IsLimited (record db { payments = create key v db.payments })
check_limit-IsLimited user key amount v db (hourly, daily) passed now own =
    elim (check_cases user amount db) [
      | inl (e, refused) ↦ absurd (ground (arith, ap (λ r. r.0) (sym passed ∙ refused)))
      | inr (same, below_hour, below_day) ↦ (
        λ u f. create-IsPaced 10 hour_ms db user v below_hour now own key hourly u f,
        λ u f. create-IsPaced 50 day_ms db user v below_day now own key daily u f,
      )
    ]

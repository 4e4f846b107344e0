-- ===== src/PaymentService/Follows.antt =====
-- How the operations of `PaymentService` move payments along the transition table.
use coffee_shop_saas_platfor.Prelude.{
  ℕ, ◌≤◌, ◌<◌, ◌≡◌, refl, ◌∙◌, ◌⊎◌, inl, inr, true, none, some, arith, List, [], ◌∷◌, ◌==◌,
  eq_of_==, Bool-cases, Option-cases,
}
use mathlib.Core.Option.{some-injective}
use coffee_shop_saas_platfor.Table.{Table, find, update, find-update_self, find-update_ne}
use coffee_shop_saas_platfor.Schema.{
  Payment, PaymentStatus, Provider, FailureCode, provider_declined, max_retries_exceeded,
  NormalizedProviderError, enum_code, Db,
}
use coffee_shop_saas_platfor.Domain.Reach.{Reach, here, next, Reach-trans}
use coffee_shop_saas_platfor.Domain.PaymentStateMachine.{can_transition}
use coffee_shop_saas_platfor.PaymentService.{
  LookupStatus, confirm_from_provider_event, mark_failed_from_provider, cancel_from_provider,
  confirm_by_polling, retry_failed_payment, retry_write, mark_failed, mark_cancelled, mark_retrying,
  Call, confirm, fail, cancel, poll, retry, apply, run,
}
use coffee_shop_saas_platfor.Action.{Result}

-- Every payment is still there, for the same order and amount, its status has moved along a path of
-- the transition table, and it has not been retried more often than it may.
abbrev pub Follows : Table Payment → Table Payment → Type 0
Follows t u =
    (j : ℕ) (p : Payment)
    → find j t ≡ some p
    → (q : Payment) × (find j u ≡ some q)
      × Reach can_transition p.status q.status
      × (q.amount ≡ p.amount)
      × (q.order ≡ p.order)
      × (p.retries ≤ p.max_retries → q.retries ≤ q.max_retries)

Follows-refl : (t : Table Payment) → Follows t t
Follows-refl t j p h = (p, h, here, refl, refl, λ b. b)

Follows-trans : (t u v : Table Payment) → Follows t u → Follows u v → Follows t v
Follows-trans t u v f g j p h =
    let (q, hq, r, a, o, b) = f j p h in
    let (q', hq', r', a', o', b') = g j q hq in
    (q', hq', Reach-trans can_transition r r', a' ∙ a, o' ∙ o, λ h. b' (b h))

-- One update along an edge.
update-Follows :
    (k : ℕ) (f : Payment → Payment) (t : Table Payment) (p : Payment)
    → find k t ≡ some p
    → can_transition p.status (f p).status ≡ true
    → (f p).amount ≡ p.amount
    → (f p).order ≡ p.order
    → (p.retries ≤ p.max_retries → (f p).retries ≤ (f p).max_retries)
    → Follows t (update k f t)
update-Follows k f t p h e a o b j q hq = elim (Bool-cases (j == k)) [
  | inl same ↦
      let here : j ≡ k = eq_of_== j k same in
      let row : p ≡ q = some-injective _ _ (cc) in
      rw (← row, here) (f p, find-update_self k f t p h, next Reach.here e, a, o, b)
  | inr other ↦ (q, find-update_ne j k f t (ground arith) ∙ hq, here, refl, refl, λ b. b)
]

-- A database after an operation that made at most one update, along an edge to `to`.
abbrev Stepped : ℕ → PaymentStatus → (Payment → Payment) → Db → Db → Type 0
Stepped k to f db db' =
    (db'.payments ≡ db.payments)
    ⊎ (p : Payment) × (find k db.payments ≡ some p)
      × (can_transition p.status to ≡ true)
      × (db'.payments ≡ update k f db.payments)

Stepped-Follows :
    (k : ℕ) (to : PaymentStatus) (f : Payment → Payment) (db db' : Db)
    → ((p : Payment)
        → ((f p).status ≡ to)
          × ((f p).amount ≡ p.amount)
          × ((f p).order ≡ p.order)
          × (p.retries ≤ p.max_retries → (f p).retries ≤ (f p).max_retries))
    → Stepped k to f db db'
    → Follows db.payments db'.payments
Stepped-Follows k to f db db' keeps (inl same) = rw same (Follows-refl db.payments)
Stepped-Follows k to f db db' keeps (inr (p, h, e, written)) =
    rw written
      (update-Follows k f db.payments p h (rw (keeps p).0 e) (keeps p).1 (keeps p).2 (keeps p).3)

Stepped-of :
    (k : ℕ) (to : PaymentStatus) (f : Payment → Payment) (db db' : Db)
    → (find k db.payments ≡ none → db'.payments ≡ db.payments)
    → ((p : Payment)
        → find k db.payments ≡ some p
        → (db'.payments ≡ db.payments)
          ⊎ (can_transition p.status to ≡ true) × (db'.payments ≡ update k f db.payments))
    → Stepped k to f db db'
Stepped-of k to f db db' missing found = elim (Option-cases (find k db.payments)) [
  | inl e ↦ inl (missing e)
  | inr (p, e) ↦ elim (found p e) [ inl same ↦ inl same | inr (c, w) ↦ inr (p, e, c, w) ]
]

-- The client refuses every confirmation, and the transaction takes back what was written.
pub confirm_unchanged : (k : ℕ) (db : Db) → (confirm_from_provider_event k db).1 ≡ db
unfolding confirm_from_provider_event
confirm_unchanged k db = ground arith

-- So it does a failure with a code that is none of the enum.
mark_failed_unchanged :
    (k : ℕ) (code : FailureCode) (db : Db)
    → enum_code code ≡ none
    → (mark_failed_from_provider k code db).1 ≡ db
unfolding mark_failed_from_provider
mark_failed_unchanged k code db h = ground arith

mark_failed-Stepped :
    (k : ℕ) (code : FailureCode) (c : NormalizedProviderError) (db : Db)
    → enum_code code ≡ some c
    → Stepped k PaymentStatus.failed
        (mark_failed db.now c)
        db
        (mark_failed_from_provider k code db).1
unfolding mark_failed_from_provider
mark_failed-Stepped k code c db n =
    Stepped-of k PaymentStatus.failed (mark_failed db.now c) db
      (mark_failed_from_provider k code db).1 (λ h. ground arith) (λ p h. ground arith)

mark_failed_Follows :
    (k : ℕ) (code : FailureCode) (db : Db)
    → Follows db.payments (mark_failed_from_provider k code db).1.payments
mark_failed_Follows k code db = elim (Option-cases (enum_code code)) [
  | inl n ↦ rw (mark_failed_unchanged k code db n) (Follows-refl db.payments)
  | inr (c, n) ↦
      Stepped-Follows k PaymentStatus.failed (mark_failed db.now c) db
        (mark_failed_from_provider k code db).1 (λ p. (refl, refl, refl, λ b. b))
        (mark_failed-Stepped k code c db n)
]

cancel-Stepped :
    (k : ℕ) (db : Db)
    → Stepped k PaymentStatus.cancelled mark_cancelled db (cancel_from_provider k db).1
unfolding cancel_from_provider
cancel-Stepped k db =
    Stepped-of k PaymentStatus.cancelled mark_cancelled db (cancel_from_provider k db).1
      (λ h. ground arith) (λ p h. ground arith)

cancel_Follows : (k : ℕ) (db : Db) → Follows db.payments (cancel_from_provider k db).1.payments
cancel_Follows k db =
    Stepped-Follows k PaymentStatus.cancelled mark_cancelled db (cancel_from_provider k db).1
      (λ p. (refl, refl, refl, λ b. b)) (cancel-Stepped k db)

module _ (lookup : Provider → ℕ → Result LookupStatus) where
  poll_cases :
      (k : ℕ) (db : Db)
      → ((confirm_by_polling lookup k db).1 ≡ db)
        ⊎ ((confirm_by_polling lookup k db).1 ≡ (confirm_from_provider_event k db).1)
        ⊎ ((confirm_by_polling lookup k db).1
            ≡ (mark_failed_from_provider k provider_declined db).1)
  unfolding confirm_by_polling
  poll_cases k db = ground arith

  pub poll_unchanged : (k : ℕ) (db : Db) → (confirm_by_polling lookup k db).1 ≡ db
  poll_unchanged k db = elim (poll_cases k db) [
    | inl e ↦ e
    | inr (inl e) ↦ e ∙ confirm_unchanged k db
    | inr (inr e) ↦ e ∙ mark_failed_unchanged k provider_declined db refl
  ]

  retry_started_Follows :
      (k : ℕ) (db : Db) (p : Payment)
      → find k db.payments ≡ some p
      → can_transition p.status PaymentStatus.retrying ≡ true
      → p.retries < p.max_retries
      → Follows db.payments (retry_write k db).1.payments
  unfolding retry_write
  retry_started_Follows k db p h c l =
      rw h (update-Follows k (mark_retrying db.now) db.payments p h c refl refl (λ b. omega arith))

  retry_missing :
      (k : ℕ) (db : Db) → find k db.payments ≡ none → (retry_failed_payment lookup k db).1 ≡ db
  unfolding retry_failed_payment
  retry_missing k db h = ground arith

  retry_found :
      (k : ℕ) (db : Db) (p : Payment)
      → find k db.payments ≡ some p
      → let db1 = (retry_write k db).1 in
        let db2 = (confirm_by_polling lookup k db1).1 in
        let after = (retry_failed_payment lookup k db).1 in
        (after ≡ db)
        ⊎ (can_transition p.status PaymentStatus.retrying ≡ true)
          × (p.retries < p.max_retries)
          × ((after ≡ db2) ⊎ (after ≡ (mark_failed_from_provider k max_retries_exceeded db2).1))
  unfolding retry_failed_payment
  retry_found k db p h = ground arith

  -- A retry writes at most that the payment is retried.
  pub retry_cases :
      (k : ℕ) (db : Db)
      → ((retry_failed_payment lookup k db).1 ≡ db)
        ⊎ (p : Payment) × (find k db.payments ≡ some p)
          × (can_transition p.status PaymentStatus.retrying ≡ true)
          × (p.retries < p.max_retries)
          × ((retry_failed_payment lookup k db).1 ≡ (retry_write k db).1)
  retry_cases k db = elim (Option-cases (find k db.payments)) [
    | inl e ↦ inl (retry_missing k db e)
    | inr (p, e) ↦ elim (retry_found k db p e) [
      | inl same ↦ inl same
      | inr (c, l, inl w) ↦ inr (p, e, c, l, w ∙ poll_unchanged k (retry_write k db).1)
      | inr (c, l, inr w) ↦
          let db2 = (confirm_by_polling lookup k (retry_write k db).1).1 in
          inr (
            p,
            e,
            c,
            l,
            w
                ∙ mark_failed_unchanged k max_retries_exceeded db2 refl
                ∙ poll_unchanged k (retry_write k db).1,
          )
    ]
  ]

  retry_Follows :
      (k : ℕ) (db : Db) → Follows db.payments (retry_failed_payment lookup k db).1.payments
  retry_Follows k db = elim (retry_cases k db) [
    | inl e ↦ rw e (Follows-refl db.payments)
    | inr (p, h, c, l, e) ↦ rw e (retry_started_Follows k db p h c l)
  ]

apply-Follows : (c : Call) (db : Db) → Follows db.payments (apply c db).payments
unfolding apply
apply-Follows (confirm k) db = rw (confirm_unchanged k db) (Follows-refl db.payments)
apply-Follows (fail k code) db = mark_failed_Follows k code db
apply-Follows (cancel k) db = cancel_Follows k db
apply-Follows (poll lookup k) db = rw (poll_unchanged lookup k db) (Follows-refl db.payments)
apply-Follows (retry lookup k) db = retry_Follows lookup k db

-- Whatever the calls that arrive, in whatever order, and whatever the provider answers to each
-- lookup: every payment is still there, for the same order and amount, its status has moved along
-- a path of the transition table, and a payment that was within its limit of retries still is.
pub run-Follows : (cs : List Call) (db : Db) → Follows db.payments (run cs db).payments
unfolding run
run-Follows [] db = Follows-refl db.payments
run-Follows (c ∷ cs) db =
    Follows-trans db.payments (apply c db).payments (run cs (apply c db)).payments
      (apply-Follows c db) (run-Follows cs (apply c db))

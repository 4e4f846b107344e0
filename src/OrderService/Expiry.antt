-- ===== src/OrderService/Expiry.antt =====
-- What the job that cancels expired orders leaves alone.
use coffee_shop_saas_platfor.Prelude.{
  ℕ, suc, zero, ◌+◌, ◌≤◌, ◌≡◌, ◌≢◌, refl, ap, sym, ◌∙◌, ◌⊎◌, inl, inr, true, false, some, [], ◌∷◌,
  All, arith, Option-cases,
}
use mathlib.Core.Option.{some-injective}
use coffee_shop_saas_platfor.Table.{Table, find, find_many, update, find-update_ne}
use coffee_shop_saas_platfor.Table.Keys.{IsKeyed, Listed, Listed-find_many, All-find_many}
use coffee_shop_saas_platfor.Action.{Result-cases}
use coffee_shop_saas_platfor.Schema.{Order, OrderStatus, is_order, PaymentStatus, is_payment, Db}
use coffee_shop_saas_platfor.Inventory.Orders.{release_for_order}
use coffee_shop_saas_platfor.Inventory.Orders.Spares.{release-find}
use coffee_shop_saas_platfor.OrderService.Status.{set_order_status}
use coffee_shop_saas_platfor.OrderService.Cancellation.{
  order_of_tenant, cancel_before_payment, cancel_each, cancel_expired_orders, take_rows, is_expired,
}

cancel_before-find :
    (tenant k j : ℕ) (db : Db)
    → j ≢ k
    → find j (cancel_before_payment tenant k db).1.orders ≡ find j db.orders
unfolding cancel_before_payment
cancel_before-find tenant k j db ne =
    let cancelled = update k (set_order_status OrderStatus.cancelled) db.orders in
    let marked = record db { orders = cancelled } in
    let same =
      release-find k j marked ne
      ∙ find-update_ne j k (set_order_status OrderStatus.cancelled) db.orders ne in
    elim (Option-cases (order_of_tenant tenant k db)) [
      | inl e ↦ ground arith
      | inr (o, e) ↦ elim (Option-cases (find k db.orders)) [
        | inl h ↦ ground arith
        | inr (p, h) ↦ elim (Result-cases (release_for_order k marked).0) [
          | inl (u, r) ↦ ground (arith, same)
          | inr (x, r) ↦ ground (arith, same)
        ]
      ]
    ]

cancel_each-find :
    (j : ℕ) (t : Table Order) (db : Db)
    → All (λ e. j ≢ e.0) t
    → find j (cancel_each t db).1.orders ≡ find j db.orders
unfolding cancel_each
cancel_each-find j [] db h = refl
cancel_each-find j ((k, o) ∷ rest) db h =
    let first = cancel_before-find o.tenant k j db h.0 in
    let others = cancel_each-find j rest (cancel_before_payment o.tenant k db).1 h.1 in
    ground (arith, others ∙ first)

All-take_rows : (P : ℕ × Order → Type 0) (n : ℕ) (t : Table Order) → All P t → All P (take_rows n t)
All-take_rows P zero t h = tt
All-take_rows P (suc n) [] h = tt
All-take_rows P (suc n) (e ∷ t) h = (h.0, All-take_rows P n t h.1)

-- An order that does not expire is none of the rows that are expired.
other_keys :
    (now j : ℕ) (o : Order) (t rows : Table Order)
    → find j t ≡ some o
    → is_expired now o ≡ false
    → Listed t rows
    → All (λ e. is_expired now e.1 ≡ true) rows
    → All (λ e. j ≢ e.0) rows
other_keys now j o t [] h fresh l q = tt
other_keys now j o t (e ∷ rows) h fresh l q = (
  λ same.
      let row : o ≡ e.1 = some-injective _ _ (sym h ∙ ap (λ k. find k t) same ∙ l.0) in
      absurd (ground (arith, sym (ap (is_expired now) row) ∙ fresh, q.0)),
  other_keys now j o t rows h fresh l.1 q.1,
)

-- The job that cancels expired orders, whichever of its cancellations throw, leaves an order exactly
-- as it was that is not PENDING, or whose payment status is not PENDING, or that is not older than 15
-- minutes, where the keys of orders differ.
pub cancel_expired_spares :
    (j : ℕ) (db : Db) (o : Order)
    → IsKeyed db.orders
    → find j db.orders ≡ some o
    → (is_order o.status OrderStatus.pending ≡ false)
      ⊎ (is_payment o.payment_status PaymentStatus.pending ≡ false)
      ⊎ (db.now ≤ o.created_at + 900000)
    → find j (cancel_expired_orders db).1.orders ≡ some o
unfolding cancel_expired_orders
cancel_expired_spares j db o keyed h why =
    let fresh : is_expired db.now o ≡ false = elim why [
      | inl s ↦ ground arith
      | inr (inl p) ↦ ground arith
      | inr (inr young) ↦ ground arith
    ] in
    let rows = find_many (is_expired db.now) db.orders in
    let others =
      other_keys db.now j o db.orders rows h fresh
        (Listed-find_many (is_expired db.now) db.orders keyed)
        (All-find_many (is_expired db.now) db.orders) in
    cancel_each-find j (take_rows 50 rows) db (All-take_rows (λ e. j ≢ e.0) 50 rows others) ∙ h

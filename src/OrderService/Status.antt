-- ===== src/OrderService/Status.antt =====
-- backend/src/services/order/orderStatus.service.ts. The times that a transition sets and the
-- duration for reports are left out.
use coffee_shop_saas_platfor.Prelude.{
  ℕ, ◌≡◌, refl, ◌⊎◌, inl, inr, Bool, true, false, not, none, some, List, [], ◌∷◌, ◌++◌, arith, ◌||◌,
  Option-cases, Bool-cases, ◌==◌, eq_of_==, ◌<◌, ◌∙◌, sym, ap,
}
use coffee_shop_saas_platfor.Table.{find, update, find-update_self, find-update_ne}
use coffee_shop_saas_platfor.Action.{
  Action, ok, err, Result, pure, throw, or_throw, gets, modify, throw_if, transaction, ◌>>=◌, ◌>>◌,
  order_not_found, invalid_transition, type_error, reference_error,
}
use coffee_shop_saas_platfor.Schema.{Order, OrderStatus, is_order, order_status_changed, Db}
use coffee_shop_saas_platfor.Store.{emit, update_order}
use coffee_shop_saas_platfor.Domain.Reach.{Reach, here, next, Reach-trans}
use mathlib.Core.Option.{some-injective}

-- `ORDER_TRANSITIONS`
unfoldable pub order_transitions : OrderStatus → List OrderStatus
order_transitions OrderStatus.pending = OrderStatus.paid ∷ OrderStatus.cancelled ∷ []
order_transitions OrderStatus.paid = OrderStatus.preparing ∷ []
order_transitions OrderStatus.preparing = OrderStatus.ready ∷ []
order_transitions OrderStatus.ready = OrderStatus.completed ∷ []
order_transitions OrderStatus.payment_failed = []
order_transitions OrderStatus.cancelled = []
order_transitions OrderStatus.completed = []

abbrev includes : OrderStatus → List OrderStatus → Bool
includes s [] = false
includes s (t ∷ ts) = is_order s t || includes s ts

unfoldable pub order_moves : OrderStatus → OrderStatus → Bool
unfolding order_transitions
order_moves from to = includes to (order_transitions from)

abbrev pub set_order_status : OrderStatus → Order → Order
set_order_status s o = record o { status = s }

abbrev pub log_status : ℕ → OrderStatus → OrderStatus → Action Db (Unit {0})
log_status k from to =
    modify
      (λ db. record db { history = db.history ++ record { order = k; from = from; to = to } ∷ [] })

-- `handleStatusChangeEffects`: `InventoryService` has no method `releaseStock`, and `OrderEventBus` is
-- not imported.
abbrev status_effects : OrderStatus → Action Db (Unit {0})
status_effects OrderStatus.cancelled = throw type_error
status_effects OrderStatus.payment_failed = throw type_error
status_effects OrderStatus.preparing = throw reference_error
status_effects OrderStatus.ready = throw reference_error
status_effects _ = pure tt

transition_write : ℕ → Order → OrderStatus → Action Db Order
transition_write k order to = do
  updated ← update_order k (set_order_status to)
  log_status k order.status to
  pure updated

unfoldable pub transition : ℕ → OrderStatus → Action Db Order
unfolding order_moves transition_write
transition k to = do
  order ← or_throw (← gets (λ db. find k db.orders)) order_not_found
  throw_if (not (order_moves order.status to)) invalid_transition
  updated ← transaction (transition_write k order to)
  emit (order_status_changed k order.status to)
  status_effects to
  pure updated

-- The calls of `transition`, one after the other; a throw ends the call.
pub transitions_run : List (ℕ × OrderStatus) → Db → Db
transitions_run [] db = db
transitions_run ((k, to) ∷ ms) db = transitions_run ms (transition k to db).1

-- What a transition that was written answers.
abbrev answer : OrderStatus → Order → Result Order
answer OrderStatus.paid o = ok (set_order_status OrderStatus.paid o)
answer OrderStatus.completed o = ok (set_order_status OrderStatus.completed o)
answer OrderStatus.preparing o = err reference_error
answer OrderStatus.ready o = err reference_error
answer _ o = err type_error

-- A transition that the table allows is written, with its history row and its event, but the call
-- answers the order only for PAID and COMPLETED: to PREPARING, READY and CANCELLED it throws after
-- the write.
pub transition_effect :
    (k : ℕ) (to : OrderStatus) (db : Db) (o : Order)
    → find k db.orders ≡ some o
    → order_moves o.status to ≡ true
    → let (x, db') = transition k to db in
      (find k db'.orders ≡ some (set_order_status to o))
      × (db'.history ≡ db.history ++ record { order = k; from = o.status; to = to } ∷ [])
      × (db'.events ≡ db.events ++ order_status_changed k o.status to ∷ [])
      × (x ≡ answer to o)
unfolding transition
transition_effect k to db o h c = (
  ground (arith, find-update_self k (set_order_status to) db.orders o h),
  ground arith,
  ground arith,
  ground arith,
)

-- Every order is still there, and its status has moved along a path of the table.
abbrev pub OrdersFollow : Db → Db → Type 0
OrdersFollow db db' =
    (j : ℕ) (o : Order)
    → find j db.orders ≡ some o
    → (o' : Order) × (find j db'.orders ≡ some o') × Reach order_moves o.status o'.status

OrdersFollow-trans : (a b c : Db) → OrdersFollow a b → OrdersFollow b c → OrdersFollow a c
OrdersFollow-trans a b c f g j o h =
    let (x, hx, r) = f j o h in let (y, hy, r') = g j x hx in (y, hy, Reach-trans order_moves r r')

transition_cases :
    (k : ℕ) (to : OrderStatus) (db : Db) (o : Order)
    → find k db.orders ≡ some o
    → let db' = (transition k to db).1 in
      (db' ≡ db)
      ⊎ (order_moves o.status to ≡ true) × (db'.orders ≡ update k (set_order_status to) db.orders)
unfolding transition
transition_cases k to db o h = ground arith

transition_missing :
    (k : ℕ) (to : OrderStatus) (db : Db) → find k db.orders ≡ none → (transition k to db).1 ≡ db
unfolding transition
transition_missing k to db h = ground arith

OrdersFollow-refl : (db db' : Db) → db' ≡ db → OrdersFollow db db'
OrdersFollow-refl db db' same j o h = (o, rw same h, here)

OrdersFollow-update :
    (k : ℕ) (to : OrderStatus) (db db' : Db) (p : Order)
    → find k db.orders ≡ some p
    → order_moves p.status to ≡ true
    → db'.orders ≡ update k (set_order_status to) db.orders
    → OrdersFollow db db'
OrdersFollow-update k to db db' p h e w j o ho = elim (Bool-cases (j == k)) [
  | inl same ↦
      let at : j ≡ k = eq_of_== j k same in
      let row : p ≡ o = some-injective _ _ (cc) in
      rw (w, ← row, at)
        (set_order_status to p, find-update_self k (set_order_status to) db.orders p h, next here e)
  | inr other ↦
      (o, rw w (find-update_ne j k (set_order_status to) db.orders (ground arith) ∙ ho), here)
]

transition-OrdersFollow :
    (k : ℕ) (to : OrderStatus) (db : Db) → OrdersFollow db (transition k to db).1
transition-OrdersFollow k to db = elim (Option-cases (find k db.orders)) [
  | inl e ↦ OrdersFollow-refl db (transition k to db).1 (transition_missing k to db e)
  | inr (p, e) ↦ elim (transition_cases k to db p e) [
    | inl same ↦ OrdersFollow-refl db (transition k to db).1 same
    | inr (c, w) ↦ OrdersFollow-update k to db (transition k to db).1 p e c w
  ]
]

-- Calls of `transition` alone, in whatever order and whether they end well or throw, leave every order
-- there, and move its status along a path of the table. Other services that write the status are not
-- among the calls.
pub transitions_run-OrdersFollow :
    (ms : List (ℕ × OrderStatus)) (db : Db) → OrdersFollow db (transitions_run ms db)
unfolding transitions_run
transitions_run-OrdersFollow [] db = OrdersFollow-refl db db refl
transitions_run-OrdersFollow ((k, to) ∷ ms) db =
    OrdersFollow-trans db (transition k to db).1 (transitions_run ms (transition k to db).1)
      (transition-OrdersFollow k to db) (transitions_run-OrdersFollow ms (transition k to db).1)

-- How far an order has come.
abbrev stage : OrderStatus → ℕ
stage OrderStatus.pending = 0
stage OrderStatus.paid = 1
stage OrderStatus.preparing = 2
stage OrderStatus.ready = 3
stage _ = 4

stage_step : (s t : OrderStatus) → order_moves s t ≡ true → stage s < stage t
unfolding order_moves
stage_step s t e = ground arith

cancelled_step :
    (s t : OrderStatus)
    → order_moves s t ≡ true
    → t ≡ OrderStatus.cancelled
    → s ≡ OrderStatus.pending
unfolding order_moves
cancelled_step s t e c = ground arith

path_stage : {s t : OrderStatus} → Reach order_moves s t → (t ≡ s) ⊎ (stage s < stage t)
path_stage here = inl refl
path_stage {s} (next {t = t} {u = u} r e) = elim (path_stage r) [
  | inl same ↦ inr (rw (← same) (stage_step t u e))
  | inr less ↦ inr (omega (arith, stage_step t u e))
]

from_pending :
    {s t : OrderStatus}
    → Reach order_moves s t
    → t ≡ OrderStatus.cancelled
    → (s ≡ t) ⊎ (s ≡ OrderStatus.pending)
from_pending here c = inl refl
from_pending {s} (next {t = t} {u = u} r e) c =
    let pending = cancelled_step t u e c in
    elim (path_stage r) [
      | inl same ↦ inr (sym same ∙ pending)
      | inr less ↦ absurd (omega (arith, less, ap stage pending))
    ]

-- By the table, an order that was paid, or that is further on, is never cancelled: a path to
-- CANCELLED begins at PENDING, unless it is empty.
pub cancelled_from_pending :
    {s : OrderStatus}
    → Reach order_moves s OrderStatus.cancelled
    → (s ≡ OrderStatus.cancelled) ⊎ (s ≡ OrderStatus.pending)
cancelled_from_pending r = from_pending r refl

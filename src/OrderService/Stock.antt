-- ===== src/OrderService/Stock.antt =====
-- What cancelling an order does to the order and to the stock.
use coffee_shop_saas_platfor.Prelude.{
  ℕ, ◌≡◌, refl, sym, ap, ◌∙◌, ◌⊎◌, inl, inr, true, false, none, some, [], ◌∷◌, arith, Option-cases,
  Bool-cases, ==_refl,
}
use coffee_shop_saas_platfor.Table.{Table, find, update, find_many, sum_of}
use coffee_shop_saas_platfor.Action.{Error, ok, err, Result-cases}
use coffee_shop_saas_platfor.Schema.{
  Order, OrderStatus, PaymentStatus, is_payment, InventoryItem, Db,
}
use coffee_shop_saas_platfor.Inventory.Orders.{release_for_order}
use coffee_shop_saas_platfor.Inventory.Orders.Settle.{Released}
use coffee_shop_saas_platfor.Inventory.Orders.Effects.{held_open, release_effect}
use coffee_shop_saas_platfor.Inventory.Orders.Consistent.{IsConsistent, release-IsConsistent}
use coffee_shop_saas_platfor.OrderService.Status.{set_order_status}
use coffee_shop_saas_platfor.OrderService.Cancellation.{
  order_of_tenant, cancel_before_payment, cancel_after_payment, cancel_each, cancel_expired_orders,
  take_rows, is_expired,
}

-- The database that `releaseForOrder` is called on.
abbrev marked : ℕ → Db → Db
marked k db = record db { orders = update k (set_order_status OrderStatus.cancelled) db.orders }

-- The tables on which consistency depends.
abbrev SameStock : Db → Db → Type 0
SameStock db db' =
    (db'.inventory ≡ db.inventory)
    × (db'.reservations ≡ db.reservations)
    × (db'.next_key ≡ db.next_key)

SameStock-IsConsistent : (db db' : Db) → SameStock db db' → IsConsistent db → IsConsistent db'
SameStock-IsConsistent db db' (i, r, n) c = record {
  balanced = λ k a h. c.balanced k a (sym (ap (find k) i) ∙ h);
  backed = λ k a h. rw r (c.backed k a (sym (ap (find k) i) ∙ h));
  items_keyed = rw i c.items_keyed;
  reservations_keyed = rw r c.reservations_keyed;
  nonneg = rw r c.nonneg;
  unused = λ j le. rw r (c.unused j (rw (← n) le));
}

module _ (tenant k : ℕ) (db : Db) where
  before_missing : order_of_tenant tenant k db ≡ none → (cancel_before_payment tenant k db).1 ≡ db
  unfolding cancel_before_payment
  before_missing h = ground arith

  before_stuck :
      (o : Order) (e : Error)
      → order_of_tenant tenant k db ≡ some o
      → (release_for_order k (marked k db)).0 ≡ err e
      → (cancel_before_payment tenant k db).1 ≡ db
  unfolding cancel_before_payment
  before_stuck o e h r = ground arith

  before_done :
      (o : Order)
      → order_of_tenant tenant k db ≡ some o
      → (release_for_order k (marked k db)).0 ≡ ok tt
      → let db' = (cancel_before_payment tenant k db).1 in
        (db' ≡ db) ⊎ SameStock (release_for_order k (marked k db)).1 db'
  unfolding cancel_before_payment
  before_done o h r = ground arith

  after_missing : order_of_tenant tenant k db ≡ none → (cancel_after_payment tenant k db).1 ≡ db
  unfolding cancel_after_payment
  after_missing h = ground arith

  after_kept :
      (o : Order)
      → order_of_tenant tenant k db ≡ some o
      → o.inventory_committed ≡ false
      → SameStock db (cancel_after_payment tenant k db).1
  unfolding cancel_after_payment
  after_kept o h c = (ground arith, ground arith, ground arith)

  after_stuck :
      (o : Order) (e : Error)
      → order_of_tenant tenant k db ≡ some o
      → o.inventory_committed ≡ true
      → (release_for_order k (marked k db)).0 ≡ err e
      → (cancel_after_payment tenant k db).1 ≡ db
  unfolding cancel_after_payment
  after_stuck o e h c r = ground arith

  after_done :
      (o : Order)
      → order_of_tenant tenant k db ≡ some o
      → o.inventory_committed ≡ true
      → (release_for_order k (marked k db)).0 ≡ ok tt
      → let db' = (cancel_after_payment tenant k db).1 in
        (db' ≡ db) ⊎ SameStock (release_for_order k (marked k db)).1 db'
  unfolding cancel_after_payment
  after_done o h c r = ground arith

  released : IsConsistent db → IsConsistent (release_for_order k (marked k db)).1
  released c =
      release-IsConsistent k (marked k db)
        (SameStock-IsConsistent db (marked k db) (refl, refl, refl) c)

  either_way :
      (db' : Db)
      → IsConsistent db
      → (db' ≡ db) ⊎ SameStock (release_for_order k (marked k db)).1 db'
      → IsConsistent db'
  either_way db' c (inl same) = rw same c
  either_way db' c (inr stock) =
      SameStock-IsConsistent (release_for_order k (marked k db)).1 db' stock (released c)

  before-IsConsistent : IsConsistent db → IsConsistent (cancel_before_payment tenant k db).1
  before-IsConsistent c = elim (Option-cases (order_of_tenant tenant k db)) [
    | inl e ↦ rw (before_missing e) c
    | inr (o, e) ↦ elim (Result-cases (release_for_order k (marked k db)).0) [
      | inl (u, r) ↦ either_way (cancel_before_payment tenant k db).1 c (before_done o e r)
      | inr (x, r) ↦ rw (before_stuck o x e r) c
    ]
  ]

  -- Cancelling an order after its payment, whether the call ends well or throws, keeps the
  -- database consistent: every stock row is balanced and its reserved stock is what the active
  -- reservations hold of it, keys are unique and new ones unused, and no reservation is negative.
  pub cancel_after_payment-IsConsistent :
      IsConsistent db → IsConsistent (cancel_after_payment tenant k db).1
  cancel_after_payment-IsConsistent c = elim (Option-cases (order_of_tenant tenant k db)) [
    | inl e ↦ rw (after_missing e) c
    | inr (o, e) ↦ elim (Bool-cases o.inventory_committed) [
      | inr kept ↦
          SameStock-IsConsistent db (cancel_after_payment tenant k db).1 (after_kept o e kept) c
      | inl given ↦ elim (Result-cases (release_for_order k (marked k db)).0) [
        | inl (u, r) ↦ either_way (cancel_after_payment tenant k db).1 c (after_done o e given r)
        | inr (x, r) ↦ rw (after_stuck o x e given r) c
      ]
    ]
  ]

before_answers :
    (tenant k : ℕ) (db : Db) (o : Order)
    → find k db.orders ≡ some o
    → o.tenant ≡ tenant
    → o.status ≡ OrderStatus.pending
    → is_payment o.payment_status PaymentStatus.paid ≡ false
    → (release_for_order k (marked k db)).0 ≡ ok tt
    → let (x, db') = cancel_before_payment tenant k db in
      (x ≡ ok o) × (db'.inventory ≡ (release_for_order k (marked k db)).1.inventory)
unfolding cancel_before_payment
before_answers tenant k db o h t s p r =
    let mine : order_of_tenant tenant k db ≡ some o = ground (arith, ==_refl tenant) in
    (ground (arith, mine), ground (arith, mine))

cancel_each_step :
    (k : ℕ) (o : Order) (rest : Table Order) (db : Db)
    → (cancel_each ((k, o) ∷ rest) db).1
      ≡ (cancel_each rest (cancel_before_payment o.tenant k db).1).1
unfolding cancel_each
cancel_each_step k o rest db = ground arith

cancel_each-IsConsistent :
    (t : Table Order) (db : Db) → IsConsistent db → IsConsistent (cancel_each t db).1
unfolding cancel_each
cancel_each-IsConsistent [] db c = c
cancel_each-IsConsistent ((k, o) ∷ rest) db c = rw (cancel_each_step k o rest db) (
    cancel_each-IsConsistent rest (cancel_before_payment o.tenant k db).1
      (before-IsConsistent o.tenant k db c))

cancel_expired-IsConsistent :
    (db : Db) → IsConsistent db → IsConsistent (cancel_expired_orders db).1
unfolding cancel_expired_orders
cancel_expired-IsConsistent db c =
    cancel_each-IsConsistent (take_rows 50 (find_many (is_expired db.now) db.orders)) db c

-- What cancelling an order of the tenant does that is PENDING and not PAID, where the release of
-- its stock ends well: each stock row gets back exactly what the order's open reservations held of
-- it, and the call answers the order as it was.
pub cancel_before_effect :
    (tenant k i : ℕ) (db : Db) (o : Order) (a : InventoryItem)
    → find k db.orders ≡ some o
    → o.tenant ≡ tenant
    → o.status ≡ OrderStatus.pending
    → is_payment o.payment_status PaymentStatus.paid ≡ false
    → (release_for_order k
        (record db { orders = update k (set_order_status OrderStatus.cancelled) db.orders })).0
      ≡ ok tt
    → find i db.inventory ≡ some a
    → let (x, db') = cancel_before_payment tenant k db in
      (x ≡ ok o)
      × (b : InventoryItem) × (find i db'.inventory ≡ some b)
      × Released (sum_of (held_open k i) db.reservations) a b
cancel_before_effect tenant k i db o a h t s p r ha =
    let (x, stock) = before_answers tenant k db o h t s p r in
    let (b, hb, moved) = release_effect k i (marked k db) a r ha in
    (x, b, ap (find i) stock ∙ hb, moved)

-- ===== src/CashDrawer/Close.antt =====
-- What closing a drawer finds.
use coffee_shop_saas_platfor.Prelude.{
  ℕ, ◌≤◌, ==_refl, ◌≡◌, refl, ap, ◌∙◌, ◌⊎◌, inl, inr, true, false, Option, some, [], ◌∷◌, ◌++◌,
  arith, if◌then◌else◌,
}
use coffee_shop_saas_platfor.Int.{ℤ, pos, negsuc, ◌+ℤ◌, ◌-ℤ◌, ◌<ℤ◌, ◌≤ℤ◌, int_laws, parts_of_eq}
use coffee_shop_saas_platfor.Table.{find, update, sum_of, sum_of-update, find-update_self}
use coffee_shop_saas_platfor.Action.{ok, err, drawer_not_open}
use coffee_shop_saas_platfor.Schema.{PaymentStatus}
use coffee_shop_saas_platfor.CashDrawer.{expected_of, close_drawer, create_cash_drop}
use coffee_shop_saas_platfor.CashDrawer.Rows.{
  Till, Drawer, closed, reconciling, is_open, CashPayment, Cash, cash_of, needs_approval, closed_as,
}

needs_iff :
    (v : ℤ)
    → ((pos 500 <ℤ v) ⊎ (v <ℤ negsuc 499)) × (needs_approval v ≡ true)
      ⊎ (negsuc 499 ≤ℤ v) × (v ≤ℤ pos 500) × (needs_approval v ≡ false)
needs_iff v = ground arith

close_refused :
    (k : ℕ) (actual : ℤ) (counted : Option Cash) (t : Till) (d : Drawer)
    → find k t.drawers ≡ some d
    → is_open d.status ≡ false
    → close_drawer k actual counted t ≡ (err drawer_not_open, t)
unfolding close_drawer
close_refused k actual counted t d h o = ground arith

drop_refused :
    (k : ℕ) (amount : ℤ) (t : Till) (d : Drawer)
    → find k t.drawers ≡ some d
    → is_open d.status ≡ false
    → create_cash_drop k amount t ≡ (err drawer_not_open, t)
unfolding create_cash_drop
drop_refused k amount t d h o = ground arith

module _ (k : ℕ) (actual : ℤ) (counted : Option Cash) (t : Till) (d : Drawer)
    (h : find k t.drawers ≡ some d) where
  -- The drawer as it is closed.
  abbrev pub closed_row : Drawer
  closed_row =
      closed_as (expected_of k d t) actual (sum_of (cash_of PaymentStatus.completed d) t.payments)
        (sum_of (cash_of PaymentStatus.refunded d) t.payments) d

  close_writes :
      is_open d.status ≡ true
      → let (x, t') = close_drawer k actual counted t in
        (x ≡ ok closed_row)
        × (find k t'.drawers ≡ some closed_row)
        × (t'.payments ≡ t.payments)
        × (t'.drops ≡ t.drops)
        × (t'.requests ≡ (
            if needs_approval (actual -ℤ expected_of k d t)
            then t.requests ++ (k, actual -ℤ expected_of k d t) ∷ []
            else t.requests))
  unfolding close_drawer
  close_writes o =
      let row =
        find-update_self k
          (closed_as (expected_of k d t) actual
            (sum_of (cash_of PaymentStatus.completed d) t.payments)
            (sum_of (cash_of PaymentStatus.refunded d) t.payments))
          t.drawers d h in
      (
        ground (arith, row),
        ground (arith, row),
        ground (arith, row),
        ground (arith, row),
        ground (arith, row),
      )

  -- Closing an open drawer answers the drawer with the variance, what was counted less what is
  -- expected, and writes it. Within 500 either way the drawer is CLOSED and no approval is asked
  -- for; beyond that it is RECONCILING and one request for approval is added.
  pub close_effect :
      is_open d.status ≡ true
      → let (x, t') = close_drawer k actual counted t in
        let v = actual -ℤ expected_of k d t in
        (x ≡ ok closed_row)
        × (find k t'.drawers ≡ some closed_row)
        × (closed_row.variance ≡ some v)
        × (((negsuc 499 ≤ℤ v)
              × (v ≤ℤ pos 500)
              × (closed_row.status ≡ closed)
              × (t'.requests ≡ t.requests))
            ⊎ (((pos 500 <ℤ v) ⊎ (v <ℤ negsuc 499))
                × (closed_row.status ≡ reconciling)
                × (t'.requests ≡ t.requests ++ (k, v) ∷ [])))
  close_effect o =
      let (x, row, pays, ds, reqs) = close_writes o in
      (
        x,
        row,
        refl,
        elim (needs_iff (actual -ℤ expected_of k d t)) [
          | inl (far, yes') ↦ inr (far, rw yes', reqs ∙ rw yes')
          | inr (low, high, no') ↦ inl (low, high, rw no', reqs ∙ rw no')
        ],
      )

  shut : is_open closed_row.status ≡ false
  shut = ground arith

  -- A drawer that was closed cannot be closed again, nor can cash be dropped from it: both calls are
  -- refused and write nothing.
  pub close_once :
      (actual' amount : ℤ) (counted' : Option Cash)
      → is_open d.status ≡ true
      → let t' = (close_drawer k actual counted t).1 in
        (close_drawer k actual' counted' t' ≡ (err drawer_not_open, t'))
        × (create_cash_drop k amount t' ≡ (err drawer_not_open, t'))
  close_once actual' amount counted' o =
      let (x, row, pays, ds, reqs) = close_writes o in
      (
        close_refused k actual' counted' (close_drawer k actual counted t).1 closed_row row shut,
        drop_refused k amount (close_drawer k actual counted t).1 closed_row row shut,
      )

-- The payment's refund at the till.
abbrev pub refund_payment : CashPayment → CashPayment
refund_payment p = record p { status = PaymentStatus.refunded }

-- The till after the refund of payment `j`.
abbrev pub after_refund : ℕ → Till → Till
after_refund j t = record t { payments = update j refund_payment t.payments }

-- A cash payment of an open session that is refunded counts twice: it drops out of the sales and is
-- taken off as a refund, so the expected cash falls by twice the amount that was handed back.
pub refund_counted_twice :
    (k j : ℕ) (t : Till) (d : Drawer) (p : CashPayment)
    → find j t.payments ≡ some p
    → p.store ≡ d.store
    → p.is_cash ≡ true
    → p.status ≡ PaymentStatus.completed
    → d.opened_at ≤ p.created_at
    → expected_of k d (after_refund j t) +ℤ p.amount +ℤ p.amount ≡ expected_of k d t
unfolding expected_of
refund_counted_twice k j t d p h at cash paid since =
    let sale = cash_of PaymentStatus.completed d in
    let back = cash_of PaymentStatus.refunded d in
    let sold : sale p ≡ p.amount = ground (arith, ==_refl d.store) in
    let sold' : sale (refund_payment p) ≡ pos 0 = ground arith in
    let given : back p ≡ pos 0 = ground arith in
    let given' : back (refund_payment p) ≡ p.amount = ground (arith, ==_refl d.store) in
    let sales = parts_of_eq (sum_of-update sale j refund_payment t.payments p h) in
    let refunds = parts_of_eq (sum_of-update back j refund_payment t.payments p h) in
    omega (
      int_laws,
      sales,
      refunds,
      parts_of_eq sold,
      parts_of_eq sold',
      parts_of_eq given,
      parts_of_eq given',
    )

-- So an honest cashier, in whose drawer there was what was expected and who hands back the price of
-- one cash sale, closes with an overage of that price.
pub refund_looks_like_overage :
    (k j : ℕ) (counted : Option Cash) (t : Till) (d : Drawer) (p : CashPayment)
    → find k t.drawers ≡ some d
    → is_open d.status ≡ true
    → find j t.payments ≡ some p
    → p.store ≡ d.store
    → p.is_cash ≡ true
    → p.status ≡ PaymentStatus.completed
    → d.opened_at ≤ p.created_at
    → let (x, t') = close_drawer k (expected_of k d t -ℤ p.amount) counted (after_refund j t) in
      (d' : Drawer) × (x ≡ ok d') × (find k t'.drawers ≡ some d') × (d'.variance ≡ some p.amount)
refund_looks_like_overage k j counted t d p hd o h at cash paid since =
    let (x, row, var, rest) =
      close_effect k (expected_of k d t -ℤ p.amount) counted (after_refund j t) d hd o in
    let twice = parts_of_eq (refund_counted_twice k j t d p h at cash paid since) in
    let over : expected_of k d t -ℤ p.amount -ℤ expected_of k d (after_refund j t) ≡ p.amount =
      omega (int_laws, twice) in
    (
      closed_row k (expected_of k d t -ℤ p.amount) counted (after_refund j t) d hd,
      x,
      row,
      var ∙ ap some over,
    )

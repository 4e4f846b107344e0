-- ===== src/CashDrawer.antt =====
-- Cash drawers: `CashDrawerService` of backend/src/services/staff/CashDrawer.service.ts. Its state has the
-- tables that it touches; of a payment it reads the store, the method, the status, the time and the
-- amount. Whether a user may open a drawer in a store (`userStore.canOpenDrawer`) is a parameter.
-- Names, notes, receipt numbers and the coins of a count, beyond their sums, are left out.
pub mod Single
pub mod Close
pub mod Rows
use coffee_shop_saas_platfor.Prelude.{
  ℕ, suc, Bool, true, false, not, Option, none, some, List, [], ◌∷◌, ◌++◌,
}
use coffee_shop_saas_platfor.Int.{ℤ, pos, ◌+ℤ◌, ◌-ℤ◌}
use coffee_shop_saas_platfor.Table.{find, find_first, update, create, sum_of}
use coffee_shop_saas_platfor.Action.{
  Action, ok, err, pure, or_throw, gets, modify, throw_if, when, ◌>>=◌, ◌>>◌, drawer_already_open,
  no_permission, drawer_not_found, drawer_not_open, record_not_found,
}
use coffee_shop_saas_platfor.Schema.{PaymentStatus}
use coffee_shop_saas_platfor.CashDrawer.Rows.{
  is_open, Drawer, Drop, Count, TillEvent, drawer_opened, drop_created, variance_needs_approval,
  drawer_closed, Till, is_drawer_of, new_drawer, is_some, cash_of, drop_of, needs_approval,
  closed_as, Cash, coins_of, bills_of, set_verified, set_approved,
}

abbrev announce : TillEvent → Action Till (Unit {0})
announce e = modify (λ t. record t { events = t.events ++ e ∷ [] })

abbrev add_count : Count → Action Till (Unit {0})
add_count c = modify (λ t. record t { counts = t.counts ++ c ∷ [] })

create_drawer : Drawer → Action Till ℕ
create_drawer d t =
    (ok t.next_key, record t { drawers = create t.next_key d t.drawers; next_key = suc t.next_key })

update_drawer : ℕ → (Drawer → Drawer) → Action Till Drawer
update_drawer k f t = elim (find k t.drawers) [
  | none ↦ (err record_not_found, t)
  | some d ↦ (ok (f d), record t { drawers = update k f t.drawers })
]

unfoldable pub open_drawer : (ℕ → ℕ → Bool) → ℕ → ℕ → ℤ → Action Till ℕ
unfolding create_drawer
open_drawer can_open user store cash = do
  existing ← gets (λ t. find_first (is_drawer_of user store) t.drawers)
  throw_if (is_some existing) drawer_already_open
  throw_if (not (can_open user store)) no_permission
  now ← gets (λ t. t.now)
  drawer ← create_drawer (new_drawer user store cash now)
  add_count (record { drawer = drawer; closing = false; coins = pos 0; bills = cash; total = cash })
  announce (drawer_opened drawer)
  pure drawer

unfoldable pub expected_of : ℕ → Drawer → Till → ℤ
expected_of k d t =
    d.starting_cash
    +ℤ sum_of (cash_of PaymentStatus.completed d) t.payments
    -ℤ sum_of (cash_of PaymentStatus.refunded d) t.payments
    -ℤ sum_of (drop_of k) t.drops

close_count : ℕ → Option Cash → Action Till (Unit {0})
close_count k none = pure tt
close_count k (some c) = add_count (record {
  drawer = k;
  closing = true;
  coins = coins_of c;
  bills = bills_of c;
  total = coins_of c +ℤ bills_of c;
})

close_request : ℕ → ℤ → Action Till (Unit {0})
close_request k variance = when (needs_approval variance) (do
  modify (λ t. record t { requests = t.requests ++ (k, variance) ∷ [] })
  announce (variance_needs_approval k variance))

unfoldable pub close_drawer : ℕ → ℤ → Option Cash → Action Till Drawer
unfolding update_drawer close_count close_request
close_drawer k actual counted = do
  drawer ← or_throw (← gets (λ t. find k t.drawers)) drawer_not_found
  throw_if (not (is_open drawer.status)) drawer_not_open
  sales ← gets (λ t. sum_of (cash_of PaymentStatus.completed drawer) t.payments)
  refunded ← gets (λ t. sum_of (cash_of PaymentStatus.refunded drawer) t.payments)
  expected ← gets (expected_of k drawer)
  updated ← update_drawer k (closed_as expected actual sales refunded)
  close_count k counted
  close_request k (actual -ℤ expected)
  announce (drawer_closed k (actual -ℤ expected))
  pure updated

create_drop : Drop → Action Till ℕ
create_drop d t =
    (ok t.next_key, record t { drops = create t.next_key d t.drops; next_key = suc t.next_key })

unfoldable pub create_cash_drop : ℕ → ℤ → Action Till ℕ
unfolding create_drop
create_cash_drop k amount = do
  drawer ← or_throw (← gets (λ t. find k t.drawers)) drawer_not_found
  throw_if (not (is_open drawer.status)) drawer_not_open
  drop ← create_drop (record { drawer = k; amount = amount; verified_by = none })
  announce (drop_created drop)
  pure drop

unfoldable pub verify_cash_drop : ℕ → ℕ → Action Till Drop
verify_cash_drop k by t = elim (find k t.drops) [
  | none ↦ (err record_not_found, t)
  | some d ↦ (ok (set_verified by d), record t { drops = update k (set_verified by) t.drops })
]

unfoldable pub approve_cash_variance : ℕ → Action Till Drawer
unfolding update_drawer
approve_cash_variance k = update_drawer k set_approved

pub data TillCall : Type 0 where
  opens : ℕ → ℕ → ℤ → TillCall
  closes : ℕ → ℤ → Option Cash → TillCall
  drops : ℕ → ℤ → TillCall
  verifies : ℕ → ℕ → TillCall
  approves : ℕ → TillCall

module _ (can_open : ℕ → ℕ → Bool) where
  -- The calls of the controllers; a throw ends the call.
  unfoldable pub till_step : TillCall → Till → Till
  till_step (opens user store cash) t = (open_drawer can_open user store cash t).1
  till_step (closes k actual counted) t = (close_drawer k actual counted t).1
  till_step (drops k amount) t = (create_cash_drop k amount t).1
  till_step (verifies k by) t = (verify_cash_drop k by t).1
  till_step (approves k) t = (approve_cash_variance k t).1

  unfoldable pub till_run : List TillCall → Till → Till
  till_run [] t = t
  till_run (c ∷ cs) t = till_run cs (till_step c t)

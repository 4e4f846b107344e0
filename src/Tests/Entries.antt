-- ===== src/Tests/Entries.antt =====
-- Time entries.
use coffee_shop_saas_platfor.Prelude.{ℕ, ◌*◌, ◌/◌, refl, true, none, some, List, [], ◌∷◌, arith}
use coffee_shop_saas_platfor.Table.{Table}
use coffee_shop_saas_platfor.TimeEntry.{
  clock_run, ClockCall, clocks_in, clocks_out, starts, ends, waits,
}
use coffee_shop_saas_platfor.TimeEntry.Rows.{
  Clock, TimeEntry, BreakEntry, Place, unpaid, new_entry, closed_as, new_break,
}
use coffee_shop_saas_platfor.TimeEntry.Single.{BothSingle, clock_run-BothSingle}
use coffee_shop_saas_platfor.TimeEntry.Settled.{IsSettled, clock_run-IsSettled}

abbrev empty_clock : Clock
empty_clock = record {
  user_stores = (1, record { user = 5; store = 2; tenant = 1; is_active = true }) ∷ [];
  tenant_users = (2, record { tenant = 1; user = 5; pay_rate = some 1200 }) ∷ [];
  stores = (2, record { place = none }) ∷ [];
  shifts = [];
  entries = [];
  breaks = [];
  requests = [];
  events = [];
  next_key = 10;
  now = 0;
}

abbrev no_distance : Place → Place → ℕ
no_distance p q = 0

abbrev pay : ℕ → ℕ → ℕ
pay ms rate = (ms * rate) / 3600000

abbrev a_day : List ClockCall
a_day =
    clocks_in 5 2 none none
    ∷ clocks_in 5 2 none none
    ∷ waits 3600000
    ∷ starts 10 unpaid
    ∷ starts 10 unpaid
    ∷ waits 1800000
    ∷ ends 11
    ∷ []

empty_clock-BothSingle : BothSingle empty_clock
empty_clock-BothSingle =
    (λ i j a b h h' o o' w. absurd (ground arith), λ i j a b h h' o o' w. absurd (ground arith))

clock_run-BothSingle_example : BothSingle (clock_run no_distance pay a_day empty_clock)
clock_run-BothSingle_example =
    clock_run-BothSingle no_distance pay a_day empty_clock empty_clock-BothSingle

abbrev an_entry : TimeEntry
an_entry = new_entry 1 5 2 none none none (some 1200) 0

abbrev at_work : Clock
at_work = record empty_clock { entries = (10, an_entry) ∷ []; next_key = 11; now = 3600000 }

abbrev after_work : Clock
after_work = record at_work {
  entries = (10, closed_as 3600000 0 1200 an_entry) ∷ [];
  now = 3700000;
}

clock_run-IsSettled_example :
    IsSettled 10 3600000
      (some 0)
      (some 1200)
      (clock_run no_distance pay (clocks_in 5 2 none none ∷ clocks_out 5 2 ∷ []) after_work).entries
clock_run-IsSettled_example =
    clock_run-IsSettled 10 3600000 (some 0) (some 1200) no_distance pay
      (clocks_in 5 2 none none ∷ clocks_out 5 2 ∷ []) after_work
      ((refl, tt), λ k le. ground (arith, le)) (_, refl, refl, refl, refl)

abbrev a_long_break : Table BreakEntry
a_long_break =
    (12, record (new_break 10 an_entry unpaid 0) { end_ = some 3600000; duration = some 60 }) ∷ []

abbrev paused : Clock
paused = clock_run no_distance pay a_day empty_clock

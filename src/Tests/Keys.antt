-- ===== src/Tests/Keys.antt =====
-- Idempotency keys.
use coffee_shop_saas_platfor.Prelude.{ℕ, ◌+◌, ◌≡◌, refl, Option, some, [], ◌∷◌, arith}
use coffee_shop_saas_platfor.Action.{ok}
use coffee_shop_saas_platfor.Idempotency.{Responses, Name, new_row, check, cleanup, store}
use coffee_shop_saas_platfor.Idempotency.Answers.{IsUnique, cleanup_unseen, store_then_check}

abbrev a_name : Name
a_name = record { tenant = 1; key = 7; route = 3 }

abbrev other_name : Name
other_name = record { tenant = 1; key = 8; route = 3 }

-- A row that has expired.
abbrev responses : Responses
responses = record { rows = (1, new_row a_name 90 200 5) ∷ []; next_key = 3; now = 10 }

abbrev printed : ℕ → ℕ
printed r = r

abbrev parsed : ℕ → Option ℕ
parsed r = some r

responses-IsUnique : IsUnique responses.rows
responses-IsUnique = ((refl, tt), λ i j a b h h' o o' w. (ground (arith, h, h')))

cleanup_unseen_example :
    (check printed a_name (cleanup responses).1).0 ≡ (check printed a_name responses).0
cleanup_unseen_example = cleanup_unseen printed a_name responses responses-IsUnique

store_then_check_example :
    let s' = (store parsed other_name 91 201 24 responses).1 in
    (check printed other_name (record s' { now = s'.now + 3600000 })).0 ≡ ok (some (91, 201))
unfolding store
store_then_check_example =
    store_then_check parsed printed other_name 91 91 201 24 3600000 responses refl refl
      (omega arith)

-- ===== src/MenuDiff/Record.antt =====
-- The record of a diff: when it tells of a breaking change, and that it is made once.
use coffee_shop_saas_platfor.Prelude.{
  ℕ, suc, ◌≡◌, ◌↔◌, ◌⊎◌, inl, inr, refl, sym, ap, ◌∙◌, Bool, true, false, Option, none, some, [],
  ◌∷◌, arith, ltb, length, Bool-cases, Option-cases,
}
use mathlib.Core.Option.{some-ne-none}
use coffee_shop_saas_platfor.Int.{◌<ℤ◌}
use coffee_shop_saas_platfor.Table.{Table, find, find_first, create, find_first-create}
use coffee_shop_saas_platfor.Action.{ok}
use coffee_shop_saas_platfor.MenuDiff.{
  calculate_diff, is_breaking, Menus, Snapshot, DiffRecord, is_diff_of, diff_record, both,
  create_diff,
}
use coffee_shop_saas_platfor.MenuDiff.Changes.{
  Category, Product, ProductEntry, PriceChange, Diff, map_of, price_change,
}
use coffee_shop_saas_platfor.MenuDiff.Found.{is_dearer, when_some}
use coffee_shop_saas_platfor.MenuDiff.Patch.{compare_products, told_lem}

module _ {B : Type 0} where
  nonempty_find : (t : Table B) → ltb 0 (length t) ≡ true → (k : ℕ) × (b : B) × (find k t ≡ some b)
  nonempty_find [] h = absurd (ground arith)
  nonempty_find ((k, b) ∷ t) h = (k, b, ground arith)

  find_nonempty : (k : ℕ) (t : Table B) (b : B) → find k t ≡ some b → ltb 0 (length t) ≡ true
  find_nonempty k [] b h = ground arith
  find_nonempty k (e ∷ t) b h = ground arith

-- A product of the old menu that the new one has not, or has at a higher price.
abbrev pub IsBroken : Option Product → Option Product → Type 0
IsBroken none n = ⊥
IsBroken (some p) none = Unit
IsBroken (some p) (some q) = p.base_price <ℤ q.base_price

removed_lem :
    (o n : Option Product) (e : ProductEntry)
    → (compare_products o n).removed_entry ≡ some e
    → IsBroken o n
removed_lem none n e h = absurd (some-ne-none e (sym h))
removed_lem (some p) none e h = tt
removed_lem (some p) (some q) e h = absurd (some-ne-none e (sym h))

dearer_lem : (c : Bool) (b e : PriceChange) → when_some c b ≡ some e → c ≡ true
dearer_lem true b e h = refl
dearer_lem false b e h = absurd (some-ne-none e (sym h))

increase_lem :
    (o n : Option Product) (e : PriceChange)
    → (compare_products o n).increase ≡ some e
    → IsBroken o n
increase_lem none none e h = absurd (some-ne-none e (sym h))
increase_lem none (some q) e h = absurd (some-ne-none e (sym h))
increase_lem (some p) none e h = absurd (some-ne-none e (sym h))
increase_lem (some p) (some q) e h =
    let dearer = dearer_lem (is_dearer p q) (price_change p q) e h in ground arith

broken_lem :
    (o n : Option Product)
    → IsBroken o n
    → ((e : ProductEntry) × ((compare_products o n).removed_entry ≡ some e))
      ⊎ ((e : PriceChange) × ((compare_products o n).increase ≡ some e))
broken_lem none n h = absurd h
broken_lem (some p) none h = inl (_, refl)
broken_lem (some p) (some q) h =
    let dearer : is_dearer p q ≡ true = ground arith in
    inr (price_change p q, ap (λ c. when_some c (price_change p q)) dearer)

module _ (oc nc : Table Category) (op np : Table Product) where
  abbrev diff : Diff
  diff = calculate_diff oc nc op np

  abbrev BreaksAt : ℕ → Type 0
  BreaksAt k = IsBroken (find k (map_of op)) (find k (map_of np))

  breaks_somewhere : is_breaking diff ≡ true → (k : ℕ) × BreaksAt k
  breaks_somewhere h = elim (Bool-cases (ltb 0 (length diff.removed_products))) [
    | inl e ↦
        let (k, b, found) = nonempty_find diff.removed_products e in
        (
          k,
          removed_lem (find k (map_of op)) (find k (map_of np)) b
              (sym (ap (λ t. t.removed_entry) (told_lem oc nc op np k)) ∙ found),
        )
    | inr e ↦
        let (k, b, found) = nonempty_find diff.price_increases (ground (arith, h, e)) in
        (
          k,
          increase_lem (find k (map_of op)) (find k (map_of np)) b
              (sym (ap (λ t. t.increase) (told_lem oc nc op np k)) ∙ found),
        )
  ]

  marked : (k : ℕ) → BreaksAt k → is_breaking diff ≡ true
  marked k h = elim (broken_lem (find k (map_of op)) (find k (map_of np)) h) [
    | inl (e, found) ↦
        let some_removed =
          find_nonempty k diff.removed_products e
            (ap (λ t. t.removed_entry) (told_lem oc nc op np k) ∙ found) in
        rw some_removed refl
    | inr (e, found) ↦
        let some_increase =
          find_nonempty k diff.price_increases e
            (ap (λ t. t.increase) (told_lem oc nc op np k) ∙ found) in
        ground (arith, some_increase)
  ]

  -- A diff is marked as breaking exactly when some product of the old menu is missing in the new one
  -- or is dearer there.
  pub is_breaking_iff :
      (is_breaking (calculate_diff oc nc op np) ≡ true)
      ↔ ((k : ℕ) × IsBroken (find k (map_of op)) (find k (map_of np)))
  is_breaking_iff = (breaks_somewhere, λ (k, h). marked k h)

own_diff : (from to : ℕ) (a b : Snapshot) → is_diff_of from to (diff_record from to a b) ≡ true
unfolding diff_record
own_diff from to a b = ground arith

is_answered :
    (from to : ℕ) (s : Menus) (row : ℕ × DiffRecord)
    → find_first (is_diff_of from to) s.diffs ≡ some row
    → create_diff from to s ≡ (ok row, s)
unfolding create_diff
is_answered from to s row h = rw (create_diff, h) refl

same_again :
    (from to : ℕ) (s s' : Menus) (row row' : ℕ × DiffRecord)
    → create_diff from to s ≡ (ok row', s')
    → create_diff from to s' ≡ (ok row', s')
    → (create_diff from to s).0 ≡ ok row
    → create_diff from to (create_diff from to s).1 ≡ (ok row, (create_diff from to s).1)
same_again from to s s' row row' e again h =
    let state = ap (λ r. r.1) e in
    let answer = sym (ap (λ r. r.0) e) ∙ h in
    ap (create_diff from to) state ∙ again ∙ λ i. (answer i, sym state i)

-- When `createDiff` has answered with a row, asking for the same diff again answers with the same row
-- and changes nothing.
pub create_diff_twice :
    (from to : ℕ) (s : Menus) (row : ℕ × DiffRecord)
    → (create_diff from to s).0 ≡ ok row
    → create_diff from to (create_diff from to s).1 ≡ (ok row, (create_diff from to s).1)
unfolding create_diff
create_diff_twice from to s row h = elim (Option-cases (find_first (is_diff_of from to) s.diffs)) [
  | inl e ↦ elim (Option-cases (both (find from s.snapshots) (find to s.snapshots))) [
    | inl missing ↦ absurd (ground (arith, e, missing, h))
    | inr ((a, b), found) ↦
        let row' = diff_record from to a b in
        let s' : Menus = record s {
          diffs = create s.next_key row' s.diffs;
          next_key = suc s.next_key;
        } in
        let made : create_diff from to s ≡ (ok (s.next_key, row'), s') =
          rw (create_diff, e, found) refl in
        let stands =
          find_first-create (is_diff_of from to) s.next_key row' s.diffs e (own_diff from to a b) in
        same_again from to s s' row (s.next_key, row') made
          (is_answered from to s' (s.next_key, row') stands) h
  ]
  | inr (row', e) ↦
      let there = is_answered from to s row' e in same_again from to s s row row' there there h
]

-- ===== src/Operator/Budget.antt =====
-- How often a budget allows an attempt, whatever else happens in between.
use azd_santa.Base.{
  ℕ, ◌+◌, ◌-◌, ◌≤◌, String, Bool, true, not, ◌||◌, ◌≡◌, refl, ap, Option, some, List, [], ◌∷◌,
  arith,
}
use azd_santa.Base.{ltb, leb, All, if_cases}
use azd_santa.Base.Text.{decimal}
use azd_santa.Admission.Redis.{Redis, Reading, missing, wrong_type, text, CounterLaws}
use azd_santa.Admission.Scripts.{Site, guard}
use azd_santa.Operator.Claims.{is_count_text, counted_from, within_budget, budget}

-- what the key of a budget has counted
unfoldable pub used : Reading → ℕ
used missing = 0
used wrong_type = 0
used (text v) = decimal v

abbrev pub one_if : Option Bool → ℕ
one_if (some true) = 1
one_if other = 0

module _ (R : Redis) (site : Site) (key : String) (maximum seconds : ℕ) where
  -- The attempts that are allowed, with a change of the store before each.
  unfoldable pub allowed : List (R.Store → R.Store) → R.Store → ℕ
  allowed [] s = 0
  allowed (change ∷ changes) s =
      let o = budget R site key maximum seconds (change s) in one_if o.0 + allowed changes o.1

  module _ (laws : CounterLaws R key) where
    -- an attempt that is allowed takes from what is left, and no attempt gives back
    abbrev Spends : R.Store → Option Bool × R.Store → Type 0
    Spends s o = one_if o.0 + (maximum - used (R.get key o.1)) ≤ maximum - used (R.get key s)

    counted_from-Spends :
        (s : R.Store) (r : Reading)
        → R.get key s ≡ r
        → Spends s (within_budget R site maximum (counted_from R site key seconds maximum s r))
    unfolding counted_from used decimal
    counted_from-Spends s missing there = rw (laws.get-set_ex seconds s, there) (ground arith)
    counted_from-Spends s wrong_type there = omega arith
    counted_from-Spends s (text v) there =
        if_cases (λ (o : Option ℕ × R.Store). Spends s (within_budget R site maximum o))
          (not (is_count_text v) || ltb (decimal v) 1) (λ _. omega arith)
          λ good.
            if_cases (λ (o : Option ℕ × R.Store). Spends s (within_budget R site maximum o))
              (leb maximum (decimal v)) (λ full. ground arith)
              λ room.
                let (t, counts, more) = laws.get-incr v s there (ground arith) in
                rw (counts, there) (ground (arith, more))

    budget-Spends : (s : R.Store) → Spends s (budget R site key maximum seconds s)
    unfolding budget
    budget-Spends s =
        if_cases (Spends s) (guard R site s) (λ _. counted_from-Spends s (R.get key s) refl)
          (λ _. omega arith)

    -- A budget allows at most as many attempts as it has left, and so at most `maximum`, over any
    -- number of attempts, whatever other requests do to the store in between. They and the clock
    -- leave the key of the budget.
    pub allowed_bound :
        (changes : List (R.Store → R.Store)) (s : R.Store)
        → All (λ change. (t : R.Store) → R.get key (change t) ≡ R.get key t) changes
        → allowed changes s ≤ maximum - used (R.get key s)
    unfolding allowed
    allowed_bound [] s h = omega arith
    allowed_bound (change ∷ changes) s (same, h) =
        let o = budget R site key maximum seconds (change s) in
        omega
          (arith, budget-Spends (change s), allowed_bound changes o.1 h, ap (λ r. used r) (same s))

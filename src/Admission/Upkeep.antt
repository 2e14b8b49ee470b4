-- ===== src/Admission/Upkeep.antt =====
-- The scripts `RECONCILE`, `CHECK` and `EMPTY` of experiments/server/santa_admission.py.
use azd_santa.Base.{
  ℕ, zero, suc, ◌+◌, ◌≤◌, ◌<◌, String, Bool, true, false, not, ◌&&◌, ◌||◌, ◌≡◌, ◌⊎◌, refl, ◌∙◌,
  Option, none, some, arith,
}
use azd_santa.Base.{
  ◌==◌, ◌=?◌, string_eq, length, eq_self, if_cases, Bool-cases, inl, inr, if◌then◌else◌,
}
use azd_santa.Admission.Redis.{Redis, RedisLaws}
use azd_santa.Admission.Scripts.{Site, guard, validate, count_of}

module _ (R : Redis) (site : Site) where
  -- the loop of `RECONCILE` over `k` slots from `i` on
  unfoldable pub clear : ℕ → ℕ → R.Store → R.Store
  clear zero i s = s
  clear (suc k) i s = clear k (suc i) (R.hdel site.state (R.tostring i) s)

  -- `RECONCILE`
  unfoldable pub reconcile : String → R.Store → Option ℕ × R.Store
  reconcile generation s =
      if not (guard R site s && validate R site s)
      then (none, s)
      else (some 1, R.hset site.state "generation" generation (clear site.config.capacity 0 s))

  -- `GLOBAL_COUNTER`
  unfoldable pub global_ok : R.Store → Bool
  global_ok s =
      (R.type_of site.global s == "none" || R.type_of site.global s == "string")
      && elim (count_of R site site.global site.config.global_max s) [
        | none ↦ false
        | some _ ↦ true
      ]

  -- `EMPTY` if `require_empty`, else `CHECK`; neither writes
  unfoldable pub check : Bool → R.Store → Option ℕ
  check require_empty s =
      if not (guard R site s && validate R site s && global_ok s)
      then none
      else if require_empty && not (length (R.hkeys site.state s) =? 2)
      then none
      else some 1

module _ (R : Redis) (laws : RedisLaws R) (site : Site) where
  clear-none :
      (k i : ℕ) (f : String) (s : R.Store)
      → R.hget site.state f s ≡ none
      → R.hget site.state f (clear R site k i s) ≡ none
  unfolding clear
  clear-none zero i f s h = h
  clear-none (suc k) i f s h =
      clear-none k (suc i) f _ (ground (arith, laws.hget-hdel site.state f (R.tostring i) s))

  clear-cleared :
      (k i j : ℕ) (s : R.Store)
      → i ≤ j
      → j < i + k
      → R.hget site.state (R.tostring j) (clear R site k i s) ≡ none
  unfolding clear
  clear-cleared zero i j s low high = absurd (omega arith)
  clear-cleared (suc k) i j s low high = elim (Bool-cases (i =? j)) [
    | inl same ↦
        let is : i ≡ j = ground arith in
        clear-none k (suc i) (R.tostring j) _
          (ground (arith, is, laws.hget-hdel site.state (R.tostring j) (R.tostring i) s))
    | inr other ↦ clear-cleared k (suc i) j _ (ground arith) (omega arith)
  ]

  -- A reconciliation that succeeds frees every slot below the capacity and sets the generation;
  -- one that fails changes nothing. No slot is named like the generation.
  pub reconcile_effect :
      (generation : String) (s : R.Store)
      → ((j : ℕ) → (R.tostring j == "generation") ≡ false)
      → let o = reconcile R site generation s in
        ((o.0 ≡ some 1)
          × (R.hget site.state "generation" o.1 ≡ some generation)
          × ((j : ℕ) → j < site.config.capacity → R.hget site.state (R.tostring j) o.1 ≡ none))
        ⊎ ((o.0 ≡ none) × (o.1 ≡ s))
  unfolding reconcile
  reconcile_effect generation s apart =
      if_cases Effect (not (guard R site s && validate R site s)) (λ _. inr (refl, refl))
        λ _. inl (
          refl,
          laws.hget-hset _ _ _ _ _ ∙ rw (eq_self {A = String} "generation") refl,
          λ j small.
              laws.hget-hset _ _ _ _ _
              ∙ rw (apart j) (clear-cleared site.config.capacity 0 j s (omega arith) (omega arith)),
        )
    where
      Effect : Option ℕ × R.Store → Type 0
      Effect o =
          ((o.0 ≡ some 1)
            × (R.hget site.state "generation" o.1 ≡ some generation)
            × ((j : ℕ) → j < site.config.capacity → R.hget site.state (R.tostring j) o.1 ≡ none))
          ⊎ ((o.0 ≡ none) × (o.1 ≡ s))

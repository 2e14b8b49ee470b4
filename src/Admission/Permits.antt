-- ===== src/Admission/Permits.antt =====
-- What the scripts do to the permits in the store.
use azd_santa.Base.{Bool, eq_self}
use azd_santa.Base.{
  ℕ, zero, suc, String, true, false, not, ◌&&◌, ◌≡◌, ◌≢◌, ◌⊎◌, refl, sym, ◌∙◌, Option, none, some,
  arith,
}
use azd_santa.Base.{◌==◌, string_eq, ◌=?◌, leb, Option-cases, inl, inr, if_cases, if◌then◌else◌}
use azd_santa.Admission.Redis.{Redis, RedisLaws}
use azd_santa.Admission.Scripts.{
  Site, Reply, refused, granted, guard, validate, count_of, bump, is_free, free_from, grant,
  count_and_grant, acquire, release, is_value,
}

module _ (R : Redis) (site : Site) where
  -- The effect of a script on the fields of the state: a granted permit was free and holds the
  -- token, and nothing else changes.
  unfoldable pub Permits : String → R.Store → Option Reply × R.Store → Type 0
  Permits token s (some (granted slot), t) =
      (R.hget site.state slot s ≡ none)
      × ((f : String)
          → R.hget site.state f t ≡ (if f == slot then some token else R.hget site.state f s))
  Permits token s (_, t) = (f : String) → R.hget site.state f t ≡ R.hget site.state f s

some-injective {ℓ} : {A : Type ℓ} {a b : A} → some a ≡ some b → a ≡ b
some-injective h = cc

module _ (R : Redis) (laws : RedisLaws R) (site : Site) where
  hget-bump :
      (key f : String) (n : ℕ) (s : R.Store)
      → (site.state == key) ≡ false
      → R.hget site.state f (bump R site key n s) ≡ R.hget site.state f s
  hget-bump key f n s other =
      if_cases (λ t. R.hget site.state f t ≡ R.hget site.state f s) (n =? 0)
        (λ _. laws.hget-set_ex _ _ _ _ _ _ other) (λ _. laws.hget-incr _ _ _ _ other)

  is_free-none :
      (i : ℕ) (s : R.Store) → is_free R site i s ≡ true → R.hget site.state (R.tostring i) s ≡ none
  is_free-none i s h = ground arith

  free_from-free :
      (k i j : ℕ) (s : R.Store)
      → free_from R site k i s ≡ some j
      → R.hget site.state (R.tostring j) s ≡ none
  unfolding free_from
  free_from-free zero i j s = λ h. cc
  free_from-free (suc k) i j s =
      if_cases (λ o. o ≡ some j → R.hget site.state (R.tostring j) s ≡ none) (is_free R site i s)
        (λ free h. let is : i ≡ j = some-injective h in rw (← is) (is_free-none i s free))
        (λ _. free_from-free k (suc i) j s)

  bump-bump :
      (source credential f : String) (n m : ℕ) (s : R.Store)
      → (site.state == source) ≡ false
      → (site.state == credential) ≡ false
      → R.hget site.state f (bump R site credential m (bump R site source n s))
        ≡ R.hget site.state f s
  bump-bump source credential f n m s os oc =
      hget-bump credential f m (bump R site source n s) oc ∙ hget-bump source f n s os

  module _ (source credential token : String) (os : (site.state == source) ≡ false)
      (oc : (site.state == credential) ≡ false) where
    grant-Permits :
        (n m : ℕ) (s : R.Store)
        → Permits R site token s (grant R site source credential n m token s)
    unfolding Permits grant
    grant-Permits n m s =
        if_cases (Permits R site token s) (leb site.config.source_max n) (λ _ f. refl)
          λ _.
            if_cases (Permits R site token s) (leb site.config.credential_max m) (λ _ f. refl)
              λ _. elim (Option-cases (free_from R site site.config.capacity 0 s)) [
                | inl full ↦ rw full (λ f. refl)
                | inr (i, found) ↦ rw found (
                  free_from-free site.config.capacity 0 i s found,
                  λ f.
                      laws.hget-hset _ _ _ _ _
                      ∙ rw (bump-bump source credential f n m s os oc) refl,
                )
              ]

    Permits-framed :
        (s t : R.Store) (o : Option Reply × R.Store)
        → ((f : String) → R.hget site.state f t ≡ R.hget site.state f s)
        → Permits R site token t o
        → Permits R site token s o
    unfolding Permits
    Permits-framed s t (none, u) same h = λ f. h f ∙ same f
    Permits-framed s t (some (refused n), u) same h = λ f. h f ∙ same f
    Permits-framed s t (some (granted slot), u) same (free, h) =
        (sym (same slot) ∙ free, λ f. h f ∙ rw (same f) refl)

    module _ (og : (site.state == site.global) ≡ false) where
      count_and_grant-Permits :
          (k n m : ℕ) (s : R.Store)
          → Permits R site token s (count_and_grant R site source credential k n m token s)
      unfolding Permits count_and_grant
      count_and_grant-Permits k n m s =
          if_cases (Permits R site token s) (leb site.config.global_max k) (λ _ f. refl)
            λ _.
              Permits-framed s (bump R site site.global k s) _ (λ f. hget-bump site.global f k s og)
                (grant-Permits n m _)

      -- A permit is granted only in a slot that was free, which then holds the token of the
      -- request. No other field of the admission state changes, and none at all when the request
      -- is refused or the script fails. The keys of the counters are not the key of the state.
      pub acquire-Permits :
          (s : R.Store) → Permits R site token s (acquire R site source credential token s)
      unfolding Permits acquire
      acquire-Permits s =
          if_cases (Permits R site token s) (not (guard R site s && validate R site s))
            (λ _ f. refl)
            λ _. elim (Option-cases (count_of R site site.global site.config.global_max s)) [
              | inl bad ↦ rw bad (λ f. refl)
              | inr (k, is₁) ↦
                  elim (Option-cases (count_of R site source site.config.source_max s)) [
                    | inl bad ↦ rw (is₁, bad) (λ f. refl)
                    | inr (n, is₂) ↦
                        elim (Option-cases
                          (count_of R site credential site.config.credential_max s)) [
                            | inl bad ↦ rw (is₁, is₂, bad) (λ f. refl)
                            | inr (m, is₃) ↦ rw (is₁, is₂, is₃) (count_and_grant-Permits k n m s)
                          ]
                  ]
            ]

  -- A release takes a permit away exactly if the guard and the state hold and the slot holds the
  -- caller's own token, and then that permit only. In every other case the store stays as it is.
  pub release_effect :
      (slot token : String) (s : R.Store)
      → let o = release R site slot token s in
        let held = guard R site s && validate R site s in
        ((o.0 ≡ some 1)
          × (held ≡ true)
          × (R.hget site.state slot s ≡ some token)
          × ((f : String)
              → R.hget site.state f o.1 ≡ (if f == slot then none else R.hget site.state f s)))
        ⊎ ((o.0 ≢ some 1) × (o.1 ≡ s) × ((held ≡ false) ⊎ (R.hget site.state slot s ≢ some token)))
  unfolding release
  release_effect slot token s =
      if_cases Effect (not (guard R site s && validate R site s))
        (λ bad. inr (λ h. cc, refl, inl (not-true _ bad)))
        λ good.
          if_cases Effect (is_value token (R.hget site.state slot s))
            (λ own.
              inl (refl, not-false _ good, is_value-some token _ own, λ f. laws.hget-hdel _ _ _ _))
            (λ other. inr (λ h. ground arith, refl, inr (is_value-other token _ other)))
    where
      Effect : Option ℕ × R.Store → Type 0
      Effect o =
          ((o.0 ≡ some 1)
            × ((guard R site s && validate R site s) ≡ true)
            × (R.hget site.state slot s ≡ some token)
            × ((f : String)
                → R.hget site.state f o.1 ≡ (if f == slot then none else R.hget site.state f s)))
          ⊎ ((o.0 ≢ some 1)
              × (o.1 ≡ s)
              × (((guard R site s && validate R site s) ≡ false)
                  ⊎ (R.hget site.state slot s ≢ some token)))

      not-true : (b : Bool) → not b ≡ true → b ≡ false
      not-true true h = cc
      not-true false h = refl

      not-false : (b : Bool) → not b ≡ false → b ≡ true
      not-false true h = refl
      not-false false h = cc

      is_value-some : (t : String) (o : Option String) → is_value t o ≡ true → o ≡ some t
      is_value-some t none h = cc
      is_value-some t (some v) h = ground arith

      is_value-other : (t : String) (o : Option String) → is_value t o ≡ false → o ≢ some t
      is_value-other t none h e = cc
      is_value-other t (some v) h e = let same : v ≡ t = cc in cc (rw (same, eq_self t) at h)

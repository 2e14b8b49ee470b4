-- ===== src/Runtime/Running.antt =====
-- `Runtime.start` and `supervise` keep the law of Order; the recorded generation and the checks.
use azd_santa.Base.{
  ℕ, String, true, false, not, Option, none, some, List, [], ◌∷◌, ◌≡◌, refl, inl, arith,
}
use azd_santa.Base.{◌==◌, contains, All, string_eq, if_cases}
use azd_santa.Base.Dict.{Dict}
use azd_santa.Runtime.Docker.{Host, Setup, Event, Generation}
use azd_santa.Runtime.Machine.{
  Outcome, Machine, pure, checked_call, ensure_running, fail_if, or_fail, demand,
}
use azd_santa.Runtime.Rows.{apps, dependencies, every, has_item}
use azd_santa.Runtime.Containers.{values, pick, inspect, start_ids}
use azd_santa.Runtime.Admission.{
  generation_fits, accept_generation, container_generation, backing_data,
}
use azd_santa.Runtime.Lifecycle.{
  close_admission, take_over, raise_dependencies, database_ready, authorize, rendered_database,
  database_environment,
}
use azd_santa.Runtime.Keeping.{
  Assertion, Holds, Ends, Triple, Keeps, Stable, bind, bind-Keeps, or_fail-Keeps, demand-Keeps,
  ensure_running-Keeps, call-Keeps, wait-Keeps,
}
use azd_santa.Runtime.Steady.{inspect-Keeps, backing_data-Keeps, database_ready-Keeps}
use azd_santa.Runtime.Supervision.{stop_event-Keeps, start_ids-Keeps}
use azd_santa.Runtime.Order.{Recorded, Stage, Stage-Stable}
use azd_santa.Runtime.Picking.{has_item-contains, lookup-every, pick-All}

module _ (H : Host) (S : Setup) where
  -- a recorded generation that fits the selection
  abbrev pub Fits : Dict String String → Generation → Type 0
  Fits selected g =
      (t : List Event) × (H.generation t ≡ some g) × (generation_fits H S selected g ≡ true)

  pub Fits-Recorded :
      (selected : Dict String String) (g : Generation)
      → Fits selected g
      → (id : String) → contains (values g.container_ids) id ≡ true
      → Recorded H id
  Fits-Recorded selected g (t, there, fit) id h = (t, g, there, h)

  pub contains-All :
      (P : String → Type 0) (ids : List String)
      → ((id : String) → contains ids id ≡ true → P id)
      → All P ids
  contains-All P [] h = tt
  contains-All P (id ∷ ids) h =
      (h id (ground arith), contains-All P ids (λ j there. h j (ground (arith, there))))

  generation_fits-same :
      (selected : Dict String String) (g : Generation)
      → generation_fits H S selected g ≡ true
      → every (has_item ◌==◌ g.container_ids) selected ≡ true
  unfolding generation_fits
  generation_fits-same selected g h = ground arith

  pub selected-Recorded :
      (selected : Dict String String) (g : Generation)
      → Fits selected g
      → (ns : List String) {ids : List String} → pick selected ns ≡ some ids
      → All (Recorded H) ids
  selected-Recorded selected g f ns =
      pick-All (Recorded H) selected
        (λ n v.
          lookup-every (has_item ◌==◌ g.container_ids) (Recorded H)
            (λ k w h. Fits-Recorded selected g f w (has_item-contains g.container_ids k w h))
            selected (generation_fits-same selected g f.2) n)
        ns

  accept-Fits :
      (K : Assertion) (selected : Dict String String) (s : Machine)
      → Holds K s
      → (o : Option Generation) → H.generation s.trace ≡ o
      → Ends (λ g t b c d. K t b c d × Fits selected g) K (accept_generation H S selected o s)
  unfolding accept_generation
  accept-Fits K selected s h none there = h
  accept-Fits K selected s h (some g) there =
      bind (K) (λ _ t b c d. K t b c d × (generation_fits H S selected g ≡ true))
        (λ g t b c d. K t b c d × Fits selected g) K
        (fail_if (not (generation_fits H S selected g))) _
        (λ u k.
          if_cases
            (λ (o : Outcome (Unit {0})).
              Ends (λ _ t b c d. K t b c d × (generation_fits H S selected g ≡ true)) K (o, u))
            (not (generation_fits H S selected g)) (λ _. k) (λ fit. (k, ground arith)))
        (λ _ u (k, fit). (k, (s.trace, there, fit))) s h

  container_generation-Fits :
      (K : Assertion) (selected : Dict String String)
      → Triple K (container_generation H S selected) (λ g t b c d. K t b c d × Fits selected g) K
  unfolding container_generation
  container_generation-Fits K selected s h = accept-Fits K selected s h (H.generation s.trace) refl

  picked :
      (K : Assertion) (P : List String → Type 0) (o : Option (List String))
      → ((ids : List String) → o ≡ some ids → P ids)
      → Triple K (or_fail o) (λ ids t b c d. K t b c d × P ids) K
  picked K P none hp s h = h
  picked K P (some ids) hp s h = (h, hp ids refl)

  close_admission-Keeps :
      (selected : Dict String String) (g : Generation)
      → Fits selected g
      → Keeps (Stage H S []) (close_admission H S selected)
  unfolding close_admission
  close_admission-Keeps selected g f =
      let K : Assertion = Stage H S [] in
      bind K (λ ids t b c d. K t b c d × All (Recorded H) ids) (λ _. K) K
        (or_fail (pick selected apps)) _
        (picked K (All (Recorded H)) (pick selected apps)
          (λ ids. selected-Recorded selected g f apps))
        λ ids s (k, own).
          bind-Keeps K (checked_call H (Event.stop ids)) (λ _. pure tt)
            (stop_event-Keeps H S [] ids false own) (λ r u k. k) s k

  pub take_over-Keeps : Keeps (Stage H S []) (take_over H S)
  unfolding take_over
  take_over-Keeps =
      let K : Assertion = Stage H S [] in
      bind-Keeps K ensure_running _ (ensure_running-Keeps K) λ _.
        bind-Keeps K (inspect H S false) _ (inspect-Keeps H S K (Stage-Stable H S []) false)
          λ selected.
            bind K (λ g t b c d. K t b c d × Fits selected g) (λ _. K) K
              (container_generation H S selected) _ (container_generation-Fits K selected)
              λ g s (h, f).
                bind-Keeps K (authorize (values g.container_ids))
                  (λ _. close_admission H S selected)
                  (λ u k. (
                    k.0,
                    k.1,
                    contains-All (Recorded H) (values g.container_ids) (Fits-Recorded selected g f),
                    k.3,
                    k.4,
                  ))
                  (λ _. close_admission-Keeps selected g f) s h

  pub raise_dependencies-Keeps : (rounds : ℕ) → Keeps (Stage H S []) (raise_dependencies H S rounds)
  unfolding raise_dependencies string_eq
  raise_dependencies-Keeps rounds =
      let K : Assertion = Stage H S [] in
      let stable : Stable H K = Stage-Stable H S [] in
      bind-Keeps K (checked_call H (Event.probe "compose-config")) _
        (call-Keeps K H stable (Event.probe "compose-config") false false refl)
        λ _. bind-Keeps K (backing_data H S) _ (backing_data-Keeps H S K stable) λ _.
          bind-Keeps K (demand H.kernel_ready) _ (demand-Keeps K H.kernel_ready) λ _.
            bind-Keeps K (start_ids H S "dependencies" dependencies) _
              (start_ids-Keeps H S [] "dependencies" dependencies (inl refl))
              λ _.
                bind-Keeps K (rendered_database H) _
                  (λ s. or_fail-Keeps K (database_environment H s) s)
                  λ environment.
                    wait-Keeps K H stable rounds "database" (database_ready H environment)
                      (database_ready-Keeps H S K stable environment)

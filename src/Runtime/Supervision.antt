-- ===== src/Runtime/Supervision.antt =====
-- `Runtime.start`, `stop` and `supervise` keep the law of Order.
use azd_santa.Base.{
  String, Bool, true, false, not, ◌&&◌, ◌||◌, List, [], ◌∷◌, ◌≡◌, refl, subst, arith, ◌⊎◌, inl, inr,
  some,
}
use azd_santa.Base.{◌==◌, contains, All, string_eq, if_cases}
use azd_santa.Base.Dict.{Dict}
use azd_santa.Runtime.Docker.{Host, Setup, Event, Reply}
use azd_santa.Runtime.Machine.{
  Outcome, call, checked_call, perform, ensure_running, fail_if, or_fail, demand,
}
use azd_santa.Runtime.Rows.{every, dependencies}
use azd_santa.Runtime.Containers.{
  pick, words_of, rows_of, single_row, is_helper, clear_helper, forget_helper, drop_name, stop_each,
  inspect, start_ids, stop_helpers, still_there, stop_containers, stop_present, stop_authorized,
  stop,
}
use azd_santa.Runtime.Keeping.{
  Stable, Assertion, Ends, Triple, Keeps, bind, bind-Keeps, pure-Keeps, or_fail-Keeps,
  fail_if-Keeps, demand-Keeps, ensure_running-Keeps, performed-Keeps, call-Keeps, always-Keeps,
}
use azd_santa.Runtime.Told.{Told, IsTold, call-Told, read-Told, tested-Told}
use azd_santa.Runtime.Showing.{Shown, IsOneOf, inspect-Shown, pick-IsOneOf}
use azd_santa.Runtime.Order.{store_checks, passed, Recorded, Drawn, Stage, Stage-add, Stage-Stable}

module _ (H : Host) (S : Setup) (labels : List String) where
  pub stop_event-Keeps :
      (ids : List String) (allow_stopping : Bool)
      → All (Recorded H) ids
      → Keeps (Stage H S labels) (call H (Event.stop ids) false allow_stopping)
  stop_event-Keeps ids a own = performed-Keeps (Stage H S labels) H (Event.stop ids) false a (
      unfold perform in
      λ s. Stage-add H S labels (Event.stop ids) s.trace s.stopping s.cleanup_ids s.helpers own)

  -- with no request to stop
  abbrev pub Going : Assertion
  Going t b c d = Stage H S labels t b c d × (b ≡ false)

  pub ensure-Going : Triple (Stage H S labels) ensure_running (λ _. Going) (Stage H S labels)
  unfolding ensure_running
  ensure-Going s h =
      if_cases (λ (o : Outcome (Unit {0})). Ends (λ _. Going) (Stage H S labels) (o, s)) s.stopping
        (λ _. h) (λ off. (h, off))

  start-Permitted :
      (label : String) (ids : List String)
      → All (IsOneOf H S dependencies) ids ⊎ (labels ≡ store_checks)
      → Triple Going (perform H (Event.start label ids)) (λ _. Stage H S labels) (Stage H S labels)
  unfolding perform
  start-Permitted label ids enough s (h, off) =
      Stage-add H S labels (Event.start label ids) s.trace s.stopping s.cleanup_ids s.helpers
        (
          ground (arith, off, h.1),
          elim enough [
            | inl few ↦ inl few
            | inr all ↦ inr (subst (λ ls. every (λ l. passed H l s.trace) ls ≡ true) all h.4)
          ],
        )
        h

  start_event-Keeps :
      (label : String) (ids : List String)
      → All (IsOneOf H S dependencies) ids ⊎ (labels ≡ store_checks)
      → Keeps (Stage H S labels) (checked_call H (Event.start label ids))
  unfolding call
  start_event-Keeps label ids enough =
      bind (Stage H S labels) (λ _. Going) (λ _. Stage H S labels) (Stage H S labels) ensure_running
        _ ensure-Going
        λ _.
          bind Going (λ _. Stage H S labels) (λ _. Stage H S labels) (Stage H S labels)
            (perform H (Event.start label ids)) _ (λ s. start-Permitted label ids enough s)
            λ r.
              bind-Keeps (Stage H S labels) (fail_if (r.timed_out || not r.success && not false)) _
                (fail_if-Keeps (Stage H S labels) _)
                λ _.
                  bind-Keeps (Stage H S labels) ensure_running _
                    (ensure_running-Keeps (Stage H S labels)) λ _. pure-Keeps (Stage H S labels) r

  -- what the picked containers are, if the services are dependencies
  picked-IsOneOf :
      (selected : Dict String String) (services ids : List String)
      → Shown H S selected
      → (every (contains dependencies) services ≡ true) ⊎ (labels ≡ store_checks)
      → pick selected services ≡ some ids
      → All (IsOneOf H S dependencies) ids ⊎ (labels ≡ store_checks)
  picked-IsOneOf selected services ids shown (inl few) e =
      inl (pick-IsOneOf H S selected dependencies shown services few e)
  picked-IsOneOf selected services ids shown (inr all) e = inr all

  pub start_ids-Keeps :
      (label : String) (services : List String)
      → (every (contains dependencies) services ≡ true) ⊎ (labels ≡ store_checks)
      → Keeps (Stage H S labels) (start_ids H S label services)
  unfolding start_ids
  start_ids-Keeps label services enough =
      let K : Assertion = Stage H S labels in
      let stable : Stable H K = Stage-Stable H S labels in
      bind-Keeps K ensure_running _ (ensure_running-Keeps K) λ _.
        bind-Keeps K (demand H.binding_holds) _ (demand-Keeps K H.binding_holds) λ _.
          bind K (λ found t b c d. K t b c d × Shown H S found) (λ _. K) K (inspect H S false) _
            (inspect-Shown H S K stable false)
            λ selected s (h, shown).
              bind K (λ ids t b c d. K t b c d × (pick selected services ≡ some ids)) (λ _. K) K
                (or_fail (pick selected services)) _ (read-Told H K stable (pick selected services))
                (λ ids u (k, picked).
                  bind-Keeps K (checked_call H (Event.start label ids)) _
                    (start_event-Keeps label ids
                      (picked-IsOneOf selected services ids shown enough picked))
                    (λ r v g. g) u k)
                s h

  clear_helper-Keeps :
      (name : String) (shown : Bool) (reply : Reply)
      → Drawn H name
      → IsTold H (Event.inspect_helper name) reply
      → Keeps (Stage H S labels) (clear_helper H S name shown reply.output)
  unfolding clear_helper
  clear_helper-Keeps name true reply drawn (t, told) =
      let K : Assertion = Stage H S labels in
      let stable : Stable H K = Stage-Stable H S labels in
      bind K (λ rows t b c d. K t b c d × (rows_of reply.output ≡ some rows)) (λ _. K) K
        (or_fail (rows_of reply.output)) _ (read-Told H K stable (rows_of reply.output))
        λ rows s (h, read).
          bind K (λ row t b c d. K t b c d × (single_row H S rows ≡ some row)) (λ _. K) K
            (or_fail (single_row H S rows)) _ (read-Told H K stable (single_row H S rows))
            (λ row u (k, one).
              bind K (λ _ t b c d. K t b c d × (is_helper H S name row ≡ true)) (λ _. K) K
                (fail_if (not (is_helper H S name row))) _
                (tested-Told H K stable (is_helper H S name row))
                (λ _ v (g, own).
                  bind-Keeps K (call H (Event.stop_helper row.id) false true) _
                    (performed-Keeps K H (Event.stop_helper row.id) false true (
                      unfold perform in
                      λ w.
                        Stage-add H S labels (Event.stop_helper row.id) w.trace w.stopping
                          w.cleanup_ids w.helpers
                          (
                            t,
                            name,
                            rows,
                            row,
                            drawn,
                            subst (λ (x : Reply). rows_of x.output ≡ some rows) told read,
                            one,
                            own,
                            refl,
                          )))
                    (λ r w f. f) v g)
                u k)
            s h
  clear_helper-Keeps name false reply drawn told =
      let K : Assertion = Stage H S labels in
      bind-Keeps K (call H Event.list_names false true) _
        (call-Keeps K H (Stage-Stable H S labels) Event.list_names false true refl)
        λ r.
          bind-Keeps K (or_fail (words_of r.output)) _ (or_fail-Keeps K _)
            λ found. fail_if-Keeps K _

  drop_name-All :
      (P : String → Type 0) (name : String) (ns : List String)
      → All P ns
      → All P (drop_name H S name ns)
  drop_name-All P name [] h = tt
  drop_name-All P name (n ∷ ns) (one, more) =
      if_cases (All P) (n == name) (λ _. more) (λ _. (one, drop_name-All P name ns more))

  forget_helper-Keeps : (name : String) → Keeps (Stage H S labels) (forget_helper H S name)
  forget_helper-Keeps name s h = (h.0, h.1, h.2, drop_name-All (Drawn H) name s.helpers h.3, h.4)

  stop_each-Keeps :
      (names : List String) → All (Drawn H) names → Keeps (Stage H S labels) (stop_each H S names)
  unfolding stop_each
  stop_each-Keeps [] drawn = λ s h. h
  stop_each-Keeps (name ∷ rest) (one, drawn) =
      let K : Assertion = Stage H S labels in
      let e : Event = Event.inspect_helper name in
      bind K (Told H K (Stage-Stable H S labels) e) (λ _. K) K (call H e true true) _
        (call-Told H K (Stage-Stable H S labels) e true true refl)
        λ r s (h, told).
          bind-Keeps K (clear_helper H S name r.success r.output) _
            (clear_helper-Keeps name r.success r one told)
            (λ _.
              bind-Keeps K (forget_helper H S name) _ (forget_helper-Keeps name)
                λ _. stop_each-Keeps rest drawn)
            s h

  pub stop_helpers-Keeps : Keeps (Stage H S labels) (stop_helpers H S)
  unfolding stop_helpers
  stop_helpers-Keeps s h = stop_each-Keeps s.helpers h.3 s h

  still_there-All :
      (P : String → Type 0) (ids current : List String)
      → All P ids
      → All P (still_there H S ids current)
  still_there-All P [] current own = tt
  still_there-All P (id ∷ ids) current (own, more) =
      if_cases (All P) (contains current id) (λ _. (own, still_there-All P ids current more))
        (λ _. still_there-All P ids current more)

  stop_containers-Keeps :
      (ids : List String)
      → All (Recorded H) ids
      → Keeps (Stage H S labels) (stop_containers H S ids)
  unfolding stop_containers
  stop_containers-Keeps [] own = λ s h. h
  stop_containers-Keeps (id ∷ ids) own =
      bind-Keeps (Stage H S labels) (call H (Event.stop (id ∷ ids)) false true) _
        (stop_event-Keeps (id ∷ ids) true own) λ r s h. h

  stop_present-Keeps :
      (ids : List String) → All (Recorded H) ids → Keeps (Stage H S labels) (stop_present H S ids)
  unfolding stop_present
  stop_present-Keeps [] own = λ s h. h
  stop_present-Keeps (id ∷ ids) own =
      let K : Assertion = Stage H S labels in
      bind-Keeps K (call H Event.list_all false true) _
        (call-Keeps K H (Stage-Stable H S labels) Event.list_all false true refl)
        λ r. bind-Keeps K (or_fail (words_of r.output)) _ (or_fail-Keeps K _) λ current.
          stop_containers-Keeps (still_there H S (id ∷ ids) current)
            (still_there-All (Recorded H) (id ∷ ids) current own)

  pub stop-Keeps : Keeps (Stage H S labels) (stop H S)
  unfolding stop stop_authorized
  stop-Keeps =
      always-Keeps (Stage H S labels) (stop_helpers H S) (stop_authorized H S) stop_helpers-Keeps
        λ s h. stop_present-Keeps s.cleanup_ids h.2 s h

-- ===== src/Runtime/Checking.antt =====
-- A helper of `Runtime.oneoff` that succeeds is a check that was passed.
use azd_santa.Base.{String, Bool, true, false, not, ◌&&◌, ◌||◌, List, ◌∷◌, ◌≡◌, refl, arith}
use azd_santa.Base.{eq_self, string_eq, if_cases}
use azd_santa.Runtime.Docker.{Host, Setup, Event, Reply}
use azd_santa.Runtime.Machine.{
  Outcome, Machine, ◌>>=◌, pure, call, checked_call, perform, ensure_running, fail_if, demand,
}
use azd_santa.Runtime.Containers.{inspect, stop_helpers, call_helper, run_helper, oneoff}
use azd_santa.Runtime.Keeping.{
  finally-Ends, Assertion, Ends, Triple, bind, weaken, bind-Keeps, demand-Keeps,
  ensure_running-Keeps,
}
use azd_santa.Runtime.Steady.{inspect-Keeps}
use azd_santa.Runtime.Supervision.{Going, ensure-Going, stop_helpers-Keeps}
use azd_santa.Runtime.Order.{is_pass, passed, Drawn, Stage, Stage-add, Stage-Stable}

module _ (H : Host) (S : Setup) where
  -- the helper of a check
  module _ (ls : List String) (label : String) where
    -- a reply that counts as a success comes with the check passed
    abbrev Heard : Reply → Assertion
    Heard r t b c d =
        Stage H S ls t b c d × ((not (r.success && not r.timed_out) || passed H label t) ≡ true)

    perform-Heard :
        (name : String)
        → Triple (Going H S ls) (perform H (Event.helper name label)) Heard (Stage H S ls)
    unfolding perform passed is_pass
    perform-Heard name s (h, off) = (
      Stage-add H S ls (Event.helper name label) s.trace s.stopping s.cleanup_ids s.helpers
          (ground (arith, off, h.1)) h,
      ground (arith, eq_self label),
    )

    pub forget :
        (t : List Event) (b : Bool) (c d : List String)
        → Stage H S (label ∷ ls) t b c d
        → Stage H S ls t b c d
    forget t b c d (lawful, flag, owned, drawn, checks) = (lawful, flag, owned, drawn, ground arith)

    fail_if-Heard :
        (r : Reply)
        → Triple
            (Heard r)
            (fail_if (r.timed_out || not r.success && not false))
            (λ _. Stage H S (label ∷ ls))
            (Stage H S ls)
    fail_if-Heard r s (h, heard) =
        if_cases
          (λ (o : Outcome (Unit {0})). Ends (λ _. Stage H S (label ∷ ls)) (Stage H S ls) (o, s))
          (r.timed_out || not r.success && not false) (λ _. h)
          (λ good. (h.0, h.1, h.2, h.3, ground (arith, h.4)))

    fail_after :
        (r : Reply)
        → Triple
            (Stage H S (label ∷ ls))
            (ensure_running >>= λ _. pure r)
            (λ _. Stage H S (label ∷ ls))
            (Stage H S ls)
    fail_after r s h =
        weaken (λ _ t b c d k. k) forget ((ensure_running >>= λ _. pure r) s)
          (bind-Keeps (Stage H S (label ∷ ls)) ensure_running (λ _. pure r)
            (ensure_running-Keeps (Stage H S (label ∷ ls))) (λ _ u k. k) s h)

    helper_reply :
        (name : String)
        → Triple
            (Stage H S ls)
            (checked_call H (Event.helper name label))
            (λ _. Stage H S (label ∷ ls))
            (Stage H S ls)
    unfolding call
    helper_reply name =
        let K : Assertion = Stage H S ls in
        let L : Assertion = Stage H S (label ∷ ls) in
        bind K (λ _. Going H S ls) (λ _. L) K ensure_running _ (ensure-Going H S ls)
          λ _.
            bind (Going H S ls) Heard (λ _. L) K (perform H (Event.helper name label)) _
              (perform-Heard name)
              λ r.
                bind (Heard r) (λ _. L) (λ _. L) K
                  (fail_if (r.timed_out || not r.success && not false)) _ (fail_if-Heard r)
                  λ _. fail_after r

    call_helper-Ends :
        (name : String)
        → Triple
            (Stage H S ls)
            (call_helper H S label name)
            (λ _. Stage H S (label ∷ ls))
            (Stage H S ls)
    unfolding call_helper
    call_helper-Ends name =
        bind (Stage H S ls) (λ _. Stage H S (label ∷ ls)) (λ _. Stage H S (label ∷ ls))
          (Stage H S ls) (checked_call H (Event.helper name label)) (λ _. pure tt)
          (helper_reply name) (λ r s h. h)

    run_helper-Ends :
        (name : String)
        → Drawn H name
        → Triple
            (Stage H S ls)
            (run_helper H S label name)
            (λ _. Stage H S (label ∷ ls))
            (Stage H S ls)
    unfolding run_helper
    run_helper-Ends name drawn s h =
        let t : Machine = record s { helpers = name ∷ s.helpers } in
        finally-Ends (λ _. Stage H S (label ∷ ls)) (Stage H S ls) (stop_helpers H S)
          (λ _. stop_helpers-Keeps H S (label ∷ ls)) (λ _. forget) (stop_helpers-Keeps H S ls)
          (call_helper H S label name t)
          (call_helper-Ends name t (h.0, h.1, h.2, (drawn, h.3), h.4))

    pub oneoff-Ends :
        Triple (Stage H S ls) (oneoff H S label) (λ _. Stage H S (label ∷ ls)) (Stage H S ls)
    unfolding oneoff
    oneoff-Ends =
        let K : Assertion = Stage H S ls in
        let L : Assertion = Stage H S (label ∷ ls) in
        bind K (λ _. K) (λ _. L) K ensure_running _ (ensure_running-Keeps K)
          λ _.
            bind K (λ _. K) (λ _. L) K (demand H.binding_holds) _ (demand-Keeps K H.binding_holds)
              λ _.
                bind K (λ _. K) (λ _. L) K (inspect H S false) _
                  (inspect-Keeps H S K (Stage-Stable H S ls) false)
                  λ selected s. run_helper-Ends (H.fresh_name s.trace) (s.trace, refl) s

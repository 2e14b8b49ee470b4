-- ===== src/Runtime/Keeping.antt =====
-- Assertions on the trace, the stop flag, the containers that the cleanup may stop and the names of
-- the helpers, and the actions that keep them.
use azd_santa.Base.{
  ℕ, zero, suc, String, Bool, true, false, not, ◌&&◌, ◌||◌, Option, none, some, List, ◌∷◌, ◌≡◌,
  refl,
}
use azd_santa.Runtime.Docker.{Host, Event}
use azd_santa.Runtime.Machine.{
  Outcome, done, cancelled, unfinished, failed, Machine, Action, and_then, ◌>>=◌, pure, fail_if,
  or_fail, demand, ensure_running, perform, call, sleep, wait_on, wait, settled_with, finally,
  always,
}
use azd_santa.Base.{if_cases, if◌then◌else◌}

abbrev pub Assertion : Type 1
Assertion = List Event → Bool → List String → List String → Type 0

abbrev pub Holds : Assertion → Machine → Type 0
Holds K s = K s.trace s.stopping s.cleanup_ids s.helpers

-- a result in `Q`, or no result in `K`
abbrev pub Ends {ℓ} : {A : Type ℓ} → (A → Assertion) → Assertion → Outcome A × Machine → Type 0
Ends Q K (done a, s) = Holds (Q a) s
Ends Q K (cancelled, s) = Holds K s
Ends Q K (unfinished, s) = Holds K s
Ends Q K (failed, s) = Holds K s

abbrev pub Triple {ℓ} : {A : Type ℓ} → Assertion → Action A → (A → Assertion) → Assertion → Type 0
Triple P m Q K = (s : Machine) → Holds P s → Ends Q K (m s)

abbrev pub Keeps {ℓ} : {A : Type ℓ} → Assertion → Action A → Type 0
Keeps K m = Triple K m (λ _. K) K

module _ {ℓ κ} {A : Type ℓ} {B : Type κ} (Q : A → Assertion) (R : B → Assertion)
    (K : Assertion) where
  and_then-Ends :
      (f : A → Action B)
      → ((a : A) → Triple (Q a) (f a) R K)
      → (o : Outcome A × Machine) → Ends Q K o
      → Ends R K (and_then f o)
  and_then-Ends f hf (done a, s) h = hf a s h
  and_then-Ends f hf (cancelled, s) h = h
  and_then-Ends f hf (unfinished, s) h = h
  and_then-Ends f hf (failed, s) h = h

module _ {ℓ κ} {A : Type ℓ} {B : Type κ} (P : Assertion) (Q : A → Assertion) (R : B → Assertion)
    (K : Assertion) where
  pub bind :
      (m : Action A) (f : A → Action B)
      → Triple P m Q K
      → ((a : A) → Triple (Q a) (f a) R K)
      → Triple P (m >>= f) R K
  bind m f hm hf s p = and_then-Ends Q R K f hf (m s) (hm s p)

module _ {ℓ} {A : Type ℓ} where
  pub weaken :
      {Q R : A → Assertion} {K L : Assertion}
      → ((a : A) (t : List Event) (b : Bool) (c d : List String) → Q a t b c d → R a t b c d)
      → ((t : List Event) (b : Bool) (c d : List String) → K t b c d → L t b c d)
      → (o : Outcome A × Machine) → Ends Q K o
      → Ends R L o
  weaken q k (done a, s) h = q a s.trace s.stopping s.cleanup_ids s.helpers h
  weaken q k (cancelled, s) h = k s.trace s.stopping s.cleanup_ids s.helpers h
  weaken q k (unfinished, s) h = k s.trace s.stopping s.cleanup_ids s.helpers h
  weaken q k (failed, s) h = k s.trace s.stopping s.cleanup_ids s.helpers h

-- `finally` where a result has more to it than a failure.
module _ {ℓ} {A : Type ℓ} (Q : A → Assertion) (F : Assertion) where
  abbrev pub Included : Assertion → Assertion → Type 0
  Included K L = (t : List Event) (b : Bool) (c d : List String) → K t b c d → L t b c d

  settled_with-done :
      (a : A)
      → Included (Q a) F
      → (c : Outcome (Unit {0}) × Machine) → Ends (λ _. Q a) (Q a) c
      → Ends Q F (settled_with (done a) c)
  settled_with-done a sub (done _, s) h = h
  settled_with-done a sub (cancelled, s) h = sub s.trace s.stopping s.cleanup_ids s.helpers h
  settled_with-done a sub (unfinished, s) h = sub s.trace s.stopping s.cleanup_ids s.helpers h
  settled_with-done a sub (failed, s) h = sub s.trace s.stopping s.cleanup_ids s.helpers h

  settled_with-cancelled :
      (c : Outcome (Unit {0}) × Machine)
      → Ends (λ _. F) F c
      → Ends Q F (settled_with {A = A} cancelled c)
  settled_with-cancelled (done _, s) h = h
  settled_with-cancelled (cancelled, s) h = h
  settled_with-cancelled (unfinished, s) h = h
  settled_with-cancelled (failed, s) h = h

  settled_with-failed :
      (c : Outcome (Unit {0}) × Machine)
      → Ends (λ _. F) F c
      → Ends Q F (settled_with {A = A} failed c)
  settled_with-failed (done _, s) h = h
  settled_with-failed (cancelled, s) h = h
  settled_with-failed (unfinished, s) h = h
  settled_with-failed (failed, s) h = h

  pub finally-Ends :
      (cleanup : Action (Unit {0}))
      → ((a : A) → Keeps (Q a) cleanup)
      → ((a : A) → Included (Q a) F)
      → Keeps F cleanup
      → (o : Outcome A × Machine) → Ends Q F o
      → Ends Q F (finally cleanup o)
  finally-Ends cleanup hq sub hf (done a, s) h = settled_with-done a (sub a) (cleanup s) (hq a s h)
  finally-Ends cleanup hq sub hf (cancelled, s) h = settled_with-cancelled (cleanup s) (hf s h)
  finally-Ends cleanup hq sub hf (unfinished, s) h = h
  finally-Ends cleanup hq sub hf (failed, s) h = settled_with-failed (cleanup s) (hf s h)

-- not what is done to the containers: started or stopped
abbrev pub is_harmless : Event → Bool
is_harmless (Event.start label ids) = false
is_harmless (Event.helper name label) = false
is_harmless (Event.stop ids) = false
is_harmless (Event.stop_helper id) = false
is_harmless e = true

-- the assertions that a harmless event keeps
abbrev pub Stable : Host → Assertion → Type 0
Stable H K =
    (e : Event) (t : List Event) (b : Bool) (c d : List String)
    → is_harmless e ≡ true
    → K t b c d
    → K (e ∷ t) (b || H.signalled (e ∷ t)) c d

module _ (K : Assertion) where
  pub bind-Keeps {ℓ κ} :
      {A : Type ℓ} {B : Type κ} (m : Action A) (f : A → Action B)
      → Keeps K m
      → ((a : A) → Keeps K (f a))
      → Keeps K (m >>= f)
  bind-Keeps m f = bind K (λ _. K) (λ _. K) K m f

  pub pure-Keeps {ℓ} : {A : Type ℓ} (a : A) → Keeps K (pure a)
  pure-Keeps a s h = h

  pub or_fail-Keeps {ℓ} : {A : Type ℓ} (o : Option A) → Keeps K (or_fail o)
  or_fail-Keeps none s h = h
  or_fail-Keeps (some a) s h = h

  pub fail_if-Keeps : (b : Bool) → Keeps K (fail_if b)
  fail_if-Keeps true s h = h
  fail_if-Keeps false s h = h

  pub demand-Keeps : (test : List Event → Bool) → Keeps K (demand test)
  demand-Keeps test s h =
      if_cases (λ (o : Outcome (Unit {0})). Ends (λ _. K) K (o, s)) (test s.trace) (λ _. h) (λ _. h)

  pub ensure_running-Keeps : Keeps K ensure_running
  unfolding ensure_running
  ensure_running-Keeps s h =
      if_cases (λ (o : Outcome (Unit {0})). Ends (λ _. K) K (o, s)) s.stopping (λ _. h) (λ _. h)

  Ends-any {ℓ} : {A : Type ℓ} (r : Outcome A) (s : Machine) → Holds K s → Ends (λ _. K) K (r, s)
  Ends-any (done a) s h = h
  Ends-any cancelled s h = h
  Ends-any unfinished s h = h
  Ends-any failed s h = h

  settled_with-Keeps {ℓ} :
      {A : Type ℓ} (r : Outcome A) (c : Outcome (Unit {0}) × Machine)
      → Ends (λ _. K) K c
      → Ends (λ _. K) K (settled_with r c)
  settled_with-Keeps r (done _, s) h = Ends-any r s h
  settled_with-Keeps r (cancelled, s) h = h
  settled_with-Keeps r (unfinished, s) h = h
  settled_with-Keeps r (failed, s) h = h

  finally-Keeps {ℓ} :
      {A : Type ℓ} (cleanup : Action (Unit {0})) (o : Outcome A × Machine)
      → Keeps K cleanup
      → Ends (λ _. K) K o
      → Ends (λ _. K) K (finally cleanup o)
  finally-Keeps cleanup (done a, s) hc h = settled_with-Keeps (done a) (cleanup s) (hc s h)
  finally-Keeps cleanup (cancelled, s) hc h = settled_with-Keeps cancelled (cleanup s) (hc s h)
  finally-Keeps cleanup (unfinished, s) hc h = h
  finally-Keeps cleanup (failed, s) hc h = settled_with-Keeps failed (cleanup s) (hc s h)

  pub always-Keeps {ℓ} :
      {A : Type ℓ} (m : Action A) (cleanup : Action (Unit {0}))
      → Keeps K m
      → Keeps K cleanup
      → Keeps K (always m cleanup)
  always-Keeps m cleanup hm hc s h = finally-Keeps cleanup (m s) hc (hm s h)

  pub unless-Keeps : (b : Bool) → Keeps K (if b then pure tt else ensure_running)
  unless-Keeps true s h = h
  unless-Keeps false s h = ensure_running-Keeps s h

  pub performed-Keeps :
      (H : Host) (e : Event) (allowed_failure allow_stopping : Bool)
      → Keeps K (perform H e)
      → Keeps K (call H e allowed_failure allow_stopping)
  unfolding call
  performed-Keeps H e f a hp =
      bind-Keeps (if a then pure tt else ensure_running) _ (unless-Keeps a) λ _.
        bind-Keeps (perform H e) _ hp λ r.
          bind-Keeps (fail_if (r.timed_out || not r.success && not f)) _ (fail_if-Keeps _) λ _.
            bind-Keeps (if a then pure tt else ensure_running) _ (unless-Keeps a) λ _. pure-Keeps r

  module _ (H : Host) (stable : Stable H K) where
    pub perform-Keeps : (e : Event) → is_harmless e ≡ true → Keeps K (perform H e)
    unfolding perform
    perform-Keeps e quiet s h = stable e s.trace s.stopping s.cleanup_ids s.helpers quiet h

    pub call-Keeps :
        (e : Event) (allowed_failure allow_stopping : Bool)
        → is_harmless e ≡ true
        → Keeps K (call H e allowed_failure allow_stopping)
    call-Keeps e f a quiet = performed-Keeps H e f a (perform-Keeps e quiet)

    pub sleep-Keeps : Keeps K (sleep H)
    sleep-Keeps s h = stable Event.pause s.trace s.stopping s.cleanup_ids s.helpers refl h

    wait_on-Keeps :
        (label : String) (ready : Bool) (later : Action (Unit {0}))
        → Keeps K later
        → Keeps K (wait_on H label ready later)
    unfolding wait_on
    wait_on-Keeps label true later hl s h = h
    wait_on-Keeps label false later hl s h =
        if_cases (Ends (λ _. K) K) (H.late label s.trace) (λ _. h)
          (λ _. bind-Keeps (sleep H) (λ _. later) sleep-Keeps (λ _. hl) s h)

    pub wait-Keeps :
        (rounds : ℕ) (label : String) (check : Action Bool)
        → Keeps K check
        → Keeps K (wait H rounds label check)
    unfolding wait
    wait-Keeps zero label check hc s h = h
    wait-Keeps (suc rounds) label check hc s h =
        let later = wait H rounds label check in
        bind-Keeps ensure_running _ ensure_running-Keeps
          (λ _. bind-Keeps check _ hc λ ready.
            bind-Keeps ensure_running _ ensure_running-Keeps
              λ _. wait_on-Keeps label ready later (wait-Keeps rounds label check hc))
          s h

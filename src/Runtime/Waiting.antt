-- ===== src/Runtime/Waiting.antt =====
-- The loop of `Runtime.wait` ends: the number of rounds that is enough.
use azd_santa.Base.{
  ℕ, zero, suc, ◌+◌, ◌≤◌, String, Bool, true, false, not, ◌&&◌, ◌||◌, Option, none, some, List, [],
  ◌∷◌, ◌≡◌, refl, ◌⊎◌, inl, inr, arith,
}
use azd_santa.Base.{if_cases, string_eq}
use azd_santa.Base.Dict.{Dict, lookup}
use azd_santa.Runtime.Docker.{Host, Event, Output}
use azd_santa.Runtime.Machine.{
  Outcome, done, cancelled, unfinished, failed, Machine, Action, and_then, ◌>>=◌, pure, fail_if,
  or_fail, ensure_running, perform, call, wait_on, wait,
}
use azd_santa.Runtime.Lifecycle.{consumers_in, database_ready, judge_queues, consumers, http_ready}

-- whether an action came to an end
abbrev pub has_ended {ℓ} : {A : Type ℓ} → Outcome A → Bool
has_ended unfinished = false
has_ended o = true

-- how often the loop slept
abbrev pub pauses : List Event → ℕ
pauses [] = 0
pauses (Event.pause ∷ t) = suc (pauses t)
pauses (e ∷ t) = pauses t

-- an end after at least so many pauses
abbrev Settled {ℓ} : {A : Type ℓ} → ℕ → Outcome A × Machine → Type 0
Settled n (done a, s) = n ≤ pauses s.trace
Settled n (cancelled, s) = Unit
Settled n (unfinished, s) = false ≡ true
Settled n (failed, s) = Unit

-- an action that ends, and takes no pause back
abbrev Settles {ℓ} : {A : Type ℓ} → Action A → Type 0
Settles m = (n : ℕ) (s : Machine) → n ≤ pauses s.trace → Settled n (m s)

and_then-Settled {ℓ κ} :
    {A : Type ℓ} {B : Type κ} (n k : ℕ) (f : A → Action B)
    → ((a : A) (s : Machine) → n ≤ pauses s.trace → Settled k (f a s))
    → (o : Outcome A × Machine) → Settled n o
    → Settled k (and_then f o)
and_then-Settled n k f hf (done a, s) h = hf a s h
and_then-Settled n k f hf (cancelled, s) h = tt
and_then-Settled n k f hf (unfinished, s) h = h
and_then-Settled n k f hf (failed, s) h = tt

bind-Settles {ℓ κ} :
    {A : Type ℓ} {B : Type κ} (m : Action A) (f : A → Action B)
    → Settles m
    → ((a : A) → Settles (f a))
    → Settles (m >>= f)
bind-Settles m f hm hf n s h = and_then-Settled n n f (λ a. hf a n) (m s) (hm n s h)

or_fail-Settles {ℓ} : {A : Type ℓ} (o : Option A) → Settles (or_fail o)
or_fail-Settles none n s h = tt
or_fail-Settles (some a) n s h = h

fail_if-Settles : (b : Bool) → Settles (fail_if b)
fail_if-Settles true n s h = tt
fail_if-Settles false n s h = h

ensure_running-Settles : Settles ensure_running
unfolding ensure_running
ensure_running-Settles n s h =
    if_cases (λ (o : Outcome (Unit {0})). Settled n (o, s)) s.stopping (λ _. tt) (λ _. h)

module _ (H : Host) where
  pauses-more : (e : Event) (t : List Event) → pauses t ≤ pauses (e ∷ t)
  pauses-more Event.pause t = omega arith
  pauses-more e t = omega arith

  call-Settles : (e : Event) (allowed_failure : Bool) → Settles (call H e allowed_failure false)
  unfolding call perform
  call-Settles e f = bind-Settles ensure_running _ ensure_running-Settles λ _.
      bind-Settles (perform H e) _ (λ n s h. omega (arith, pauses-more e s.trace))
        λ r.
          bind-Settles (fail_if (r.timed_out || not r.success && not f)) _ (fail_if-Settles _)
            λ _. bind-Settles ensure_running (λ _. pure r) ensure_running-Settles (λ _ n s h. h)

  database_ready-Settles :
      (environment : Dict String String) → Settles (database_ready H environment)
  unfolding database_ready
  database_ready-Settles environment =
      bind-Settles (or_fail (lookup "POSTGRES_USER" environment)) _ (or_fail-Settles _) λ user.
        bind-Settles (or_fail (lookup "POSTGRES_DB" environment)) _ (or_fail-Settles _) λ database.
          bind-Settles (call H (Event.probe "database") true false) _
            (call-Settles (Event.probe "database") true) λ r n s h. h

  judge_queues-Settles : (good : Bool) (output : Output) → Settles (judge_queues H good output)
  unfolding judge_queues
  judge_queues-Settles false output = λ n s h. h
  judge_queues-Settles true output =
      bind-Settles (or_fail (consumers_in output)) _ (or_fail-Settles _) λ queues n s h. h

  consumers-Settles : Settles (consumers H)
  unfolding consumers
  consumers-Settles =
      bind-Settles (call H Event.queues true false) _ (call-Settles Event.queues true)
        λ r. judge_queues-Settles r.success r.output

  ended : {A : Type 0} (o : Outcome A × Machine) → Settled 0 o → has_ended o.0 ≡ true
  ended (done a, s) h = refl
  ended (cancelled, s) h = refl
  ended (unfinished, s) h = h
  ended (failed, s) h = refl

  module _ (label : String) (limit : ℕ)
      (clock : (t : List Event) → limit ≤ pauses t → H.late label t ≡ true) where
    -- a round that is not ready, given that the remaining rounds suffice after one more pause
    wait_on-Settled :
        (ready : Bool) (later : Action (Unit {0})) (n : ℕ) (s : Machine)
        → n ≤ pauses s.trace
        → (limit ≤ n) ⊎ ((u : Machine) → suc n ≤ pauses u.trace → Settled 0 (later u))
        → Settled 0 (wait_on H label ready later s)
    unfolding wait_on
    wait_on-Settled true later n s h more = omega arith
    wait_on-Settled false later n s h (inl full) = rw (clock s.trace (omega arith)) tt
    wait_on-Settled false later n s h (inr more) =
        if_cases (Settled 0) (H.late label s.trace) (λ _. tt) λ _. more _ (omega arith)

    round-Settled :
        (check : Action Bool)
        → Settles check
        → (later : Action (Unit {0})) (n : ℕ)
        → (limit ≤ n) ⊎ ((u : Machine) → suc n ≤ pauses u.trace → Settled 0 (later u))
        → (s : Machine) → n ≤ pauses s.trace
        → Settled 0 (
            (ensure_running >>= λ _.
            check >>= λ ready. ensure_running >>= λ _. wait_on H label ready later)
              s)
    round-Settled check hc later n more s h =
        and_then-Settled n 0
          (λ _. check >>= λ ready. ensure_running >>= λ _. wait_on H label ready later)
          (λ _ t k.
            and_then-Settled n 0 (λ ready. ensure_running >>= λ _. wait_on H label ready later)
              (λ ready u l.
                and_then-Settled n 0 (λ _. wait_on H label ready later)
                  (λ _ v m. wait_on-Settled ready later n v m more) (ensure_running u)
                  (ensure_running-Settles n u l))
              (check t) (hc n t k))
          (ensure_running s) (ensure_running-Settles n s h)

    wait-Settled :
        (check : Action Bool)
        → Settles check
        → (rounds n : ℕ) → limit ≤ rounds + n
        → (s : Machine) → n ≤ pauses s.trace
        → Settled 0 (wait H (suc rounds) label check s)
    unfolding wait
    wait-Settled check hc zero n enough s h =
        round-Settled check hc (wait H zero label check) n (inl (omega arith)) s h
    wait-Settled check hc (suc rounds) n enough s h =
        round-Settled check hc (wait H (suc rounds) label check) n
          (inr (λ u. wait-Settled check hc rounds (suc n) (omega arith) u)) s h

    wait-ends :
        (check : Action Bool)
        → Settles check
        → (s : Machine) → has_ended (wait H (suc limit) label check s).0 ≡ true
    wait-ends check hc s =
        ended (wait H (suc limit) label check s)
          (wait-Settled check hc limit 0 (omega arith) s (omega arith))

  -- The three waits of `start` end, ready, late or cancelled, if the deadline of each has passed
  -- after `limit` pauses of the loop: one round more than `limit` is enough.
  pub waits_end :
      (limit : ℕ)
      → ((label : String) (t : List Event) → limit ≤ pauses t → H.late label t ≡ true)
      → (environment : Dict String String) (s : Machine)
      → (has_ended (wait H (suc limit) "database" (database_ready H environment) s).0 ≡ true)
        × (has_ended (wait H (suc limit) "consumers" (consumers H) s).0 ≡ true)
        × (has_ended (wait H (suc limit) "http" (http_ready H) s).0 ≡ true)
  waits_end limit clock environment s = (
    wait-ends "database" limit (clock "database") (database_ready H environment)
        (database_ready-Settles environment) s,
    wait-ends "consumers" limit (clock "consumers") (consumers H) consumers-Settles s,
    wait-ends "http" limit (clock "http") (http_ready H) (λ n u k. k) s,
  )

-- ===== src/Runtime/Safety.antt =====
-- What `Runtime.supervise` starts and stops, for any number of rounds of its loops and any answers of
-- the host.
use azd_santa.Base.{
  ℕ, zero, suc, String, Bool, true, false, none, List, [], ◌∷◌, ◌++◌, ◌≡◌, refl, ◌⊎◌, inr, subst,
}
use azd_santa.Base.{All, string_eq, if_cases}
use azd_santa.Runtime.Docker.{Host, Setup, Event}
use azd_santa.Runtime.Machine.{
  Outcome, Machine, Action, ◌>>=◌, perform, ensure_running, demand, wait, sleep,
}
use azd_santa.Runtime.Rows.{every, dependencies}
use azd_santa.Runtime.Showing.{IsOneOf}
use azd_santa.Runtime.Containers.{inspect, start_ids, oneoff, stop}
use azd_santa.Runtime.Lifecycle.{
  take_over, raise_dependencies, check_stores, raise_apps, start, watch_round, watch, absorb,
  serve_rounds, supervise, consumers, http_ready,
}
use azd_santa.Runtime.Keeping.{
  Assertion, Ends, Triple, Keeps, Stable, bind, weaken, bind-Keeps, demand-Keeps,
  ensure_running-Keeps, perform-Keeps, sleep-Keeps, wait-Keeps, always-Keeps,
}
use azd_santa.Runtime.Steady.{inspect-Keeps, consumers-Keeps}
use azd_santa.Runtime.Supervision.{start_ids-Keeps, stop-Keeps}
use azd_santa.Runtime.Order.{
  store_checks, passed, quiet, Recorded, IsOwnHelper, Permits, Lawful, Stage, Stage-Stable,
}
use azd_santa.Runtime.Running.{take_over-Keeps, raise_dependencies-Keeps}
use azd_santa.Runtime.Checking.{oneoff-Ends}

-- `Runtime.__init__`
abbrev pub new_machine : Machine
new_machine = record {
  ids = [];
  cleanup_ids = [];
  images = [];
  rendered = none;
  stopping = false;
  helpers = [];
  trace = [];
}

module _ (H : Host) (S : Setup) where
  fewer :
      (ls : List String) (t : List Event) (b : Bool) (c d : List String)
      → Stage H S ls t b c d
      → Stage H S [] t b c d
  fewer ls t b c d (lawful, flag, owned, drawn, checks) = (lawful, flag, owned, drawn, refl)

  -- a step that adds a check, and what follows
  checked :
      (ls : List String) (label : String) (f : Action (Unit {0})) (R : Assertion)
      → Triple (Stage H S (label ∷ ls)) f (λ _. R) (Stage H S [])
      → Triple (Stage H S ls) (oneoff H S label >>= λ _. f) (λ _. R) (Stage H S [])
  checked ls label f R hf =
      bind (Stage H S ls) (λ _. Stage H S (label ∷ ls)) (λ _. R) (Stage H S []) (oneoff H S label)
        (λ _. f)
        (λ s h.
          weaken (λ _ t b c d k. k) (fewer ls) (oneoff H S label s) (oneoff-Ends H S ls label s h))
        λ _. hf

  check_stores-Ends :
      Triple (Stage H S []) (check_stores H S) (λ _. Stage H S store_checks) (Stage H S [])
  unfolding check_stores
  check_stores-Ends =
      let one : List String = "source-schema-store" ∷ [] in
      let two : List String = "security-store" ∷ one in
      let three : List String = "sync-admission" ∷ two in
      let R : Assertion = Stage H S store_checks in
      let last : Action (Unit {0}) = ensure_running >>= λ _. oneoff H S "search" in
      let later : Action (Unit {0}) = oneoff H S "sync-admission" >>= λ _. last in
      checked [] "source-schema-store" (oneoff H S "security-store" >>= λ _. later) R (
        checked one "security-store" later R (
          checked two "sync-admission" last R λ s h.
            weaken (λ _ t b c d k. k) (fewer three) (last s)
              (bind (Stage H S three) (λ _. Stage H S three) (λ _. R) (Stage H S three)
                ensure_running (λ _. oneoff H S "search") (ensure_running-Keeps (Stage H S three))
                (λ _. oneoff-Ends H S three "search") s h)))

  raise_apps-Keeps : (rounds : ℕ) → Keeps (Stage H S store_checks) (raise_apps H S rounds)
  unfolding raise_apps string_eq
  raise_apps-Keeps rounds =
      let K : Assertion = Stage H S store_checks in
      let stable : Stable H K = Stage-Stable H S store_checks in
      bind-Keeps K (start_ids H S "workers" ("workers" ∷ "celery" ∷ [])) _
        (start_ids-Keeps H S store_checks "workers" ("workers" ∷ "celery" ∷ []) (inr refl))
        λ _.
          bind-Keeps K (wait H rounds "consumers" (consumers H)) _
            (wait-Keeps K H stable rounds "consumers" (consumers H) (consumers-Keeps H S K stable))
            λ _.
              bind-Keeps K (start_ids H S "listener" ("web" ∷ [])) _
                (start_ids-Keeps H S store_checks "listener" ("web" ∷ []) (inr refl))
                λ _. bind-Keeps K (inspect H S true) _ (inspect-Keeps H S K stable true) λ selected.
                  bind-Keeps K (wait H rounds "http" (http_ready H)) _
                    (wait-Keeps K H stable rounds "http" (http_ready H) (λ s h. h))
                    λ _. ensure_running-Keeps K

  start-Keeps : (rounds : ℕ) → Keeps (Stage H S []) (start H S rounds)
  unfolding start
  start-Keeps rounds =
      let K : Assertion = Stage H S [] in
      bind-Keeps K (take_over H S) _ (take_over-Keeps H S) λ _.
        bind-Keeps K (raise_dependencies H S rounds) _ (raise_dependencies-Keeps H S rounds) λ _.
          bind K (λ _. Stage H S store_checks) (λ _. K) K (check_stores H S)
            (λ _. raise_apps H S rounds) check_stores-Ends
            λ _ s h.
              weaken (λ _. fewer store_checks) (fewer store_checks) (raise_apps H S rounds s)
                (raise_apps-Keeps rounds s h)

  watch-Keeps : (rounds : ℕ) → Keeps (Stage H S []) (watch H S rounds)
  unfolding watch watch_round
  watch-Keeps zero s h = h
  watch-Keeps (suc rounds) s h =
      let K : Assertion = Stage H S [] in
      let stable : Stable H K = Stage-Stable H S [] in
      if_cases (Ends (λ _. K) K) s.stopping (λ _. h)
        λ _.
          bind-Keeps K (sleep H) _ (sleep-Keeps K H stable)
            (λ _. bind-Keeps K (demand H.binding_holds) _ (demand-Keeps K H.binding_holds) λ _.
              bind-Keeps K (inspect H S true) (λ _. watch H S rounds)
                (inspect-Keeps H S K stable true) λ _. watch-Keeps rounds)
            s h

  serve_rounds-Keeps : (rounds : ℕ) → Keeps (Stage H S []) (serve_rounds H S rounds)
  unfolding serve_rounds
  serve_rounds-Keeps rounds =
      let K : Assertion = Stage H S [] in
      bind-Keeps K (start H S rounds) _ (start-Keeps rounds) λ _.
        bind-Keeps K ensure_running _ (ensure_running-Keeps K) λ _.
          bind-Keeps K (perform H Event.notify) (λ _. watch H S rounds)
            (perform-Keeps K H (Stage-Stable H S []) Event.notify refl) λ _. watch-Keeps rounds

  absorb-Ends :
      (K : Assertion) (o : Outcome (Unit {0}) × Machine)
      → Ends (λ _. K) K o
      → Ends (λ _. K) K (absorb H S o)
  absorb-Ends K (Outcome.done u, s) h = h
  absorb-Ends K (Outcome.cancelled, s) h = h
  absorb-Ends K (Outcome.unfinished, s) h = h
  absorb-Ends K (Outcome.failed, s) h = h

  supervise-Keeps : (rounds : ℕ) → Keeps (Stage H S []) (supervise H S rounds)
  unfolding supervise
  supervise-Keeps rounds =
      let K : Assertion = Stage H S [] in
      always-Keeps K (λ s. absorb H S (serve_rounds H S rounds s)) (stop H S)
        (λ s h. absorb-Ends K (serve_rounds H S rounds s) (serve_rounds-Keeps rounds s h))
        (stop-Keeps H S [])

  Ends-Lawful :
      (o : Outcome (Unit {0}) × Machine)
      → Ends (λ _. Stage H S []) (Stage H S []) o
      → Lawful H S o.1.trace
  Ends-Lawful (Outcome.done u, s) h = h.0
  Ends-Lawful (Outcome.cancelled, s) h = h.0
  Ends-Lawful (Outcome.unfinished, s) h = h.0
  Ends-Lawful (Outcome.failed, s) h = h.0

  Lawful-Permits :
      (later : List Event) (e : Event) (earlier : List Event)
      → Lawful H S (later ++ e ∷ earlier)
      → Permits H S e earlier
  unfolding Lawful
  Lawful-Permits [] e earlier h = h.0
  Lawful-Permits (x ∷ later) e earlier h = Lawful-Permits later e earlier h.1

  -- what was done by a run of `supervise` from its start
  unfoldable pub run_log : ℕ → List Event
  run_log rounds = (supervise H S rounds new_machine).1.trace

  run_log-Permits :
      (rounds : ℕ) (later : List Event) (e : Event) (earlier : List Event)
      → run_log rounds ≡ later ++ e ∷ earlier
      → Permits H S e earlier
  unfolding run_log Lawful quiet
  run_log-Permits rounds later e earlier h = Lawful-Permits later e earlier (
      subst (Lawful H S) h (
        Ends-Lawful (supervise H S rounds new_machine)
          (supervise-Keeps rounds new_machine (tt, refl, tt, tt, refl))))

  -- what a stopped container must be
  unfoldable pub StopsOwn : Event → Type 0
  StopsOwn (Event.stop ids) = All (Recorded H) ids
  StopsOwn (Event.stop_helper id) = IsOwnHelper H S id
  StopsOwn e = Unit

  Permits-StopsOwn : (e : Event) (t : List Event) → Permits H S e t → StopsOwn e
  unfolding StopsOwn
  Permits-StopsOwn (Event.stop ids) t h = h
  Permits-StopsOwn (Event.stop_helper id) t h = h
  Permits-StopsOwn e t h = tt

  -- whether the event starts containers: `docker start`, or `docker compose run` of a helper
  unfoldable pub is_starting : Event → Bool
  is_starting (Event.start label ids) = true
  is_starting (Event.helper name label) = true
  is_starting e = false

  Permits-quiet :
      (e : Event) (t : List Event) → is_starting e ≡ true → Permits H S e t → quiet H t ≡ true
  unfolding is_starting
  Permits-quiet (Event.start label ids) t b h = h.0
  Permits-quiet (Event.helper name label) t b h = h
  Permits-quiet e t b h = cc

  -- Every `docker stop` of `supervise` is one of two kinds. At its start and in its cleanup it stops
  -- containers of a generation that container-generation.json holds at some time. In the cleanup of
  -- helpers it stops a container only where an answer to `docker inspect` shows it as the one row
  -- under a name that was drawn for a helper, of the project, of the service `web` and of the image
  -- of that service. This holds whatever Docker answers, whichever step fails and whenever a signal
  -- arrives.
  pub stops-Recorded :
      (rounds : ℕ) (later earlier : List Event) (e : Event)
      → run_log rounds ≡ later ++ e ∷ earlier
      → StopsOwn e
  stops-Recorded rounds later earlier e h =
      Permits-StopsOwn e earlier (run_log-Permits rounds later e earlier h)

  -- When `supervise` calls `docker start`, under whatever label, either an answer to `docker inspect`
  -- shows each of the containers as one of the service db, redis, rabbitmq or elastic of the project,
  -- or the helpers of the checks source-schema-store, security-store, sync-admission and search have
  -- each run before and succeeded.
  pub apps_checked :
      (rounds : ℕ) (later earlier : List Event) (label : String) (ids : List String)
      → run_log rounds ≡ later ++ Event.start label ids ∷ earlier
      → All (IsOneOf H S dependencies) ids ⊎ (every (λ l. passed H l earlier) store_checks ≡ true)
  apps_checked rounds later earlier label ids h =
      let (calm, checks) = run_log-Permits rounds later (Event.start label ids) earlier h in checks

  -- When `supervise` starts containers, by `docker start` or by `docker compose run` of a helper, no
  -- signal had arrived with any event of the log before it.
  pub starts_unsignalled :
      (rounds : ℕ) (later earlier : List Event) (e : Event)
      → run_log rounds ≡ later ++ e ∷ earlier
      → is_starting e ≡ true
      → quiet H earlier ≡ true
  starts_unsignalled rounds later earlier e h starts =
      Permits-quiet e earlier starts (run_log-Permits rounds later e earlier h)

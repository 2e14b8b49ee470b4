-- ===== src/Runtime/Lifecycle.antt =====
-- `Runtime.start` and `supervise`. The loops are given a number of rounds: an outcome `unfinished`
-- is what happened so far.
use azd_santa.Base.{
  ℕ, zero, suc, String, Bool, true, false, ◌&&◌, Option, none, some, List, [], ◌∷◌,
}
use azd_santa.Base.{◌==◌, ltb, any, string_eq, if◌then◌else◌}
use azd_santa.Base.Dict.{Dict, lookup}
use azd_santa.Runtime.Docker.{Host, Setup, Event, Output}
use azd_santa.Runtime.Machine.{
  Outcome, Machine, Action, ◌>>=◌, ◌>>◌, pure, or_fail, demand, ensure_running, perform, call,
  checked_call, sleep, wait, always,
}
use azd_santa.Runtime.Rows.{apps, dependencies, every}
use azd_santa.Runtime.Containers.{values, pick, inspect, start_ids, oneoff, stop}
use azd_santa.Runtime.Admission.{container_generation, backing_data}

abbrev pub consumers_in : Output → Option (Dict String ℕ)
consumers_in (Output.consumers qs) = some qs
consumers_in _ = none

abbrev pub is_consumed : Dict String ℕ → String → Bool
is_consumed queues name = any (λ (q, n). q == name && ltb 0 n) queues

abbrev pub needed_queues : List String
needed_queues = "store_events_Elasticsearch" ∷ "enrich_events" ∷ "process_events" ∷ []

-- `self.cleanup_ids = ids`
abbrev pub authorize : List String → Action (Unit {0})
authorize ids s = (Outcome.done tt, record s { cleanup_ids = ids })

module _ (H : Host) where
  -- `pg_isready` for the user and the database of the environment
  unfoldable pub database_ready : Dict String String → Action Bool
  database_ready environment = do
    user ← or_fail (lookup "POSTGRES_USER" environment)
    database ← or_fail (lookup "POSTGRES_DB" environment)
    r ← call H (Event.probe "database") true false
    pure r.success

  unfoldable pub judge_queues : Bool → Output → Action Bool
  judge_queues false output = pure false
  judge_queues true output = do
    queues ← or_fail (consumers_in output)
    pure (every (is_consumed queues) needed_queues)

  -- `consumers`
  unfoldable pub consumers : Action Bool
  consumers = do r ← call H Event.queues true false; judge_queues r.success r.output

  -- `http_ready`
  abbrev pub http_ready : Action Bool
  http_ready s = (Outcome.done (H.page_answers s.trace), s)

  -- the environment of the database, as rendered
  abbrev pub database_environment : Machine → Option (Dict String String)
  database_environment s = elim s.rendered [ none ↦ none | some r ↦ lookup "db" r ]

  abbrev pub rendered_database : Action (Dict String String)
  rendered_database s = or_fail (database_environment s) s

module _ (H : Host) (S : Setup) where
  -- the call `close-admission`
  unfoldable pub close_admission : Dict String String → Action (Unit {0})
  close_admission selected = do
    running ← or_fail (pick selected apps)
    r ← checked_call H (Event.stop running)
    pure tt

  -- `start` to the point where admission is closed
  unfoldable pub take_over : Action (Unit {0})
  take_over = do
    ensure_running
    selected ← inspect H S false
    generation ← container_generation H S selected
    authorize (values generation.container_ids)
    close_admission selected

  -- on to the point where the dependencies run
  unfoldable pub raise_dependencies : ℕ → Action (Unit {0})
  raise_dependencies rounds = do
    r ← checked_call H (Event.probe "compose-config")
    backing_data H S
    demand H.kernel_ready
    start_ids H S "dependencies" dependencies
    environment ← rendered_database H
    wait H rounds "database" (database_ready H environment)

  -- the checks of the stores
  unfoldable pub check_stores : Action (Unit {0})
  check_stores = do
    oneoff H S "source-schema-store"
    oneoff H S "security-store"
    oneoff H S "sync-admission"
    ensure_running
    oneoff H S "search"

  -- the applications
  unfoldable pub raise_apps : ℕ → Action (Unit {0})
  raise_apps rounds = do
    start_ids H S "workers" ("workers" ∷ "celery" ∷ [])
    wait H rounds "consumers" (consumers H)
    start_ids H S "listener" ("web" ∷ [])
    selected ← inspect H S true
    wait H rounds "http" (http_ready H)
    ensure_running

  -- `start`
  unfoldable pub start : ℕ → Action (Unit {0})
  start rounds = do take_over; raise_dependencies rounds; check_stores; raise_apps rounds

  unfoldable pub watch_round : Action (Unit {0}) → Action (Unit {0})
  watch_round later = do sleep H; demand H.binding_holds; selected ← inspect H S true; later

  -- the loop of `supervise`
  unfoldable pub watch : ℕ → Action (Unit {0})
  watch zero s = (Outcome.unfinished, s)
  watch (suc rounds) s =
      let later = watch rounds in if s.stopping then (Outcome.done tt, s) else watch_round later s

  -- `except Cancelled`
  abbrev pub absorb : Outcome (Unit {0}) × Machine → Outcome (Unit {0}) × Machine
  absorb (Outcome.cancelled, s) = (Outcome.done tt, s)
  absorb (Outcome.done u, s) = (Outcome.done u, s)
  absorb (Outcome.unfinished, s) = (Outcome.unfinished, s)
  absorb (Outcome.failed, s) = (Outcome.failed, s)

  unfoldable pub serve_rounds : ℕ → Action (Unit {0})
  serve_rounds rounds = do start rounds; ensure_running; r ← perform H Event.notify; watch rounds

  -- `supervise`
  unfoldable pub supervise : ℕ → Action (Unit {0})
  supervise rounds = always (λ s. absorb (serve_rounds rounds s)) (stop H S)

-- ===== src/Runtime/Tests.antt =====
-- A host with seven running containers, and what `supervise` does to it.
use azd_santa.Base.{
  ℕ, String, Bool, true, false, none, some, List, [], ◌∷◌, ◌++◌, map, ◌≡◌, zero, suc, ap, refl, ◌⊎◌,
  arith,
}
use azd_santa.Base.{
  leb, ◌==◌, All, get_elem?, take, drop, if◌then◌else◌, union, add, string_eq, strings_eq,
}
use azd_santa.Base.Dict.{Dict, lookup, insert}
use azd_santa.Runtime.Docker.{
  Host, Setup, Service, Row, Image, Event, Output, Reply, Generation, Published,
}
use azd_santa.Runtime.Machine.{ensure_running, perform, call, wait_on, wait}
use azd_santa.Runtime.Rows.{source_commit, every, dependencies, row_fits}
use azd_santa.Runtime.Containers.{
  select_from, render_from, image_from, select_rows, inspect, values, start_ids, clear_helper,
  stop_each, stop_helpers, call_helper, run_helper, oneoff, stop_containers, stop_present,
  stop_authorized, stop,
}
use azd_santa.Runtime.Admission.{
  generation_scope, generation_fits, accept_generation, container_generation, inspect_volumes,
  backing_data,
}
use azd_santa.Runtime.Lifecycle.{
  http_ready, database_ready, judge_queues, consumers, close_admission, take_over,
  raise_dependencies, check_stores, raise_apps, start, watch_round, watch, serve_rounds, supervise,
}
use azd_santa.Runtime.Order.{passed, quiet, store_checks}
use azd_santa.Runtime.Showing.{IsOneOf}
use azd_santa.Runtime.Safety.{
  run_log, StopsOwn, is_starting, stops-Recorded, apps_checked, starts_unsignalled, new_machine,
}
use azd_santa.Runtime.Waiting.{pauses, has_ended, waits_end}

abbrev sample_ids : Dict String String
sample_ids =
    ("web", "a000000000000000000000000000000000000000000000000000000000000001")
    ∷ ("workers", "a000000000000000000000000000000000000000000000000000000000000002")
    ∷ ("celery", "a000000000000000000000000000000000000000000000000000000000000003")
    ∷ ("db", "a000000000000000000000000000000000000000000000000000000000000004")
    ∷ ("redis", "a000000000000000000000000000000000000000000000000000000000000005")
    ∷ ("rabbitmq", "a000000000000000000000000000000000000000000000000000000000000006")
    ∷ ("elastic", "a000000000000000000000000000000000000000000000000000000000000007")
    ∷ []

abbrev sample_service : Service
sample_service = record { image = "zentral"; command = none; hostname = none; volumes = [] }

abbrev sample_setup : Setup
sample_setup = record {
  digest = "digest";
  project = "santa";
  conf = "/conf";
  services = map (λ (name, id). (name, sample_service)) sample_ids;
  volumes = "redis_data" ∷ [];
}

abbrev sample_image : Image
sample_image = record {
  id = "image";
  revision = some source_commit;
  cmd = none;
  entrypoint = none;
  user = "";
  env = [];
  exposed = [];
}

abbrev sample_bindings : String → Dict String (List (String × String))
sample_bindings name = if name == "web" then ("8000/tcp", ("127.0.0.1", "8000") ∷ []) ∷ [] else []

abbrev sample_environment : String → Dict String String
sample_environment name =
    if name == "db" then ("POSTGRES_USER", "u") ∷ ("POSTGRES_DB", "d") ∷ [] else []

abbrev sample_row : String × String → Row
sample_row (service, id) = record {
  id = id;
  name = service;
  image = "image";
  project = some "santa";
  service = some service;
  restart_policy = "no";
  running = true;
  paused = false;
  restarting = false;
  oom_killed = false;
  status = "running";
  pid = 7;
  started_at = "2024";
  cmd = none;
  entrypoint = none;
  user = "";
  hostname = service;
  privileged = false;
  security_opt = "no-new-privileges:true" ∷ [];
  env = sample_environment service;
  mounts = [];
  port_bindings = sample_bindings service;
  network_mode = "santa_default";
  networks = "santa_default" ∷ [];
  ports = map (λ (port, at). (port, Published.bound at)) (sample_bindings service);
}

abbrev sample_generation : Generation
sample_generation = record {
  scope = generation_scope;
  manifest_sha256 = "digest";
  project = "santa";
  image_id = "zentral";
  generation = "0123456789abcdef0123456789abcdef";
  container_ids = sample_ids;
}

abbrev answering : Output → Reply
answering output = record { timed_out = false; success = true; output = output }

abbrev sample_reply : List Event → Event → Reply
sample_reply t Event.list_project = answering (Output.words (values sample_ids))
sample_reply t Event.list_all = answering (Output.words (values sample_ids))
sample_reply t Event.list_names = answering (Output.words [])
sample_reply t (Event.inspect_rows ids) = answering (Output.rows (map sample_row sample_ids))
sample_reply t (Event.inspect_image ref) = answering (Output.image sample_image)
sample_reply t (Event.inspect_helper name) = record {
  timed_out = false;
  success = false;
  output = Output.other;
}
sample_reply t Event.render =
    answering (Output.rendered (map (λ (name, id). (name, sample_environment name)) sample_ids))
sample_reply t Event.queues = answering (
    Output.consumers
      (("enrich_events", 1) ∷ ("process_events", 2) ∷ ("store_events_Elasticsearch", 1) ∷ []))
sample_reply t e = answering Output.other

-- a signal that comes with the notice that the runtime is ready
abbrev sample_signal : List Event → Bool
sample_signal (Event.notify ∷ t) = true
sample_signal t = false

abbrev sample_host : Host
sample_host = record {
  reply = sample_reply;
  signalled = sample_signal;
  late = λ label t. false;
  fresh_name = λ t. "helper";
  fresh_token = λ t. "0123456789abcdef0123456789abcdef";
  binding_holds = λ t. true;
  backing_data_holds = λ t. true;
  kernel_ready = λ t. true;
  page_answers = λ t. true;
  generation = λ t. some sample_generation;
  anchored = λ t. false;
}

-- the run up to the start of the workers, and after it
abbrev before_workers : List Event
before_workers = drop 8 (run_log sample_host sample_setup 1)

abbrev after_workers : List Event
after_workers = take 7 (run_log sample_host sample_setup 1)

abbrev worker_ids : List String
worker_ids =
    "a000000000000000000000000000000000000000000000000000000000000002"
    ∷ "a000000000000000000000000000000000000000000000000000000000000003" ∷ []

-- a list around one of its members
take-drop :
    (xs : List Event) (i : ℕ) {e : Event}
    → get_elem? xs i ≡ some e
    → xs ≡ take i xs ++ e ∷ drop (suc i) xs
take-drop [] i h = cc
take-drop (x ∷ xs) zero h = cc
take-drop (x ∷ xs) (suc i) h = ap (◌∷◌ x) (take-drop xs i h)

seventh : get_elem? (run_log sample_host sample_setup 1) 7 ≡ some (Event.start "workers" worker_ids)
unfolding run_log supervise serve_rounds watch watch_round start raise_apps check_stores
    raise_dependencies take_over close_admission consumers judge_queues database_ready backing_data
    inspect_volumes container_generation accept_generation generation_fits stop stop_authorized
    stop_present stop_containers oneoff run_helper call_helper stop_helpers stop_each clear_helper
    start_ids inspect select_rows image_from render_from select_from row_fits wait wait_on call
    perform ensure_running string_eq strings_eq lookup insert union add
seventh = refl

run-workers :
    run_log sample_host sample_setup 1
    ≡ after_workers ++ Event.start "workers" worker_ids ∷ before_workers
run-workers = take-drop (run_log sample_host sample_setup 1) 7 seventh

run-stop :
    run_log sample_host sample_setup 1
    ≡ [] ++ Event.stop (values sample_ids) ∷ drop 1 (run_log sample_host sample_setup 1)
unfolding run_log supervise serve_rounds watch watch_round start raise_apps check_stores
    raise_dependencies take_over close_admission consumers judge_queues database_ready backing_data
    inspect_volumes container_generation accept_generation generation_fits stop stop_authorized
    stop_present stop_containers oneoff run_helper call_helper stop_helpers stop_each clear_helper
    start_ids inspect select_rows image_from render_from select_from row_fits wait wait_on call
    perform ensure_running string_eq strings_eq lookup insert union add
run-stop = refl

stops-Recorded_example : StopsOwn sample_host sample_setup (Event.stop (values sample_ids))
stops-Recorded_example =
    stops-Recorded sample_host sample_setup 1 [] (drop 1 (run_log sample_host sample_setup 1))
      (Event.stop (values sample_ids)) run-stop

apps_checked_example :
    All (IsOneOf sample_host sample_setup dependencies) worker_ids
    ⊎ (every (λ l. passed sample_host l before_workers) store_checks ≡ true)
apps_checked_example =
    apps_checked sample_host sample_setup 1 after_workers before_workers "workers" worker_ids
      run-workers

starting : is_starting sample_host sample_setup (Event.start "workers" worker_ids) ≡ true
unfolding is_starting
starting = refl

starts_unsignalled_example : quiet sample_host before_workers ≡ true
starts_unsignalled_example =
    starts_unsignalled sample_host sample_setup 1 after_workers before_workers
      (Event.start "workers" worker_ids) run-workers starting

-- a host on which nothing gets ready, whose waits are late after three pauses
abbrev slow_host : Host
slow_host = record sample_host {
  reply = λ t e. record { timed_out = false; success = false; output = Output.other };
  late = λ label t. leb 3 (pauses t);
  page_answers = λ t. false;
}

waits_end_example :
    (has_ended (wait slow_host 4 "database" (database_ready slow_host []) new_machine).0 ≡ true)
    × (has_ended (wait slow_host 4 "consumers" (consumers slow_host) new_machine).0 ≡ true)
    × (has_ended (wait slow_host 4 "http" (http_ready slow_host) new_machine).0 ≡ true)
waits_end_example = waits_end slow_host 3 (λ label t enough. ground arith) [] new_machine

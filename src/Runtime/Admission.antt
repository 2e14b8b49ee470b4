-- ===== src/Runtime/Admission.antt =====
-- `Runtime.container_generation`, `bind_admission_fresh` and `reconcile_admission`: the containers
-- that were recorded before any application of theirs ran.
use azd_santa.Base.{String, Bool, false, not, ◌&&◌, Option, none, some, List, [], ◌∷◌, ◌++◌, map}
use azd_santa.Base.{◌==◌, ◌=?◌, ltb, contains, length, union, string_eq, if◌then◌else◌}
use azd_santa.Base.Dict.{Dict}
use azd_santa.Base.Text.{is_hex, is_run, starts_with}
use azd_santa.Runtime.Docker.{Host, Row, Setup, Event, Generation}
use azd_santa.Runtime.Machine.{
  Action, ◌>>=◌, ◌>>◌, pure, raise, fail_if, or_fail, demand, perform, checked_call,
}
use azd_santa.Runtime.Rows.{apps, dependencies, every, names, same_dict, same_set}
use azd_santa.Runtime.Containers.{
  values, row_ids, rows_of, pick, is_identity, web_image, inspect, oneoff,
}

abbrev pub generation_scope : String
generation_scope = "private-runtime-container-generation-v1"

abbrev pub keys : Dict String String → List String
keys = map (λ (name, _). name)

-- the tests of a recorded generation
unfoldable pub generation_fits : Host → Setup → Dict String String → Generation → Bool
unfolding union
generation_fits H S selected g =
    g.scope == generation_scope
    && g.manifest_sha256 == S.digest
    && g.project == S.project
    && names g.image_id (web_image H S)
    && is_run is_hex 32 g.generation
    && same_set (keys g.container_ids) (apps ++ dependencies)
    && every is_identity (values g.container_ids)
    && length (union [] (values g.container_ids)) =? 7
    && same_dict ◌==◌ g.container_ids selected

-- an application that never ran, and a dependency that runs
abbrev pub never_started : Row → Bool
never_started row =
    row.status == "created" && not row.running && row.pid =? 0 && starts_with row.started_at "0001-"

abbrev pub is_up : Row → Bool
is_up row =
    row.status == "running"
    && row.running
    && ltb 0 row.pid
    && not (row.started_at == "")
    && not (starts_with row.started_at "0001-")

abbrev pub is_stable : Row → Bool
is_stable row = not row.paused && not row.restarting && not row.oom_killed

-- the last row of an identity
abbrev pub row_with : String → List Row → Option Row
row_with id [] = none
row_with id (row ∷ rows) = elim (row_with id rows) [
  | some r ↦ some r
  | none ↦ if row.id == id then some row else none
]

abbrev pub is_fresh_row : List Row → String × String → Bool
is_fresh_row rows (name, id) = elim (row_with id rows) [
  | none ↦ false
  | some row ↦ is_stable row && (if contains apps name then never_started row else is_up row)
]

abbrev pub is_quiet_row : Row → Bool
is_quiet_row row = not row.running && not row.paused && not row.restarting && row.pid =? 0

module _ (H : Host) (S : Setup) where
  -- the content of container-generation.json, tested
  unfoldable pub accept_generation : Dict String String → Option Generation → Action Generation
  accept_generation selected none = raise
  accept_generation selected (some g) = do fail_if (not (generation_fits H S selected g)); pure g

  -- `container_generation`
  unfoldable pub container_generation : Dict String String → Action Generation
  container_generation selected s = accept_generation selected (H.generation s.trace) s

  unfoldable pub inspect_volumes : List String → Action (Unit {0})
  inspect_volumes [] = pure tt
  inspect_volumes (v ∷ vs) = do
    r ← checked_call H (Event.probe "volume-inspection")
    inspect_volumes vs

  -- `backing_data`
  unfoldable pub backing_data : Action (Unit {0})
  backing_data = do
    r ← checked_call H (Event.probe "docker-root")
    inspect_volumes S.volumes
    demand H.backing_data_holds

  abbrev pub fresh_generation : Dict String String → String → String → Generation
  fresh_generation selected image token = record {
    scope = generation_scope;
    manifest_sha256 = S.digest;
    project = S.project;
    image_id = image;
    generation = token;
    container_ids = selected;
  }

  -- the file is written
  abbrev pub record_generation : Dict String String → String → Action (Unit {0})
  record_generation selected image s =
      (perform H (Event.write_generation (fresh_generation selected image (H.fresh_token s.trace)))
          >>= λ _. pure tt)
        s

  -- `bind_admission_fresh`
  unfoldable pub bind_admission_fresh : Action (Unit {0})
  bind_admission_fresh = do
    demand (λ t. not (H.anchored t))
    selected ← inspect H S false
    r ← checked_call H (Event.inspect_rows (values selected))
    rows ← or_fail (rows_of r.output)
    fail_if (not (length rows =? 7 && same_set (row_ids rows) (values selected)))
    fail_if (not (every (is_fresh_row rows) selected))
    backing_data
    demand H.binding_holds
    again ← inspect H S false
    fail_if (not (same_dict ◌==◌ again selected))
    image ← or_fail (web_image H S)
    record_generation selected image

  -- `reconcile_admission`
  unfoldable pub reconcile_admission : (initialize_missing : Bool) → Action (Unit {0})
  reconcile_admission initialize_missing = do
    selected ← inspect H S false
    generation ← container_generation selected
    ids ← or_fail (pick selected apps)
    r ← checked_call H (Event.inspect_rows ids)
    rows ← or_fail (rows_of r.output)
    fail_if (not (length rows =? length ids && same_set (row_ids rows) ids))
    fail_if (not (every is_quiet_row rows))
    demand H.binding_holds
    oneoff H S (if initialize_missing then "admission-initialize" else "admission-reconcile")

-- ===== src/Install/Observing.antt =====
-- `completion`, `record_terminal` and `status` of
-- experiments/server/private_install_transport.py.
use azd_santa.Base.{String, Bool, true, false, not, ◌&&◌, ◌||◌, Option, none, some, List, [], ◌∷◌}
use azd_santa.Base.{◌==◌, string_eq, bytes_eq, if◌then◌else◌}
use azd_santa.Base.Dict.{Dict, lookup, insert}
use azd_santa.Base.Faulty.{◌>>=◌, ◌>>◌, pure, need, or_fail}
use azd_santa.Base.Text.{is_hex, is_run, cut_at, split_at, after_start}
use azd_santa.Json.{Value, Fields, get_field, keys}
use azd_santa.Platform.{Bytes}
use azd_santa.Sync.Snapshot.{is_text, same_set}
use azd_santa.Install.Tools.{Tools, as_fields, as_string, object_of, matches}
use azd_santa.Install.Machine.{Host, Action, job_folder, file_of, look_at, demand, ask, exclusive}

-- what `status` returns
pub record Observation : Type 0 where
  pub bundle : String
  pub state : String
  pub substate : String
  pub result : Option String
  pub invocation : Option String
  pub completion : Option Fields

-- the environment and the arguments of `--record-terminal`
pub record Exit : Type 0 where
  pub service_result : String
  pub exit_code : String
  pub exit_status : String
  pub invocation : String
  pub context_path : String
  pub digest : String

-- `dict(line.split('=', 1) for line in lines if '=' in line)`
abbrev pub with_line : Option (String × String) → Dict String String → Dict String String
with_line none values = values
with_line (some (key, text)) values = insert key text values

unfoldable pub values_onto : Dict String String → List String → Dict String String
values_onto values [] = values
values_onto values (line ∷ lines) = values_onto (with_line (cut_at b'=' line) values) lines

abbrev pub get_or : String → Option String → String
get_or default none = default
get_or default (some s) = s

abbrev pub is_value : String → String → Dict String String → Bool
is_value key text values = get_or "" (lookup key values) == text

-- the folder of a context's path, which has no other form
abbrev pub folder_of : List String → Option String
folder_of (digest ∷ name ∷ []) = if name == "context.json" then some digest else none
folder_of _ = none

abbrev pub context_folder : Option String → Option String
context_folder none = none
context_folder (some rest) = folder_of (split_at b'/' rest)

abbrev pub proof_keys : List String
proof_keys =
    "scope" ∷ "context_sha256" ∷ "bundle_sha256" ∷ "completion_sha256" ∷ "invocation"
    ∷ "service_result" ∷ "exit_code" ∷ "exit_status" ∷ []

module _ (t : Tools) where
  -- `value['outputs'][key] == item`
  abbrev pub has_output : String → Value → Option Fields → Bool
  has_output key item none = false
  has_output key item (some outputs) = matches t (get_field key outputs) (some item)

  -- whether every member of the target is an output
  unfoldable pub has_outputs : Fields → Option Fields → Bool
  has_outputs Fields.end outputs = true
  has_outputs (Fields.field key item rest) outputs =
      has_output key item outputs && has_outputs rest outputs

  -- the tests of a completion
  unfoldable pub is_complete : Fields → Fields → Fields → Bool
  is_complete active goal value =
      same_set (keys value) ("scope" ∷ "bundle_sha256" ∷ "outputs" ∷ "limitation" ∷ [])
      && is_text "private-azd-install-complete" (get_field "scope" value)
      && matches t (get_field "bundle_sha256" value) (get_field "bundle_sha256" active)
      && has_outputs goal (as_fields (get_field "outputs" value))

  -- the record of an exit
  unfoldable pub proof_fields : (digest bundle completed invocation : String) → Fields
  proof_fields digest bundle completed invocation =
      Fields.field "scope" (Value.str "private-azd-install-terminal-success") (
        Fields.field "context_sha256" (Value.str digest) (
          Fields.field "bundle_sha256" (Value.str bundle) (
            Fields.field "completion_sha256" (Value.str completed) (
              Fields.field "invocation" (Value.str invocation) (
                Fields.field "service_result" (Value.str "success") (
                  Fields.field "exit_code" (Value.str "exited")
                    (Fields.field "exit_status" (Value.str "0") Fields.end)))))))

  abbrev pub has_invocation : Option String → Bool
  has_invocation none = false
  has_invocation (some text) = is_run is_hex 32 text

  -- the tests of a record
  unfoldable pub is_proof : (context bundle completed : String) → Fields → Bool
  is_proof context bundle completed proof =
      same_set (keys proof) proof_keys
      && is_text "private-azd-install-terminal-success" (get_field "scope" proof)
      && is_text context (get_field "context_sha256" proof)
      && is_text bundle (get_field "bundle_sha256" proof)
      && is_text completed (get_field "completion_sha256" proof)
      && has_invocation (as_string (get_field "invocation" proof))
      && is_text "success" (get_field "service_result" proof)
      && is_text "exited" (get_field "exit_code" proof)
      && is_text "0" (get_field "exit_status" proof)

  -- the tests of the exit of the unit
  unfoldable pub has_succeeded : Exit → Bool
  has_succeeded e =
      e.service_result == "success"
      && e.exit_code == "exited"
      && e.exit_status == "0"
      && is_run is_hex 32 e.invocation

  module _ (h : Host) where
    -- `completion`
    unfoldable pub completion_of : String → Fields → Action (Bytes × Fields)
    completion_of bundle active = do
      demand h h.is_secure
      raw ← file_of (job_folder bundle) "complete.json"
      value ← or_fail (object_of t raw)
      goal ← or_fail (as_fields (get_field "target" active))
      need (is_complete active goal value)
      pure (raw, value)

    -- `ACTIVE.read_bytes`
    abbrev pub active_of : Action Bytes
    active_of s = (s.active, s)

    -- the rest of `record_terminal`, for the folder of the context
    unfoldable pub record_in : Exit → String → Action (Unit {0})
    record_in e bundle = do
      demand h h.is_secure
      raw ← file_of (job_folder bundle) "context.json"
      need (t.sha256 raw == e.digest)
      active ← or_fail (object_of t raw)
      need (
          is_text bundle (get_field "bundle_sha256" active)
          && is_text "private-azd-install-v1" (get_field "scope" active))
      demand h h.is_secure
      current ← active_of
      need (current == raw)
      demand h h.is_secure
      bundle_raw ← file_of (job_folder bundle) "bundle.json"
      need (t.sha256 bundle_raw == bundle)
      (completed, _) ← completion_of bundle active
      exclusive h (job_folder bundle) "terminal-success.json"
          (t.dumps (Value.obj (proof_fields e.digest bundle (t.sha256 completed) e.invocation)))

    -- `record_terminal`
    unfoldable pub record_terminal : Exit → Action (Unit {0})
    record_terminal e = do
      need (h.is_root && has_succeeded e)
      bundle ← or_fail (
          context_folder
            (after_start "/var/lib/azd-santa-qualification/installers/" e.context_path))
      record_in e bundle

    abbrev pub observed : String → Dict String String → Observation
    observed bundle values = record {
      bundle = bundle;
      state = get_or "unknown" (lookup "ActiveState" values);
      substate = get_or "unknown" (lookup "SubState" values);
      result = lookup "Result" values;
      invocation = lookup "InvocationID" values;
      completion = none;
    }

    -- the tests of a unit that is loaded
    abbrev pub unit_fits : Dict String String → Bool
    unit_fits values =
        not (is_value "LoadState" "loaded" values)
        || is_value "Result" "success" values
          && is_value "ExecMainStatus" "0" values
          && not (is_value "ActiveState" "failed" values)

    abbrev pub same_run : Dict String String → Option String → Bool
    same_run values invocation =
        not (is_value "LoadState" "loaded" values)
        || is_value "InvocationID" (get_or "" invocation) values

    -- the part of `status` where an exit was recorded
    unfoldable pub proved : String → Fields → Dict String String → Bytes → Action Observation
    proved bundle active values recorded = do
      need (unit_fits values)
      demand h h.is_secure
      proof ← or_fail (object_of t recorded)
      demand h h.is_secure
      context ← file_of (job_folder bundle) "context.json"
      current ← active_of
      need (context == current)
      (completed, value) ← completion_of bundle active
      need (is_proof (t.sha256 context) bundle (t.sha256 completed) proof)
      need (same_run values (as_string (get_field "invocation" proof)))
      demand h h.is_running
      pure (record (observed bundle values) {
        state = "completed";
        substate = "terminal-success";
        invocation = as_string (get_field "invocation" proof);
        completion = some value;
      })

    -- the branch on the recorded exit
    unfoldable pub concluded :
        String → Fields → Dict String String → Option Bytes → Action Observation
    concluded bundle active values none = do
      need (is_value "LoadState" "loaded" values)
      pure (observed bundle values)
    concluded bundle active values (some recorded) = proved bundle active values recorded

    -- `status`
    unfoldable pub job_status : String → Action Observation
    job_status bundle = do
      raw ← active_of
      demand h h.is_secure
      active ← or_fail (object_of t raw)
      need (is_text bundle (get_field "bundle_sha256" active))
      lines ← ask h h.shown
      let values = values_onto [] lines
      need (is_value "LoadState" "loaded" values || is_value "LoadState" "not-found" values)
      recorded ← look_at (job_folder bundle) "terminal-success.json"
      concluded bundle active values recorded

-- ===== src/Install/Tests.antt =====
-- A package that is sent in one chunk, submitted twice and observed.
use azd_santa.Base.{◌≤◌, String, true, false, none, some, List, [], ◌∷◌, ◌≡◌, refl}
use azd_santa.Base.{◌=?◌, length, string_eq, bytes_eq, strings_eq, if◌then◌else◌}
use azd_santa.Base.Int.{pos}
use azd_santa.Base.Dict.{lookup, insert}
use azd_santa.Base.Text.{codes, cut_at, after_start, split_at}
use azd_santa.Json.{Value, Fields, get_field, put_field, keys}
use azd_santa.Json.Hooks.{load, load_pairs, dict_onto}
use azd_santa.Sync.Snapshot.{is_text, same_set}
use azd_santa.Json.{spell}
use azd_santa.Install.Tools.{Tools, object_of}
use azd_santa.Install.Machine.{Store, Host, job_folder, exclusive, activate, make_dir, launch}
use azd_santa.Install.Package.{
  package_files, keys_within, chunk_fits, archive_of, unpacked, checked_package, package_of,
  files_of_package, body_of, checked_body,
}
use azd_santa.Install.Sorted.{sorted_proof}
use azd_santa.Install.Reporting.{terminal_reported, IsSettled}
use azd_santa.Install.Observing.{
  Observation, Exit, record_terminal, record_in, completion_of, is_complete, has_outputs,
  has_succeeded, context_folder, job_status, concluded, values_onto,
}
use azd_santa.Install.Transport.{
  Call, command, perform_all, run_command_of, branch, unstarted, resumed, transfer, continued,
  make_upload, store_chunk, keep_chunk, submit, collect_package, join, install, place, place_new,
  place_files, keep, is_fresh_host, submit_context,
}
use azd_santa.Install.Submission.{submitted_once}
use azd_santa.Install.Holding.{AllHeld}

abbrev digest : String
digest = "aaaaaaaaaaaaaaaaaaaaaaaaaaaaaaaaaaaaaaaaaaaaaaaaaaaaaaaaaaaaaaaa"

abbrev text_field : String → String → Fields → Fields
text_field key text fs = Fields.field key (Value.str text) fs

-- the package, with the same file under each name
unfoldable files_named : List String → Fields
files_named [] = Fields.end
files_named (name ∷ names) =
    Fields.field name
      (Value.obj (text_field "sha256" digest (text_field "base64" "QQ==" Fields.end)))
      (files_named names)

abbrev package_value : Value
package_value = Value.obj (
    text_field "scope" "private-azd-source-v1"
      (Fields.field "files" (Value.obj (files_named package_files)) Fields.end))

abbrev context_value : Value
context_value = Value.obj (
    text_field "scope" "private-azd-install-v1"
      (text_field "bundle_sha256" digest (Fields.field "target" (Value.obj Fields.end) Fields.end)))

abbrev tools : Tools
tools = record {
  sha256 = λ b. digest;
  b64decode = λ text. some (codes text);
  gunzip = λ b. some b;
  text = λ b. some "QQ==";
  parse = λ b. some (if length b =? 1 then spell context_value else spell package_value);
  dumps = λ v. 9 ∷ [];
  same_value = λ v w. true;
}

abbrev host : Host
host = record {
  is_root = true;
  is_secure = λ n. true;
  breaks = λ n. false;
  torn = λ n. none;
  has_service = λ n. false;
  has_docker = λ n. true;
  no_containers = λ n. some true;
  no_volumes = λ n. some true;
  starts = λ n. true;
  shown = λ n. some ("LoadState=loaded" ∷ "ActiveState=active" ∷ []);
  is_running = λ n. true;
}

abbrev chunk_command : Fields
chunk_command = text_field "mode" "chunk" (
    text_field "bundle_sha256" digest (
      text_field "archive_sha256" digest (
        Fields.field "index" (Value.int (pos 0))
          (Fields.field "count" (Value.int (pos 1)) (text_field "data" "QQ==" Fields.end)))))

abbrev submit_command : Fields
submit_command = text_field "mode" "submit" (
    text_field "bundle_sha256" digest (
      text_field "archive_sha256" digest (
        Fields.field "count" (Value.int (pos 1))
          (Fields.field "target" (Value.obj Fields.end) Fields.end))))

abbrev calls : List (Host × Call)
calls =
    (host, command chunk_command)
    ∷ (host, command submit_command)
    ∷ (host, command submit_command)
    ∷ []

abbrev nothing : Store
nothing = record { active = none; folders = []; submitted = []; clock = 0 }

abbrev after_calls : Store
after_calls = perform_all tools (λ i. "0") calls nothing

submitted_once_example :
    (length after_calls.submitted ≤ 1) × AllHeld tools after_calls.submitted after_calls.folders
submitted_once_example = submitted_once tools (λ i. "0") calls nothing refl

-- the job is submitted by the first submission
calls_submit : after_calls.submitted ≡ (digest, 9 ∷ []) ∷ []
unfolding perform_all run_command_of branch unstarted resumed transfer continued make_upload
    store_chunk keep_chunk submit collect_package join install place place_new place_files keep
    is_fresh_host submit_context job_status concluded values_onto object_of exclusive activate
    make_dir launch keys_within chunk_fits archive_of unpacked checked_package package_of
    files_of_package body_of checked_body spell files_named load load_pairs dict_onto get_field
    put_field keys is_text same_set string_eq bytes_eq strings_eq lookup insert cut_at
calls_submit = refl

-- the exit of a job that has ended, its completion and its record
abbrev ended : Exit
ended = record {
  service_result = "success";
  exit_code = "exited";
  exit_status = "0";
  invocation = "bbbbbbbbbbbbbbbbbbbbbbbbbbbbbbbb";
  context_path =
      "/var/lib/azd-santa-qualification/installers/aaaaaaaaaaaaaaaaaaaaaaaaaaaaaaaaaaaaaaaaaaaaaaaaaaaaaaaaaaaaaaaa/context.json";
  digest = digest;
}

abbrev completion_value : Value
completion_value = Value.obj (
    text_field "scope" "private-azd-install-complete" (
      text_field "bundle_sha256" digest (
        Fields.field "outputs" (Value.obj Fields.end) (text_field "limitation" "none" Fields.end))))

abbrev proof_value : Value
proof_value = Value.obj (sorted_proof digest digest digest "bbbbbbbbbbbbbbbbbbbbbbbbbbbbbbbb")

abbrev end_tools : Tools
end_tools = record tools {
  parse = λ b. some (
      if length b =? 1
      then spell context_value
      else if length b =? 2
      then spell completion_value
      else spell proof_value);
  dumps = λ v. 7 ∷ 7 ∷ 7 ∷ [];
}

abbrev done : Store
done = record {
  active = some (9 ∷ []);
  folders =
      (
        job_folder digest,
        ("bundle.json", 1 ∷ []) ∷ ("context.json", 9 ∷ []) ∷ ("complete.json", 8 ∷ 8 ∷ []) ∷ [],
      )
      ∷ [];
  submitted = (digest, 9 ∷ []) ∷ [];
  clock = 0;
}

abbrev end_host : Host
end_host = record host { shown = λ n. some ("LoadState=not-found" ∷ []) }

abbrev after_end : Store
after_end = (record_terminal end_tools host ended done).1

path_read :
    context_folder (after_start "/var/lib/azd-santa-qualification/installers/" ended.context_path)
    ≡ some digest
unfolding after_start split_at string_eq
path_read = refl

end_recorded : record_terminal end_tools host ended done ≡ (some tt, after_end)
unfolding record_terminal has_succeeded after_start split_at string_eq record_in lookup bytes_eq
    object_of load load_pairs spell dict_onto put_field get_field is_text completion_of is_complete
    has_outputs same_set keys exclusive
end_recorded = refl

end_host-IsSettled : IsSettled end_host ("LoadState=not-found" ∷ [])
unfolding values_onto cut_at insert lookup string_eq
end_host-IsSettled = (λ n. refl, λ n. refl, λ n. refl, refl)

terminal_reported_example :
    (seen : Observation) × ((job_status end_tools end_host digest after_end).0 ≡ some seen)
    × (seen.state ≡ "completed")
    × (seen.invocation ≡ some "bbbbbbbbbbbbbbbbbbbbbbbbbbbbbbbb")
terminal_reported_example =
    terminal_reported end_tools ended digest ("LoadState=not-found" ∷ []) host end_host done
      after_end path_read end_recorded (λ raw. refl) end_host-IsSettled

-- ===== src/Install/Transport.antt =====
-- `run` of experiments/server/private_install_transport.py, and the runs of the program one after
-- the other.
use azd_santa.Base.{
  ℕ, zero, suc, String, Bool, true, false, not, ◌&&◌, ◌||◌, Option, none, some, List, [], ◌∷◌,
}
use azd_santa.Base.{◌==◌, leb, string_eq, bytes_eq, if◌then◌else◌}
use azd_santa.Base.Faulty.{◌>>=◌, ◌>>◌, pure, need, or_fail}
use azd_santa.Base.Text.{codes, concat}
use azd_santa.Json.{Value, Fields, get_field, keys}
use azd_santa.Platform.{Bytes}
use azd_santa.Sync.Snapshot.{is_text}
use azd_santa.Install.Tools.{Tools, as_string, object_of, matches}
use azd_santa.Install.Machine.{
  Store, Host, Action, job_folder, upload_folder, file_of, look_at, look_active, exists_folder,
  demand, ask, exclusive, activate, make_dir, launch,
}
use azd_santa.Install.Package.{
  command_keys, keys_within, hex_text, natural, chunk_fits, archive_of, unpacked, package_of,
  metadata_of, body_of,
}
use azd_santa.Install.Observing.{Observation, Exit, job_status, record_terminal}

-- what `run` returns
pub data Reply : Type 0 where
  observation : Observation → Reply
  not_installed : (digest : String) → Reply
  chunk : (digest : String) → (index count : ℕ) → Reply

-- `'chunk-' + str(i)`, where `str` is a parameter
abbrev pub chunk_name : (ℕ → String) → ℕ → String
chunk_name decimal i = concat "chunk-" (decimal i)

module _ (t : Tools) (decimal : ℕ → String) (h : Host) where
  abbrev pub observe : String → Action Reply
  observe digest = do seen ← job_status t h digest; pure (Reply.observation seen)

  -- a file that is compared where it is there, and written where it is not
  unfoldable pub keep : Option Bytes → String → String → Bytes → Action (Unit {0})
  keep none folder name raw = exclusive h folder name raw
  keep (some found) folder name raw = do demand h h.is_secure; need (found == raw)

  -- the folders of an upload
  unfoldable pub make_upload : String → String → Action (Unit {0})
  make_upload digest archive = do
    make_dir h true (upload_folder digest archive)
    demand h h.is_secure

  -- the same for a chunk, which is read as a text
  unfoldable pub keep_chunk : Option Bytes → String → String → String → Action (Unit {0})
  keep_chunk none folder name data_ = exclusive h folder name (codes data_)
  keep_chunk (some found) folder name data_ = do
    demand h h.is_secure
    text ← or_fail (t.text found)
    need (text == data_)

  -- the mode `chunk`
  unfoldable pub store_chunk : String → String → Fields → Action Reply
  store_chunk digest archive value = do
    index ← or_fail (natural (get_field "index" value))
    count ← or_fail (natural (get_field "count" value))
    data_ ← or_fail (as_string (get_field "data" value))
    need (chunk_fits index count data_)
    found ← look_at (upload_folder digest archive) (chunk_name decimal index)
    keep_chunk found (upload_folder digest archive) (chunk_name decimal index) data_
    pure (Reply.chunk digest index count)

  -- the texts of so many chunks
  unfoldable pub join : String → ℕ → (index : ℕ) → Action String
  join folder zero index = pure ""
  join folder (suc count) index = do
    raw ← file_of folder (chunk_name decimal index)
    text ← or_fail (t.text raw)
    rest ← join folder count (suc index)
    pure (concat text rest)

  -- the package of the chunks
  unfoldable pub collect_package : String → String → ℕ → Action Bytes
  collect_package digest archive count = do
    joined ← join (upload_folder digest archive) count 0
    compressed ← or_fail (archive_of t archive joined)
    or_fail (unpacked t digest compressed)

  -- `selected.mkdir` with the bundle
  unfoldable pub place_new : (is_there : Bool) → String → Bytes → Action (Unit {0})
  place_new true digest raw = pure tt
  place_new false digest raw = do
    make_dir h false (job_folder digest)
    exclusive h (job_folder digest) "bundle.json" raw

  -- the folder of the job with its bundle
  unfoldable pub place : String → Bytes → Action (Unit {0})
  place digest raw = do
    present ← exists_folder (job_folder digest)
    place_new present digest raw
    demand h h.is_secure
    found ← file_of (job_folder digest) "bundle.json"
    need (found == raw)

  -- the files of the package
  unfoldable pub place_files : String → Fields → Action (Unit {0})
  place_files digest Fields.end = pure tt
  place_files digest (Fields.field name value rest) = do
    metadata ← or_fail (metadata_of t value)
    body ← or_fail (body_of t metadata)
    found ← look_at (job_folder digest) name
    keep found (job_folder digest) name body
    place_files digest rest

  -- the tests of a fresh host
  unfoldable pub is_fresh_host : (has_docker : Bool) → Action (Unit {0})
  is_fresh_host false = pure tt
  is_fresh_host true = do
    containers ← ask h h.no_containers
    need containers
    volumes ← ask h h.no_volumes
    need volumes

  abbrev pub answers_of : (ℕ → Bool) → Action Bool
  answers_of answer s = (some (answer s.clock), s)

  abbrev pub context_of : String → Value → Bytes
  context_of digest goal = t.dumps (
      Value.obj (
        Fields.field "scope" (Value.str "private-azd-install-v1") (
          Fields.field "bundle_sha256" (Value.str digest) (Fields.field "target" goal Fields.end))))

  -- the reservation and the submission
  unfoldable pub submit_context : String → Bytes → Action Reply
  submit_context digest context = do
    exclusive h (job_folder digest) "context.json" context
    activate h context
    launch h digest context
    observe digest

  -- the installation of a package
  unfoldable pub install : String → Value → Bytes → Action Reply
  install digest goal raw = do
    files ← or_fail (package_of t raw)
    make_dir h true "installers"
    demand h h.is_secure
    place digest raw
    place_files digest files
    has_docker ← answers_of h.has_docker
    is_fresh_host has_docker
    submit_context digest (context_of digest goal)

  -- the mode `submit`
  unfoldable pub submit : String → String → Fields → Action Reply
  submit digest archive value = do
    count ← or_fail (natural (get_field "count" value))
    need (leb 1 count && leb count 64)
    raw ← collect_package digest archive count
    goal ← or_fail (get_field "target" value)
    install digest goal raw

  -- the branch on the mode
  unfoldable pub continued : (is_chunk : Bool) → String → String → Fields → Action Reply
  continued true digest archive value = store_chunk digest archive value
  continued false digest archive value = submit digest archive value

  -- what follows the branch on `ACTIVE`
  unfoldable pub transfer : (is_chunk : Bool) → String → Fields → Action Reply
  transfer is_chunk digest value = do
    make_dir h true "install-uploads"
    demand h h.is_secure
    make_dir h true (concat "install-uploads/" digest)
    demand h h.is_secure
    archive ← or_fail (hex_text (get_field "archive_sha256" value))
    make_upload digest archive
    continued is_chunk digest archive value

  -- the branch with an installation that is there
  unfoldable pub resumed : String → String → Fields → Fields → Action Reply
  resumed mode digest value old =
      if mode == "chunk"
      then transfer true digest value
      else (need
            (mode == "observe" || matches t (get_field "target" old) (get_field "target" value))
          >> observe digest)

  -- the branch with no installation
  unfoldable pub unstarted : String → String → Fields → Action Reply
  unstarted mode digest value =
      if mode == "observe"
      then pure (Reply.not_installed digest)
      else transfer (mode == "chunk") digest value

  -- the branch on `ACTIVE`
  unfoldable pub branch : String → String → Fields → Option Bytes → Action Reply
  branch mode digest value (some raw) = do
    demand h h.is_secure
    old ← or_fail (object_of t raw)
    need (is_text digest (get_field "bundle_sha256" old))
    resumed mode digest value old
  branch mode digest value none = do
    demand h (λ n. not (h.has_service n))
    unstarted mode digest value

  abbrev pub is_mode : String → Bool
  is_mode mode = mode == "chunk" || mode == "submit" || mode == "observe"

  -- `run`
  unfoldable pub run_command_of : Fields → Action Reply
  run_command_of value = do
    need (h.is_root && keys_within (keys value) command_keys)
    digest ← or_fail (hex_text (get_field "bundle_sha256" value))
    demand h h.is_secure
    mode ← or_fail (as_string (get_field "mode" value))
    need (is_mode mode)
    current ← look_active
    branch mode digest value current

-- a run of the program: a command, or the record of an exit
pub data Call : Type 0 where
  command : Fields → Call
  terminal : Exit → Call

abbrev pub perform_call : Tools → (ℕ → String) → Host → Call → Store → Store
perform_call t decimal h (Call.command value) s = (run_command_of t decimal h value s).1
perform_call t decimal h (Call.terminal e) s = (record_terminal t h e s).1

-- runs one after the other, each with its own host
unfoldable pub perform_all : Tools → (ℕ → String) → List (Host × Call) → Store → Store
perform_all t decimal [] s = s
perform_all t decimal ((h, call) ∷ calls) s =
    perform_all t decimal calls (perform_call t decimal h call s)

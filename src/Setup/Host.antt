-- ===== src/Setup/Host.antt =====
-- `run` of experiments/server/operator_setup_host.py, over the folders of its store. An exception
-- keeps what was written before it; a write that breaks may leave any content.
use azd_santa.Base.{ℕ, ◌+◌, String, Bool, true, false, ◌||◌, Option, none, some, List, [], ◌∷◌}
use azd_santa.Base.{◌==◌, ◌=?◌, leb, length, string_eq, bytes_eq, if◌then◌else◌}
use azd_santa.Base.Int.{pos}
use azd_santa.Base.Dict.{Dict, lookup, insert}
use azd_santa.Base.Faulty.{Faulty, ◌>>=◌, ◌>>◌, pure, need, or_fail}
use azd_santa.Base.Text.{after_start}
use azd_santa.Json.{Value, Fields}
use azd_santa.Platform.{Bytes}
use azd_santa.Setup.Kit.{Kit}
use azd_santa.Setup.Request.{Request, request_from_environment}
use azd_santa.Setup.Envelope.{envelope}

-- The folders under operator-setup by the digest of their context, with their files; the contexts
-- whose `operator_access` was called, newest first; and the steps so far.
pub record Disk : Type 0 where
  pub folders : Dict String (Dict String Bytes)
  pub accessed : List String
  pub clock : ℕ

-- What the host answers at each step.
pub record Host : Type 0 where
  pub is_root : Bool
  -- the operation of the environment, as a text
  pub operation : String
  -- `attest_metadata`, `attest_runtime` and the store's folder
  pub attests : ℕ → Bool
  -- the container of the web service
  pub container : String
  -- whether a step raises, and what file a write leaves that does
  pub breaks : ℕ → Bool
  pub torn : ℕ → Option Bytes
  -- the return code of `operator_access`; `none` is a timeout
  pub exit_code : ℕ → Option ℕ
  -- its output, and the lines of a text; `none` is a decoding error
  pub stdout : ℕ → Bytes
  pub lines : Bytes → Option (List String)
  -- the artifact in the container, stripped; `none` is a refusal
  pub artifact : ℕ → Option Bytes

abbrev pub Action {ℓ} : Type ℓ → Type ℓ
Action A = Faulty Disk A

abbrev pub tick : Disk → Disk
tick d = record d { clock = d.clock + 1 }

-- a folder's files
abbrev pub or_empty : Option (Dict String Bytes) → Dict String Bytes
or_empty none = []
or_empty (some files) = files

abbrev pub files_of : String → Disk → Dict String Bytes
files_of context d = or_empty (lookup context d.folders)

abbrev pub is_present {ℓ} : {A : Type ℓ} → Option A → Bool
is_present none = false
is_present (some a) = true

abbrev pub put_file : String → String → Bytes → Disk → Disk
put_file context name raw d = record d {
  folders = insert context (insert name raw (files_of context d)) d.folders;
  clock = d.clock + 1;
}

abbrev pub put_torn : String → String → Option Bytes → Disk → Disk
put_torn context name none d = tick d
put_torn context name (some raw) d = put_file context name raw d

-- the steps after a lookup in the store
abbrev pub make_from : String → Option (Dict String Bytes) → Action (Unit {0})
make_from context none d = (some tt, record d { folders = insert context [] d.folders })
make_from context (some files) d = (none, d)

abbrev pub same_bytes : Option Bytes → Bytes → Bool
same_bytes none b = false
same_bytes (some a) b = a == b

abbrev pub is_absent_or : Option Bytes → Bytes → Bool
is_absent_or none b = true
is_absent_or (some a) b = a == b

abbrev pub line_marker : String
line_marker = "SANTA_SEALED_SETUP_JSON:"

-- `[line[len(MARKER):] for line in lines if line.startswith(MARKER)]`
unfoldable pub marked_lines : List String → List String
marked_lines [] = []
marked_lines (line ∷ lines) =
    let rest = marked_lines lines in
    elim (after_start line_marker line) [ none ↦ rest | some record_ ↦ record_ ∷ rest ]

abbrev pub only : List String → Option String
only (record_ ∷ []) = some record_
only _ = none

module _ (k : Kit) (h : Host) where
  -- a test of the host
  abbrev pub demand : (ℕ → Bool) → Action (Unit {0})
  demand test d = (if test d.clock then some tt else none, tick d)

  -- `folder.mkdir`
  unfoldable pub make_folder : String → Action (Unit {0})
  make_folder context d =
      if h.breaks d.clock
      then (none, tick d)
      else make_from context (lookup context d.folders) (tick d)

  -- `write_new`
  unfoldable pub write_new : String → String → Bytes → Action (Unit {0})
  write_new context name raw d =
      if is_present (lookup name (files_of context d))
      then (none, tick d)
      else if h.breaks d.clock
      then (none, put_torn context name (h.torn d.clock) d)
      else (some tt, put_file context name raw d)

  -- `subprocess.run` of `operator_access`
  unfoldable pub access : String → Action ℕ
  access context d =
      (h.exit_code d.clock, record d { accessed = context ∷ d.accessed; clock = d.clock + 1 })

  abbrev pub attempt_record : Bytes
  attempt_record = k.dumps_utf8 (
      Value.obj (
        Fields.field "state" (Value.str "mutation-may-have-started")
          (Fields.field "container" (Value.str h.container) Fields.end)))

  abbrev pub exit_record : ℕ → Bytes
  exit_record code =
      k.dumps_utf8 (Value.obj (Fields.field "returncode" (Value.int (pos code)) Fields.end))

  -- `read_artifact`
  unfoldable pub read_artifact : Request → Action Bytes
  read_artifact q d =
      (elim (h.artifact d.clock) [ none ↦ none | some raw ↦ envelope k raw q ], tick d)

  abbrev pub read_output : Action Bytes
  read_output d = (some (h.stdout d.clock), tick d)

  -- what is reserved before the call
  unfoldable pub reserve : String → Bytes → Action (Unit {0})
  reserve context raw = do
    write_new context "request.json" raw
    write_new context "attempt.json" attempt_record
    write_new context "command.stdout" []
    write_new context "command.stderr" []

  -- what follows the call
  unfoldable pub collect : Request → ℕ → Action Bytes
  collect q code = do
    write_new q.context_sha256 "exit.json" (exit_record code)
    need (code =? 0)
    output ← read_output
    need (leb (length output) 16384)
    lines ← or_fail (h.lines output)
    line ← or_fail (only (marked_lines lines))
    sealed ← or_fail (envelope k (k.utf8 line) q)
    found ← read_artifact q
    need (found == sealed)
    write_new q.context_sha256 "sealed.json" sealed
    pure sealed

  -- the operation `create`
  unfoldable pub create : Request → Bytes → Action Bytes
  create q raw = do
    make_folder q.context_sha256
    reserve q.context_sha256 raw
    code ← access q.context_sha256
    collect q code

  -- the tests of the files of a folder
  abbrev pub need_file : String → String → (Option Bytes → Bool) → Action (Unit {0})
  need_file context name test d =
      (if test (lookup name (files_of context d)) then some tt else none, tick d)

  -- the operation `readback`
  unfoldable pub readback : Request → Bytes → Action Bytes
  readback q raw = do
    need_file q.context_sha256 "request.json" (λ o. same_bytes o raw)
    need_file q.context_sha256 "attempt.json" is_present
    sealed ← read_artifact q
    need_file q.context_sha256 "sealed.json" (λ o. is_absent_or o sealed)
    pure sealed

  -- the branch on the operation
  unfoldable pub operate : (is_create : Bool) → Request → Bytes → Action Bytes
  operate true q raw = create q raw
  operate false q raw = readback q raw

  -- `run`, for the request of the environment
  unfoldable pub run : String → Action Bytes
  run value = do
    need h.is_root
    (q, raw) ← or_fail (request_from_environment k value)
    need (h.operation == "create" || h.operation == "readback")
    demand h.attests
    operate (h.operation == "create") q raw

-- ===== src/Install/Package.antt =====
-- The command and the package of experiments/server/private_install_transport.py: the tests of `run`
-- and of its loops that change nothing.
use azd_santa.Base.{ℕ, ◌*◌, String, Bool, true, ◌&&◌, ◌||◌, Option, none, some, List, [], ◌∷◌}
use azd_santa.Base.{◌==◌, ◌=?◌, ltb, leb, contains, length, string_eq, if◌then◌else◌}
use azd_santa.Base.Int.{pos}
use azd_santa.Base.Text.{codes, all, is_digit, is_hex, is_run}
use azd_santa.Json.{Value, Fields, get_field, keys}
use azd_santa.Json.Hooks.{◌>>=◌}
use azd_santa.Platform.{Bytes}
use azd_santa.Sync.Snapshot.{is_text, same_set}
use azd_santa.Install.Tools.{Tools, as_fields, as_string, object_of}

-- `FILES`
abbrev pub package_files : List String
package_files =
    "private_install.py" ∷ "private_install_transport.py" ∷ "bootstrap-host.sh"
    ∷ "prepare_source.py" ∷ "prepare_core_build.py" ∷ "prepare_operator_mfa.py" ∷ "operator_mfa.py"
    ∷ "prepare_operator_recovery.py" ∷ "operator_recovery.py" ∷ "sealed_setup.py"
    ∷ "prepare_request_limits.py" ∷ "santa_request_limits.py" ∷ "prepare_database_roles.py"
    ∷ "database_roles.py" ∷ "prepare_zentral_eval.py" ∷ "stage_runtime.py" ∷ "runtime_service.py"
    ∷ "santa_admission.py" ∷ "test_live_zentral.py" ∷ "zentral-source.lock.json"
    ∷ "dependency-images.lock.json" ∷ []

abbrev pub command_keys : List String
command_keys =
    "mode" ∷ "bundle_sha256" ∷ "archive_sha256" ∷ "index" ∷ "count" ∷ "data" ∷ "target" ∷ []

-- `[a-f0-9]{64}`
abbrev pub hex_text : Option Value → Option String
hex_text (some (Value.str s)) = if is_run is_hex 64 s then some s else none
hex_text _ = none

abbrev pub natural : Option Value → Option ℕ
natural (some (Value.int (pos n))) = some n
natural _ = none

-- `[A-Za-z0-9+/=]`
abbrev pub is_base64_char : ℕ → Bool
is_base64_char c =
    is_digit c
    || leb b'A' c && leb c b'Z'
    || leb b'a' c && leb c b'z'
    || c =? b'+'
    || c =? b'/'
    || c =? b'='

-- the tests of a chunk
unfoldable pub chunk_fits : ℕ → ℕ → String → Bool
chunk_fits index count data_ =
    ltb index count
    && leb count 64
    && ltb 0 (length (codes data_))
    && leb (length (codes data_)) 24576
    && all is_base64_char (codes data_)

-- whether a command has no other keys
unfoldable pub keys_within : List String → List String → Bool
keys_within [] ys = true
keys_within (x ∷ xs) ys = contains ys x && keys_within xs ys

module _ (t : Tools) where
  -- the bytes of an archive that has a digest
  unfoldable pub archive_of : String → String → Option Bytes
  archive_of archive joined = t.b64decode joined >>= λ b.
      if leb (length b) (1024 * 1024) && t.sha256 b == archive then some b else none

  -- the test of a package
  unfoldable pub checked_package : String → Bytes → Option Bytes
  checked_package digest raw =
      if leb (length raw) (2 * 1024 * 1024) && t.sha256 raw == digest then some raw else none

  -- the package in an archive
  unfoldable pub unpacked : String → Bytes → Option Bytes
  unpacked digest compressed = t.gunzip compressed >>= checked_package digest

  -- the members `files` of a package
  unfoldable pub files_of_package : Fields → Option Fields
  files_of_package fields = as_fields (get_field "files" fields) >>= λ files.
      if same_set (keys fields) ("scope" ∷ "files" ∷ [])
        && is_text "private-azd-source-v1" (get_field "scope" fields)
        && same_set (keys files) package_files
      then some files
      else none

  unfoldable pub package_of : Bytes → Option Fields
  package_of raw = object_of t raw >>= files_of_package

  -- the test of the content of a file
  unfoldable pub checked_body : Option String → Bytes → Option Bytes
  checked_body (some digest) body =
      if leb (length body) (256 * 1024) && t.sha256 body == digest then some body else none
  checked_body none body = none

  -- the content of a file
  unfoldable pub body_of : Fields → Option Bytes
  body_of metadata =
      if same_set (keys metadata) ("sha256" ∷ "base64" ∷ [])
      then (as_string (get_field "base64" metadata)
          >>= t.b64decode
          >>= checked_body (as_string (get_field "sha256" metadata)))
      else none

  abbrev pub metadata_of : Value → Option Fields
  metadata_of (Value.obj fs) = some fs
  metadata_of _ = none

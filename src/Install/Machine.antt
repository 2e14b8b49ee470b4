-- ===== src/Install/Machine.antt =====
-- The files of the installer under /var/lib/azd-santa-qualification, and the host around them.
use azd_santa.Base.{ℕ, ◌+◌, String, Bool, true, false, Option, none, some, List, [], ◌∷◌}
use azd_santa.Base.{string_eq, bytes_eq, if◌then◌else◌}
use azd_santa.Base.Dict.{Dict, lookup, insert}
use azd_santa.Base.Faulty.{Faulty}
use azd_santa.Base.Text.{concat}
use azd_santa.Platform.{Bytes}

-- `ACTIVE`; the folders with their files; the jobs that systemd was asked for, each a digest and
-- the context, newest first; and the steps so far.
pub record Store : Type 0 where
  pub active : Option Bytes
  pub folders : Dict String (Dict String Bytes)
  pub submitted : List (String × Bytes)
  pub clock : ℕ

-- What the host answers at each step.
pub record Host : Type 0 where
  pub is_root : Bool
  -- `secure`, for a path that is there
  pub is_secure : ℕ → Bool
  -- whether a step raises, and what file a write leaves that does
  pub breaks : ℕ → Bool
  pub torn : ℕ → Option Bytes
  -- the unit file of the runtime
  pub has_service : ℕ → Bool
  -- /var/lib/docker/volumes, and whether Docker lists nothing
  pub has_docker : ℕ → Bool
  pub no_containers : ℕ → Option Bool
  pub no_volumes : ℕ → Option Bool
  -- whether `systemd-run` returns 0, the lines of `systemctl show`, and `systemctl is-active`
  pub starts : ℕ → Bool
  pub shown : ℕ → Option (List String)
  pub is_running : ℕ → Bool

abbrev pub Action {ℓ} : Type ℓ → Type ℓ
Action A = Faulty Store A

abbrev pub tick : Store → Store
tick s = record s { clock = s.clock + 1 }

-- folders
abbrev pub job_folder : String → String
job_folder digest = concat "installers/" digest

abbrev pub upload_folder : String → String → String
upload_folder digest archive = concat "install-uploads/" (concat digest (concat "/" archive))

abbrev pub or_none : Option (Dict String Bytes) → Dict String Bytes
or_none none = []
or_none (some files) = files

abbrev pub files_in : String → Store → Dict String Bytes
files_in folder s = or_none (lookup folder s.folders)

abbrev pub file_at : String → String → Store → Option Bytes
file_at folder name s = lookup name (files_in folder s)

abbrev pub is_there {ℓ} : {A : Type ℓ} → Option A → Bool
is_there none = false
is_there (some a) = true

abbrev pub put_at : String → String → Bytes → Store → Store
put_at folder name raw s = record s {
  folders = insert folder (insert name raw (files_in folder s)) s.folders;
  clock = s.clock + 1;
}

abbrev pub leave_at : String → String → Option Bytes → Store → Store
leave_at folder name none s = tick s
leave_at folder name (some raw) s = put_at folder name raw s

-- `path.read_bytes`; `none` raises
abbrev pub file_of : String → String → Action Bytes
file_of folder name s = (file_at folder name s, tick s)

-- `path.exists`
abbrev pub exists_at : String → String → Action Bool
exists_at folder name s = (some (is_there (file_at folder name s)), s)

abbrev pub exists_folder : String → Action Bool
exists_folder folder s = (some (is_there (lookup folder s.folders)), s)

-- what may be there
abbrev pub look_at : String → String → Action (Option Bytes)
look_at folder name s = (some (file_at folder name s), s)

abbrev pub look_active : Action (Option Bytes)
look_active s = (some s.active, s)

module _ (h : Host) where
  -- a test of the host
  abbrev pub demand : (ℕ → Bool) → Action (Unit {0})
  demand test s = (if test s.clock then some tt else none, tick s)

  -- an answer of the host
  abbrev pub ask {ℓ} : {A : Type ℓ} → (ℕ → Option A) → Action A
  ask answer s = (answer s.clock, tick s)

  -- `exclusive`, for a file in a folder
  unfoldable pub exclusive : String → String → Bytes → Action (Unit {0})
  exclusive folder name raw s =
      if is_there (file_at folder name s)
      then (none, tick s)
      else if h.breaks s.clock
      then (none, leave_at folder name (h.torn s.clock) s)
      else (some tt, put_at folder name raw s)

  -- `exclusive`, for `ACTIVE`
  unfoldable pub activate : Bytes → Action (Unit {0})
  activate raw s =
      if is_there s.active
      then (none, tick s)
      else if h.breaks s.clock
      then (none, record s { active = h.torn s.clock; clock = s.clock + 1 })
      else (some tt, record s { active = some raw; clock = s.clock + 1 })

  -- `mkdir`, with or without `exist_ok`
  unfoldable pub make_dir : (exist_ok : Bool) → String → Action (Unit {0})
  make_dir exist_ok folder s =
      if h.breaks s.clock
      then (none, tick s)
      else if is_there (lookup folder s.folders)
      then (if exist_ok then some tt else none, tick s)
      else (some tt, record s { folders = insert folder [] s.folders; clock = s.clock + 1 })

  -- `systemd-run`, for the context of a job
  unfoldable pub launch : String → Bytes → Action (Unit {0})
  launch digest context s = (
    if h.starts s.clock then some tt else none,
    record s { submitted = (digest, context) ∷ s.submitted; clock = s.clock + 1 },
  )

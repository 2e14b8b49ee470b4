-- ===== src/Durable/Database.antt =====
-- The SQLite statements of tools/sync_spike/durable.py, and the laws of the two tables that proofs
-- use. A statement that fails raises `sqlite3.Error`.
use azd_santa.Base.{ℕ, String, Option, none, some, ◌≡◌}
use azd_santa.Base.Int.{ℤ, pos}
use azd_santa.Platform.{Bytes}
use azd_santa.Raise.{Result, ok}

-- a row of `snapshots`: revision, payload, digest
abbrev pub Row : Type 0
Row = ℤ × Bytes × String

pub record Database : Type 1 where
  pub Db : Type 0
  -- `BEGIN IMMEDIATE` and `COMMIT`
  pub begin : Db → Result (Unit {0})
  pub commit : Db → Result (Unit {0})
  -- `SELECT COALESCE(MAX(revision),0) FROM snapshots`
  pub max_revision : Db → Result ℤ
  -- `SELECT COUNT(*) FROM snapshots`
  pub count : Db → Result ℕ
  -- `INSERT INTO snapshots VALUES (?,?,?)`
  pub insert_snapshot : Row → Db → Result Db
  -- `SELECT revision,payload,digest FROM snapshots ORDER BY revision DESC LIMIT 1`
  pub latest : Db → Result (Option Row)
  -- `SELECT 1 FROM snapshots WHERE revision=?`
  pub find_revision : ℤ → Db → Result (Option (Unit {0}))
  -- `SELECT revoked,reported FROM devices WHERE device=?`
  pub device_row : String → Db → Result (Option (ℤ × ℤ))
  -- the two `INSERT INTO devices ... ON CONFLICT(device) DO UPDATE`
  pub set_revoked : String → Db → Result Db
  pub set_reported : String → ℤ → Db → Result Db

abbrev pub revoked_of : Option (ℤ × ℤ) → ℤ
revoked_of none = pos 0
revoked_of (some row) = row.0

abbrev pub reported_of : Option (ℤ × ℤ) → ℤ
reported_of none = pos 0
reported_of (some row) = row.1

-- What a statement that succeeds leaves in the row of its device.
pub record DatabaseLaws (D : Database) : Type 0 where
  pub row-set_reported :
      (device : String) (n : ℤ) (d t : D.Db) (o : Option (ℤ × ℤ))
      → D.device_row device d ≡ ok o
      → D.set_reported device n d ≡ ok t
      → D.device_row device t ≡ ok (some (revoked_of o, n))
  pub row-set_revoked :
      (device : String) (d t : D.Db) (o : Option (ℤ × ℤ))
      → D.device_row device d ≡ ok o
      → D.set_revoked device d ≡ ok t
      → D.device_row device t ≡ ok (some (pos 1, reported_of o))

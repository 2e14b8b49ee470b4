-- ===== src/Durable/Store.antt =====
-- `State` of tools/sync_spike/durable.py, without the opening of the file.
use azd_santa.Base.{ℕ, String, Bool, false, not, ◌||◌, none, some, List, [], ◌∷◌}
use azd_santa.Base.{◌==◌, ◌=?◌, string_eq, bytes_eq, ltb, leb, length, if◌then◌else◌}
use azd_santa.Base.Int.{ℤ, int_eq, pos, ltb_ℤ}
use azd_santa.Base.Text.{codes}
use azd_santa.Json.{Value, Fields, get_field, to_list, of_list}
use azd_santa.Platform.{Platform, Bytes}
use azd_santa.Raise.{
  Result, ok, err, value_error, lookup_error, type_error, ◌>>=◌, ◌>>◌, raise_if, or_raise,
}
use azd_santa.Sync.Snapshot.{Snapshot, truthy, canonical, fixture, max_bytes}
use azd_santa.Sync.Cursor.{loads, equals_int}
use azd_santa.Durable.Database.{Database, Row}

-- `State.device_id`
unfoldable pub device_id : String → Result String
device_id device =
    if device == "device-a" || device == "device-b" then ok device else err value_error

-- `except (KeyError, TypeError, ValueError): raise ValueError`
abbrev pub as_invalid {ℓ} : {A : Type ℓ} → Result A → Result A
as_invalid (ok a) = ok a
as_invalid (err lookup_error) = err value_error
as_invalid (err type_error) = err value_error
as_invalid (err e) = err e

-- `value[key]`
abbrev pub member : String → Value → Result Value
member key (Value.obj fs) = or_raise (get_field key fs) lookup_error
member key _ = err type_error

-- The rules of a document. Anything but a list fails in `Snapshot.fixture`, by a ValueError or a
-- TypeError.
abbrev pub as_list : Value → Result (List Value)
as_list (Value.arr vs) = ok (to_list vs)
as_list _ = err type_error

-- A text of at most 128 characters.
abbrev pub is_label : Value → Bool
is_label (Value.str s) = not (ltb 128 (length (codes s)))
is_label _ = false

abbrev pub history : ℕ
history = 100

module _ (D : Database) where
  -- `with self.transaction()`: whatever is raised, a rollback leaves what was there.
  unfoldable pub transaction {ℓ} :
      {A : Type ℓ} → (D.Db → Result (A × D.Db)) → D.Db → Result A × D.Db
  transaction body d = elim (D.begin d) [
    | err e ↦ (err e, d)
    | ok _ ↦ elim (body d) [
      | err e ↦ (err e, d)
      | ok (a, t) ↦ elim (D.commit t) [ err e ↦ (err e, d) | ok _ ↦ (ok a, t) ]
    ]
  ]

  -- `State.device`
  unfoldable pub device_state : String → D.Db → Result (Bool × ℤ)
  unfolding device_id
  device_state device d = do
    id ← device_id device
    row ← D.device_row id d
    ok (elim row [
      | none ↦ (false, pos 0)
      | some (revoked, reported) ↦ (not (revoked == pos 0), reported)
    ])

  unfoldable pub revoke_body : String → D.Db → Result ((Unit {0}) × D.Db)
  revoke_body device d = do id ← device_id device; t ← D.set_revoked id d; ok (tt, t)

  -- `State.revoke_fixture`
  unfoldable pub revoke_fixture : String → D.Db → Result (Unit {0}) × D.Db
  revoke_fixture device d = transaction (revoke_body device) d

  unfoldable pub report_body : String → ℤ → D.Db → Result ((Unit {0}) × D.Db)
  report_body device revision d = do
    row ← device_state device d
    raise_if (row.0 || ltb_ℤ revision row.1) value_error
    known ← D.find_revision revision d
    or_raise known value_error
    t ← D.set_reported device revision d
    ok (tt, t)

  -- `State.report_fixture`
  unfoldable pub report_fixture : String → ℤ → D.Db → Result (Unit {0}) × D.Db
  report_fixture device revision d =
      if ltb_ℤ revision (pos 1)
      then (err value_error, d)
      else transaction (report_body device revision) d

  unfoldable pub publish_body : Row → D.Db → Result ((Unit {0}) × D.Db)
  publish_body row d = do
    maximum ← D.max_revision d
    raise_if (not (ltb_ℤ maximum row.0)) value_error
    n ← D.count d
    raise_if (leb history n) value_error
    t ← D.insert_snapshot row d
    ok (tt, t)

  module _ (P : Platform) where
    unfoldable pub load_rules : List Bytes → Result (List Value)
    load_rules [] = ok []
    load_rules (b ∷ bs) = do v ← loads P b; vs ← load_rules bs; ok (v ∷ vs)

    -- `dict(revision=..., rules=..., approval=...)`
    abbrev pub payload_value : Snapshot → List Value → Value
    payload_value s rules = Value.obj (
        Fields.field "revision" (Value.int s.revision) (
          Fields.field "rules" (Value.arr (of_list rules))
            (Fields.field "approval" s.approval Fields.end)))

    -- the row of a snapshot, if it is one that may be published
    unfoldable pub checked_row : Snapshot → Result Row
    unfolding load_rules
    checked_row s = do
      rules ← load_rules s.rules
      made ← fixture P (Value.int s.revision) rules s.approval
      raise_if (length rules =? 0 || not (is_label s.approval)) value_error
      payload ← canonical P (payload_value s rules)
      raise_if (ltb max_bytes (length payload)) value_error
      ok (s.revision, payload, P.sha256 payload)

    -- `State.publish_fixture`
    unfoldable pub publish_fixture : Snapshot → D.Db → Result (Unit {0}) × D.Db
    publish_fixture s d = elim (checked_row s) [
      | err e ↦ (err e, d)
      | ok row ↦ transaction (publish_body row) d
    ]

    -- the document of a row, tested
    unfoldable pub reread : Row → Result Snapshot
    unfolding get_field
    reread row = do
      value ← loads P row.1
      revision ← member "revision" value
      raise_if (not (equals_int P revision row.0)) value_error
      rules ← member "rules" value
      raise_if (not (truthy rules)) value_error
      payload ← canonical P value
      raise_if (not (payload == row.1)) value_error
      approval ← member "approval" value
      items ← as_list rules
      fixture P revision items approval

    -- `State.snapshot`
    unfoldable pub snapshot : D.Db → Result Snapshot
    snapshot d = do
      found ← D.latest d
      row ← or_raise found value_error
      raise_if (not (P.sha256 row.1 == row.2)) value_error
      as_invalid (reread row)

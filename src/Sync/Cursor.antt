-- ===== src/Sync/Cursor.antt =====
-- `Model.cursor` and `Model.offset` of tools/sync_spike/model.py.
use azd_santa.Base.{
  ℕ, ◌-◌, String, Bool, false, not, ◌&&◌, ◌||◌, Option, none, some, List, [], ◌∷◌, ◌++◌,
}
use azd_santa.Base.{
  ◌==◌, string_eq, bytes_eq, ltb, leb, length, take, drop, get_elem?, if◌then◌else◌,
}
use azd_santa.Base.Int.{ℤ, int_eq, pos}
use azd_santa.Base.Text.{codes}
use azd_santa.Json.{Value, to_list, of_list}
use azd_santa.Json.Hooks.{plain, load}
use azd_santa.Platform.{Platform, Bytes}
use azd_santa.Raise.{Result, ok, err, value_error, index_error, lookup_error, type_error}
use azd_santa.Raise.{◌>>=◌, ◌>>◌, raise_if, or_raise}
use azd_santa.Sync.Snapshot.{canonical}
use azd_santa.Sync.State.{Session}

-- `[device, session['id'], session['snapshot'].revision, offset]`
unfoldable pub row : String → String → ℤ → ℕ → Value
unfolding of_list
row device id revision offset =
    Value.arr
      (of_list (Value.str device ∷ Value.str id ∷ Value.int revision ∷ Value.int (pos offset) ∷ []))

-- `except (ValueError, IndexError, TypeError): raise ValueError`; a `KeyError` goes on.
abbrev pub as_value_error {ℓ} : {A : Type ℓ} → Result A → Result A
as_value_error (ok a) = ok a
as_value_error (err index_error) = err value_error
as_value_error (err type_error) = err value_error
as_value_error (err e) = err e

-- `type(offset) is int` and `1 <= offset < count`
unfoldable pub in_range : ℕ → Value → Option ℕ
in_range count (Value.int (pos n)) = if ltb n 1 || leb count n then none else some n
in_range count _ = none

module _ (P : Platform) where
  unfoldable pub cursor : Bytes → String → Session → ℕ → Result String
  cursor key device session offset = do
    payload ← canonical P (row device session.id session.snapshot.revision offset)
    ok (P.b64encode (payload ++ P.hmac key payload))

  -- `json.loads` with no hooks
  unfoldable pub loads : Bytes → Result Value
  loads raw = do
    syntax ← or_raise (P.parse raw) value_error
    or_raise (load plain syntax) value_error

  -- `value == n` in Python, where True is 1
  unfoldable pub equals_int : Value → ℤ → Bool
  equals_int (Value.int m) n = m == n
  equals_int (Value.bool b) n = (if b then pos 1 else pos 0) == n
  equals_int (Value.float bits) n = P.float_equals bits n
  equals_int _ n = false

  -- `values[:3] == [device, session['id'], session['snapshot'].revision]`
  unfoldable pub names_session : List Value → String → Session → Bool
  unfolding equals_int
  names_session (Value.str d ∷ Value.str i ∷ r ∷ _) device session =
      d == device && i == session.id && equals_int r session.snapshot.revision
  names_session _ device session = false

  -- What follows `json.loads(payload)`. A text has characters and slices, which are no list; a
  -- dict has no key 3.
  unfoldable pub check_values : Value → String → Session → Result ℕ
  unfolding to_list
  check_values (Value.arr vs) device session = do
    last ← or_raise (get_elem? (to_list vs) 3) index_error
    raise_if (not (names_session (to_list vs) device session)) value_error
    or_raise (in_range (length session.snapshot.rules) last) value_error
  check_values (Value.str s) device session =
      err (if ltb 3 (length (codes s)) then value_error else index_error)
  check_values (Value.obj fs) device session = err lookup_error
  check_values _ device session = err type_error

  -- `raw[:-32]` and `raw[-32:]`
  unfoldable pub verified : Bytes → Bytes → Result Bytes
  verified key raw = do
    let payload = take (length raw - 32) raw
    let mac = drop (length raw - 32) raw
    raise_if (not (mac == P.hmac key payload)) value_error
    ok payload

  unfoldable pub offset : Bytes → Value → String → Session → Result ℕ
  offset key (Value.str c) device session = do
    raise_if (ltb 512 (length (codes c))) value_error
    as_value_error (do
      raw ← or_raise (P.b64decode c) value_error
      payload ← verified key raw
      values ← loads payload
      check_values values device session)
  offset key _ device session = err value_error

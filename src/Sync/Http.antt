-- ===== src/Sync/Http.antt =====
-- `decode` and `Handler` of tools/sync_spike/model.py.
use Prim.Native.String.{◌++◌ as ◌<>◌}
use text.Mathlib.Text.{starts_with}
use azd_santa.Base.{
  ℕ, zero, suc, ◌-◌, ◌+◌, String, Bool, false, not, ◌||◌, Option, none, some, List, [], ◌∷◌, ◌++◌,
}
use azd_santa.Base.{◌==◌, ◌=?◌, string_eq, ltb, length, take, drop, if◌then◌else◌}
use azd_santa.Base.Int.{ℤ, pos, negsuc}
use azd_santa.Base.Dict.{lookup}
use azd_santa.Json.{Value, Fields}
use azd_santa.Json.Hooks.{strict, load}
use azd_santa.Platform.{Platform, Bytes}
use azd_santa.Raise.{
  Exc, Result, ok, err, value_error, lookup_error, index_error, overflow_error, type_error,
  sqlite_error,
}
use azd_santa.Raise.{◌>>=◌, ◌>>◌, raise_if, or_raise}
use azd_santa.Sync.Snapshot.{max_bytes}
use azd_santa.Sync.State.{State}
use azd_santa.Sync.Stages.{Reply, empty_reply, Inputs, Outcome}
use azd_santa.Sync.Handle.{handle}

-- A POST request as the server's library hands it over: the values of each header in order, and
-- the bytes of the connection behind the headers (`none`: the read times out).
pub record Post : Type 0 where
  pub path : String
  pub authorization : List String
  pub transfer_encoding : Option String
  pub content_length : List String
  pub content_type : Option String
  pub content_encoding : Option String
  pub stream : Option Bytes

as_object : Value → Result Fields
as_object (Value.obj fs) = ok fs
as_object _ = err value_error

module _ (P : Platform) where
  -- the body behind its content encoding
  unfoldable pub expand : Bytes → String → Result Bytes
  expand raw encoding =
      if encoding == "deflate" || encoding == "gzip"
      then (do
        r ←
            or_raise (P.inflate (if encoding == "deflate" then 15 else 31) raw (max_bytes + 1))
              value_error
        raise_if (ltb max_bytes (length r.output) || r.unconsumed) overflow_error
        raise_if (not r.eof || r.unused) value_error
        ok r.output)
      else if encoding == ""
      then ok raw
      else err lookup_error

  unfoldable pub decode : Bytes → String → Result Fields
  unfolding as_object
  decode raw encoding = do
    bytes ← expand raw encoding
    raise_if (ltb max_bytes (length bytes)) overflow_error
    syntax ← or_raise (P.parse bytes) value_error
    value ← or_raise (load strict syntax) value_error
    as_object value

abbrev pub stages : List String
stages = "preflight" ∷ "eventupload" ∷ "ruledownload" ∷ "postflight" ∷ []

abbrev pub fixture_devices : List String
fixture_devices = "device-a" ∷ "device-b" ∷ []

-- the first device of a list whose path it is
device_of : String → String → List String → Option (String × String)
device_of path stage [] = none
device_of path stage (d ∷ ds) =
    if path == ("/" <> stage <> "/" <> d) then some (stage, d) else device_of path stage ds

-- `re.fullmatch('/(preflight|eventupload|ruledownload|postflight)/(device-[ab])', self.path)`
unfoldable pub route : String → List String → Option (String × String)
unfolding device_of
route path [] = none
route path (stage ∷ rest) =
    let later = route path rest in
    elim (device_of path stage fixture_devices) [ some r ↦ some r | none ↦ later ]

-- `text[n:]`
unfoldable pub drop_chars : ℕ → String → String
drop_chars zero s = s
drop_chars (suc n) String.[] = String.[]
drop_chars (suc n) (String.◌∷◌ c s) = drop_chars n s

-- the token of exactly one `Authorization: Bearer` header, else the empty text
unfoldable pub bearer : List String → String
unfolding drop_chars
bearer (header ∷ []) = if starts_with header "Bearer " then drop_chars 7 header else ""
bearer _ = ""

-- `self.headers.get('Transfer-Encoding')`, as a test
abbrev pub present : Option String → Bool
present none = false
present (some t) = not (t == "")

abbrev pub or_empty : Option String → String
or_empty none = ""
or_empty (some t) = t

abbrev pub is_json : Option String → Bool
is_json (some t) = t == "application/json"
is_json none = false

-- `0 <= length <= MAX_BYTES`, or the status of the refusal
unfoldable pub checked_length : Option ℤ → Result ℕ
checked_length none = err value_error
checked_length (some (negsuc n)) = err overflow_error
checked_length (some (pos n)) = if ltb max_bytes n then err overflow_error else ok n

-- `self.rfile.read(length)` and the test of its size
unfoldable pub read_body : Option Bytes → ℕ → Result Bytes
read_body none n = err value_error
read_body (some stream) n =
    if length (take n stream) =? n then ok (take n stream) else err value_error

-- `Handler.reply`: the audit keeps the last 128 entries.
unfoldable pub reply : String → ℕ → State → State
reply request_id status s =
    let audit = s.audit ++ (request_id, status) ∷ [] in
    record s { audit = drop (length audit - 128) audit }

-- the handlers of `do_POST`: `none` is an exception that none of them takes
abbrev pub status_of : Exc → Option Reply
status_of value_error = some (empty_reply 400)
status_of lookup_error = some (empty_reply 415)
status_of index_error = some (empty_reply 415)
status_of overflow_error = some (empty_reply 413)
status_of type_error = none
status_of sqlite_error = none

-- the header's number; the tests above it leave exactly one
abbrev pub first_header : List String → String
first_header [] = ""
first_header (t ∷ _) = t

-- `self.server.model.tokens.get(token) == device`
abbrev pub is_bound : Option String → String → Bool
is_bound none device = false
is_bound (some bound) device = bound == device

abbrev pub status : Outcome → Option Reply × State
status (ok r, s) = (some r, s)
status (err e, s) = (status_of e, s)

module _ (P : Platform) (i : Inputs) where
  -- The `try` block of `do_POST`, from a checked length on.
  unfoldable pub answered : String → String → Post → ℕ → State → Outcome
  answered stage device q n s =
      elim (do raw ← read_body q.stream n; decode P raw (or_empty q.content_encoding)) [
        | err e ↦ (err e, s)
        | ok body ↦ handle P i stage device body s
      ]

  -- `do_POST` behind the route and the token.
  unfoldable pub authorized : String → String → Post → State → Option Reply × State
  authorized stage device q s =
      if present q.transfer_encoding || not (length q.content_length =? 1)
      then (some (empty_reply 400), s)
      else elim (checked_length (P.to_int (first_header q.content_length))) [
        | err e ↦ (status_of e, s)
        | ok n ↦
            if not (is_json q.content_type)
            then (some (empty_reply 415), s)
            else status (answered stage device q n s)
      ]

  unfoldable pub outcome : Post → State → Option Reply × State
  outcome q s = elim (route q.path stages) [
    | none ↦ (some (empty_reply 404), s)
    | some (stage, device) ↦
        if is_bound (lookup (bearer q.authorization) s.tokens) device
        then authorized stage device q s
        else (some (empty_reply 401), s)
  ]

  -- `Handler.reply` with its body: the audit is written before the body is made.
  unfoldable pub finish_post : String → Option Reply × State → Option ℕ × State
  finish_post request_id (none, s) = (none, s)
  finish_post request_id (some r, s) = (
    elim (P.dumps (Value.obj r.body)) [ none ↦ none | some raw ↦ some r.status ],
    reply request_id r.status s,
  )

  -- `none`: an exception escapes and no reply is sent.
  unfoldable pub do_post : String → Post → State → Option ℕ × State
  do_post request_id q s = finish_post request_id (outcome q s)

  -- `do_GET`, and any other error that the library reports through `send_error`
  unfoldable pub send_error : String → ℕ → State → Option ℕ × State
  send_error request_id code s = finish_post request_id (some (empty_reply code), s)

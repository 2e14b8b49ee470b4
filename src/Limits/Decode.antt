-- ===== src/Limits/Decode.antt =====
-- `decode_bytes` and `decode_request`.
use azd_santa.Base.{ℕ, ◌+◌, String, Bool, true, false, not, ◌||◌, Option, none, some, List, [], ◌∷◌}
use azd_santa.Base.{◌==◌, string_eq, ltb, length, take, any, if◌then◌else◌}
use azd_santa.Base.Text.{codes, decimal}
use azd_santa.Json.{Value, Fields, get_field, to_list}
use azd_santa.Json.Hooks.{bounded, load}
use azd_santa.Platform.{Platform, Bytes}
use azd_santa.Limits.Config.{Limits, is_decimal}
use azd_santa.Limits.Depth.{check_depth}

-- a value, or `RequestRejected(status, detail)`
pub data Verdict {ℓ} (A : Type ℓ) : Type ℓ where
  accept : A → Verdict A
  reject : ℕ → String → Verdict A

infixl 6 ◌>>=◌ ◌>>◌
abbrev pub ◌>>=◌ {ℓ κ} : {V : Type ℓ} {W : Type κ} → Verdict V → (V → Verdict W) → Verdict W
reject status detail >>= rest = reject status detail
accept value >>= rest = rest value

abbrev pub ◌>>◌ {κ} : {W : Type κ} → Verdict (Unit {0}) → Verdict W → Verdict W
first >> rest = first >>= λ _. rest

abbrev pub reject_if : Bool → ℕ → String → Verdict (Unit {0})
reject_if true status detail = reject status detail
reject_if false status detail = accept tt

abbrev pub or_reject {ℓ} : {A : Type ℓ} → Option A → ℕ → String → Verdict A
or_reject none status detail = reject status detail
or_reject (some a) status detail = accept a

abbrev pub event_collections : List String
event_collections =
    "events" ∷ "file_access_events" ∷ "audit_events" ∷ "network_mount_events"
    ∷ "network_flow_events" ∷ "usb_mount_events" ∷ []

abbrev pub is_object : Value → Bool
is_object (Value.obj fs) = true
is_object _ = false

-- the number of events of one collection; `none` is an invalid collection
unfoldable pub collection : Option Value → Option ℕ
unfolding to_list
collection none = some 0
collection (some (Value.arr vs)) =
    if any (λ v. not (is_object v)) (to_list vs) then none else some (length (to_list vs))
collection (some _) = none

-- the loop over `EVENT_COLLECTIONS`
unfoldable pub count_events : Fields → List String → ℕ → Verdict ℕ
count_events fs [] count = accept count
count_events fs (name ∷ names) count = do
  n ← or_reject (collection (get_field name fs)) 400 "Invalid event collection"
  count_events fs names (count + n)

abbrev pub as_object : Value → Option Fields
as_object (Value.obj fs) = some fs
as_object _ = none

-- `(encoding or '')`
abbrev pub or_empty : Option String → String
or_empty none = ""
or_empty (some t) = t

-- A request as the view hands it over: the two headers and the body that can be read.
pub record Request : Type 0 where
  pub content_length : Option String
  pub content_encoding : Option String
  pub stream : Bytes

-- The tests of `CONTENT_LENGTH`; a missing or empty header is no test.
unfoldable pub check_length : Option String → Limits → Verdict (Unit {0})
check_length none limits = accept tt
check_length (some text) limits =
    if text == ""
    then accept tt
    else if not (is_decimal text)
    then reject 400 "Invalid Content-Length"
    else if ltb 12 (length (codes text)) || ltb limits.compressed (decimal text)
    then reject 413 "Request body limit exceeded"
    else accept tt

module _ (P : Platform) (limits : Limits) where
  -- the body behind its content encoding
  unfoldable pub expand : Bytes → String → Verdict Bytes
  expand raw encoding =
      if encoding == "deflate" || encoding == "zlib" || encoding == "gzip"
      then (do
        r ←
            or_reject (P.inflate (if encoding == "gzip" then 31 else 15) raw (limits.expanded + 1))
              400 "Invalid compressed request"
        reject_if (ltb limits.expanded (length r.output) || r.unconsumed) 413
            "Expanded body limit exceeded"
        reject_if (not r.eof || r.unused) 400 "Incomplete or trailing compressed data"
        accept r.output)
      else if not (encoding == "" || encoding == "identity")
      then reject 415 "Unsupported Content-Encoding"
      else accept raw

  -- from the expanded bytes to the document
  unfoldable pub parse_body : Bytes → Verdict Fields
  parse_body raw = do
    text ← or_reject (P.utf8 raw) 400 "Invalid JSON request"
    reject_if (not (check_depth text limits.depth)) 400 "JSON nesting limit exceeded"
    syntax ← or_reject (P.parse_text text) 400 "Invalid JSON request"
    value ← or_reject (load bounded syntax) 400 "Invalid JSON request"
    or_reject (as_object value) 400 "JSON object required"

  unfoldable pub decode_bytes : Bytes → Option String → Verdict Fields
  decode_bytes raw encoding = do
    reject_if (ltb limits.compressed (length raw)) 413 "Request body limit exceeded"
    bytes ← expand raw (P.normalize (or_empty encoding))
    reject_if (ltb limits.expanded (length bytes)) 413 "Expanded body limit exceeded"
    fs ← parse_body bytes
    count ← count_events fs event_collections 0
    reject_if (ltb limits.events count) 413 "Event batch limit exceeded"
    accept fs

  unfoldable pub decode_request : Request → Verdict Fields
  decode_request request = do
    check_length request.content_length limits
    decode_bytes (take (limits.compressed + 1) request.stream) request.content_encoding

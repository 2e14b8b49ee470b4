-- ===== src/Platform.antt =====
-- The parts of Python's library that the program calls and this repository does not hold: `json`
-- (without its hooks), `hashlib`, `hmac`, `base64` and the comparison of a float with an integer.
-- They are parameters; `none` is a `ValueError`.
use azd_santa.Base.{ℕ, String, Bool, Option, List}
use azd_santa.Base.Int.{ℤ}
use azd_santa.Json.{Value, Syntax}

abbrev pub Bytes : Type 0
Bytes = List ℕ

-- What `decompressobj(wbits).decompress(raw, limit)` leaves: the output, and whether
-- `unconsumed_tail`, `eof` and `unused_data` are true.
pub record Inflated : Type 0 where
  pub output : Bytes
  pub unconsumed : Bool
  pub eof : Bool
  pub unused : Bool

pub record Platform : Type 0 where
  -- `json.dumps(value, sort_keys=True, separators=(',', ':'), allow_nan=False).encode()`
  pub dumps : Value → Option Bytes
  -- the parser of `json.loads`, with the decoding of its bytes
  pub parse : Bytes → Option Syntax
  -- `hashlib.sha256(b).hexdigest()`
  pub sha256 : Bytes → String
  -- `hmac.digest(key, payload, 'sha256')`
  pub hmac : Bytes → Bytes → Bytes
  -- `base64.urlsafe_b64encode(b).decode()`
  pub b64encode : Bytes → String
  -- `base64.b64decode(s, altchars=b'-_', validate=True)`
  pub b64decode : String → Option Bytes
  -- `float == int`, the float as its 64-bit pattern
  pub float_equals : ℕ → ℤ → Bool
  -- `zlib.decompressobj(wbits).decompress(raw, limit)`; `none` is a `zlib.error`
  pub inflate : ℕ → Bytes → ℕ → Option Inflated
  -- `raw.decode('utf-8')`, as code points; `none` is a `UnicodeError`
  pub utf8 : Bytes → Option (List ℕ)
  -- the parser of `json.loads(text)`; `none` is a `ValueError` or a `RecursionError`
  pub parse_text : List ℕ → Option Syntax
  -- `text.strip().lower()`
  pub normalize : String → String
  -- `int(text)`
  pub to_int : String → Option ℤ

-- ===== src/Install/Tools.antt =====
-- The calls of Python's library that experiments/server/private_install_transport.py makes.
use azd_santa.Base.{String, Bool, false, Option, none, some}
use azd_santa.Json.{Value, Fields, Syntax}
use azd_santa.Json.Hooks.{load, plain, ◌>>=◌}
use azd_santa.Platform.{Bytes}

pub record Tools : Type 0 where
  -- `hashlib.sha256(b).hexdigest()`
  pub sha256 : Bytes → String
  -- `base64.b64decode(text, validate=True)`
  pub b64decode : String → Option Bytes
  -- what `read(2 * 1024 * 1024 + 1)` of a gzip stream returns
  pub gunzip : Bytes → Option Bytes
  -- `read_text` of a file with these bytes
  pub text : Bytes → Option String
  -- the parser of `json.loads`
  pub parse : Bytes → Option Syntax
  -- `json.dumps(value, sort_keys=True).encode()`
  pub dumps : Value → Bytes
  -- `==` of two values
  pub same_value : Value → Value → Bool

-- `value[key]`, of a text, of a whole number that is not negative and of an object
abbrev pub as_fields : Option Value → Option Fields
as_fields (some (Value.obj fs)) = some fs
as_fields _ = none

abbrev pub as_string : Option Value → Option String
as_string (some (Value.str s)) = some s
as_string _ = none

-- `json.loads(raw)`, where it is an object
unfoldable pub object_of : Tools → Bytes → Option Fields
object_of t raw = as_fields (t.parse raw >>= load plain)

abbrev pub matches : Tools → Option Value → Option Value → Bool
matches t (some v) (some w) = t.same_value v w
matches t _ _ = false

-- ===== src/Setup/Kit.antt =====
-- The calls of Python's library and of the package cryptography that the setup programs make.
use azd_santa.Base.{ℕ, ◌+◌, String, Bool, Option}
use azd_santa.Base.{length}
use azd_santa.Base.Text.{codes}
use azd_santa.Json.{Value, Fields, Syntax}
use azd_santa.Json.Hooks.{load, repeat_free, ◌>>=◌}
use azd_santa.Platform.{Bytes}

-- what `urlsplit` returns; an absent host is the empty text
pub record Url : Type 0 where
  pub scheme : String
  pub netloc : String
  pub hostname : String
  pub has_user : Bool
  pub has_password : Bool
  pub port : Option ℕ
  pub path : String
  pub query : String
  pub fragment : String

pub record Kit : Type 1 where
  -- `hashlib.sha256(b).hexdigest()`
  pub sha256 : Bytes → String
  -- `text.encode('utf-8')`
  pub utf8 : String → Bytes
  -- `base64.b64encode(b).decode()`, and `base64.b64decode(text, validate=True)`
  pub b64encode : Bytes → String
  pub b64decode : String → Option Bytes
  -- `base64.urlsafe_b64decode(text).decode('ascii')`
  pub url_decode : String → Option String
  -- the parser of `json.loads`
  pub parse : Bytes → Option Syntax
  -- `json.dumps(value, separators=(',', ':'))`, in bytes, and with `ensure_ascii=False`
  pub dumps : Value → Bytes
  pub dumps_utf8 : Value → Bytes
  -- `urlsplit(text)` with its port; `none` is a `ValueError`
  pub split_url : String → Option Url
  pub lower : String → String
  pub strip : String → String
  pub decimal : ℕ → String
  -- an RSA public key
  pub Key : Type 0
  -- `load_der_public_key(raw)`, where it is an RSA key
  pub load_key : Bytes → Option Key
  pub key_size : Key → ℕ
  pub exponent : Key → ℕ
  -- `public_bytes` in DER
  pub der : Key → Bytes
  -- OAEP with SHA-256, under a seed
  pub wrap : Key → Bytes → Bytes → Bytes
  -- AES-GCM: key, nonce, plaintext, additional data
  pub gcm : Bytes → Bytes → Bytes → Bytes → Bytes

-- `json.loads(raw, object_pairs_hook=unique)`
unfoldable pub loads_unique : Kit → Bytes → Option Value
loads_unique k raw = k.parse raw >>= load repeat_free

-- the characters of the texts of a flat object
unfoldable pub text_size : Fields → ℕ
text_size Fields.end = 0
text_size (Fields.field key (Value.str s) fs) = length (codes s) + text_size fs
text_size (Fields.field key v fs) = text_size fs

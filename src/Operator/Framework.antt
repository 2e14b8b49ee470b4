-- ===== src/Operator/Framework.antt =====
-- The calls of Django, pyotp and Python's library that experiments/server/operator_mfa.py makes.
use azd_santa.Base.{ℕ, String, Bool, Option}
use azd_santa.Base.Int.{ℤ}
use azd_santa.Json.{Value}

pub record Framework : Type 0 where
  -- `salted_hmac(name, json.dumps(value, sort_keys=True)).hexdigest()`
  pub digest : Value → String
  -- `str(value)`, of what is no text
  pub str_of : Value → String
  -- `0 <= now - issued <= ttl` in floats, for a number `issued`
  pub recent : Value → ℕ → ℕ → Bool
  -- `int(now)`
  pub seconds : ℕ → ℕ
  -- `str(n)` of an integer
  pub decimal_of : ℤ → String
  -- `signing.loads(token, salt='zentral_verify_token', key=..., max_age=300)` at a time; `none` is
  -- an exception
  pub open_token : Value → ℕ → Option Value
  -- the primary key that the ORM reads from a value; `none` is an exception
  pub key_of : Value → Option ℤ
  -- `pyotp.TOTP(secret).at(time)`
  pub totp_at : String → ℕ → String
  -- `TYPE` of a WebAuthn device
  pub webauthn_type : String

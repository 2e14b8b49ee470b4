-- ===== src/Setup/Preparing.antt =====
-- `prepare_recipient` of experiments/server/sealed_setup.py. An exception is `none`.
use azd_santa.Base.{◌-◌, ◌^◌, String, Bool, ◌&&◌, Option, some}
use azd_santa.Base.{◌==◌, ◌=?◌, leb, length, string_eq, bytes_eq}
use azd_santa.Base.Int.{pos}
use azd_santa.Base.Text.{codes, is_hex, is_run}
use azd_santa.Json.{Value, Fields}
use azd_santa.Json.Hooks.{◌>>=◌}
use azd_santa.Platform.{Bytes}
use azd_santa.Recovery.Accounts.{Mode}
use azd_santa.Setup.Kit.{Kit}
use azd_santa.Setup.Sealing.{
  ◌>>◌, repeated, largest_expiry, target_digest, origin, Recipient, Drawn, encrypt,
}

module _ (k : Kit) where
  -- the tests of the key
  abbrev pub key_fits : k.Key → Bytes → Bool
  key_fits key raw = k.key_size key =? 3072 && k.exponent key =? 65537 && k.der key == raw

  -- the largest payload
  abbrev pub largest : Value
  largest = Value.obj (
      Fields.field "setup_url" (Value.str (repeated 768)) (
        Fields.field "expires_at_unix" (Value.float largest_expiry)
          (Fields.field "target_pk" (Value.int (pos (2 ^ 63 - 1))) Fields.end)))

  abbrev pub recipient_of : k.Key → Bytes → String → Mode → String → String → Recipient k
  recipient_of key raw context mode target expected = record {
    key = key;
    kid = k.sha256 raw;
    context = context;
    target = target;
    mode = mode;
    expected_origin = expected;
  }

  -- the check that the largest payload fits
  unfoldable pub checked_recipient : Recipient k → Value → Option (Recipient k)
  checked_recipient r sealed = some r

  unfoldable pub tried : Drawn k → Recipient k → Option (Recipient k)
  tried d r = encrypt k r d largest >>= checked_recipient r

  unfoldable pub prepare_target :
      Drawn k → k.Key → Bytes → String → Mode → String → String → Option (Recipient k)
  prepare_target d key raw context mode setup_origin target = origin k setup_origin >>= λ expected.
      tried d (recipient_of key raw context mode target expected)

  unfoldable pub prepare_key :
      Drawn k
      → Bytes
      → String
      → Mode
      → (username email setup_origin : String) → k.Key
      → Option (Recipient k)
  prepare_key d raw context mode username email setup_origin key =
      key_fits key raw
      >> (target_digest k username email >>= prepare_target d key raw context mode setup_origin)

  unfoldable pub prepare_raw :
      Drawn k
      → String
      → String
      → Mode
      → (username email setup_origin : String) → Bytes
      → Option (Recipient k)
  prepare_raw d public_key context mode username email setup_origin raw =
      k.b64encode raw == public_key
      >> (k.load_key raw >>= prepare_key d raw context mode username email setup_origin)

  -- `prepare_recipient`
  unfoldable pub prepare_recipient :
      Drawn k
      → (public_key_base64 context_sha256 : String) → Mode
      → (username email : String) → (setup_origin : String) → Option (Recipient k)
  prepare_recipient d public_key context mode username email setup_origin =
      (is_run is_hex 64 context && leb (length (codes public_key)) 1024)
      >> (k.b64decode public_key
          >>= prepare_raw d public_key context mode username email setup_origin)

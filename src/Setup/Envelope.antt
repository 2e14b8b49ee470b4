-- ===== src/Setup/Envelope.antt =====
-- `envelope` of experiments/server/operator_setup_host.py. An exception is `none`.
use azd_santa.Base.{ℕ, String, Bool, false, ◌&&◌, Option, none, some, List, [], ◌∷◌}
use azd_santa.Base.{◌==◌, leb, length, string_eq, strings_eq, bytes_eq}
use azd_santa.Base.Int.{pos, int_eq}
use azd_santa.Json.{Value, Fields, get_field, keys}
use azd_santa.Json.Hooks.{◌>>=◌}
use azd_santa.Platform.{Bytes}
use azd_santa.Sync.Snapshot.{is_text, same_set}
use azd_santa.Setup.Kit.{Kit, loads_unique}
use azd_santa.Setup.Sealing.{◌>>◌, mode_text, scope, algorithm}
use azd_santa.Setup.Request.{Request, text_at, as_object}

module _ (k : Kit) where
  -- the test of a member in base64
  abbrev pub decodes_within : ℕ → ℕ → Option String → Bool
  decodes_within low high none = false
  decodes_within low high (some text) = elim (k.b64decode text) [
    | none ↦ false
    | some decoded ↦
        leb low (length decoded) && leb (length decoded) high && k.b64encode decoded == text
  ]

  abbrev pub is_one : Option Value → Bool
  is_one (some (Value.int n)) = n == pos 1
  is_one _ = false

  -- the members that an envelope must have
  abbrev pub envelope_keys : List String
  envelope_keys =
      "scope" ∷ "version" ∷ "algorithm" ∷ "mode" ∷ "kid_sha256" ∷ "context_sha256" ∷ "target_sha256"
      ∷ "wrapped_key_base64" ∷ "nonce_base64" ∷ "ciphertext_base64" ∷ []

  -- the tests of an envelope for a request
  unfoldable pub envelope_fits : Request → Fields → Bool
  envelope_fits r fs =
      same_set (keys fs) envelope_keys
      && is_text scope (get_field "scope" fs)
      && is_one (get_field "version" fs)
      && is_text algorithm (get_field "algorithm" fs)
      && is_text (mode_text r.mode) (get_field "mode" fs)
      && is_text r.context_sha256 (get_field "context_sha256" fs)
      && is_text r.recipient_sha256 (get_field "kid_sha256" fs)
      && is_text r.target_sha256 (get_field "target_sha256" fs)
      && decodes_within 384 384 (text_at "wrapped_key_base64" fs)
      && decodes_within 12 12 (text_at "nonce_base64" fs)
      && decodes_within 17 1600 (text_at "ciphertext_base64" fs)

  -- `envelope`
  unfoldable pub envelope : Bytes → Request → Option Bytes
  envelope raw r =
      leb (length raw) 2600
      >> (as_object (loads_unique k raw) >>= λ fs.
          envelope_fits r fs >> some (k.dumps_utf8 (Value.obj fs)))

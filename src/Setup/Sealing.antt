-- ===== src/Setup/Sealing.antt =====
-- `target_digest`, `origin` and `Recipient` of experiments/server/sealed_setup.py. An exception is
-- `none`.
use azd_santa.Base.{
  ℕ, zero, suc, ◌-◌, ◌/◌, ◌%◌, ◌^◌, String, Bool, true, false, not, ◌&&◌, ◌||◌, Option, none, some,
  List, [], ◌∷◌, ◌++◌,
}
use azd_santa.Base.{◌==◌, ◌=?◌, ltb, leb, length, string_eq, bytes_eq, if◌then◌else◌}
use azd_santa.Base.Int.{pos}
use azd_santa.Base.Text.{
  codes, all, is_digit, is_hex, is_run, is_token_char, concat, split_at, after_start,
}
use azd_santa.Json.{Value, Fields}
use azd_santa.Json.Hooks.{◌>>=◌}
use azd_santa.Platform.{Bytes}
use azd_santa.Recovery.Accounts.{Mode, bootstrap, recover, Artifact}
use azd_santa.Setup.Kit.{Kit, Url}

-- `require`
infixr 5 ◌>>◌
abbrev pub ◌>>◌ : {A : Type 0} → Bool → Option A → Option A
true >> rest = rest
false >> rest = none

abbrev pub algorithm : String
algorithm = "RSA-OAEP-256+A256GCM"

abbrev pub scope : String
scope = "azd-santa-sealed-setup"

abbrev pub max_envelope_bytes : ℕ
max_envelope_bytes = 2600

-- `value.isascii()`
abbrev pub is_ascii : String → Bool
is_ascii text = all (λ c. ltb c 128) (codes text)

-- `struct.pack('>I', n)`
unfoldable pub big_endian : ℕ → Bytes
big_endian n = n / 2 ^ 24 % 256 ∷ n / 2 ^ 16 % 256 ∷ n / 2 ^ 8 % 256 ∷ n % 256 ∷ []

-- a value with its length before it
unfoldable pub framed : Bytes → Bytes
framed b = big_endian (length b) ++ b

abbrev pub mode_text : Mode → String
mode_text bootstrap = "bootstrap"
mode_text recover = "recover"

-- `[A-Za-z0-9]`, `[A-Za-z0-9.-]` and `[0-9a-z]`
abbrev pub is_alnum : ℕ → Bool
is_alnum c = is_digit c || leb b'A' c && leb c b'Z' || leb b'a' c && leb c b'z'

abbrev pub is_host_char : ℕ → Bool
is_host_char c = is_alnum c || c =? b'.' || c =? b'-'

abbrev pub is_base36 : ℕ → Bool
is_base36 c = is_digit c || leb b'a' c && leb c b'z'

abbrev pub last_is : (ℕ → Bool) → List ℕ → Bool
last_is p [] = false
last_is p (c ∷ []) = p c
last_is p (c ∷ d ∷ s) = last_is p (d ∷ s)

abbrev pub first_is : (ℕ → Bool) → List ℕ → Bool
first_is p [] = false
first_is p (c ∷ s) = p c

-- the pattern of a host name
unfoldable pub is_host : String → Bool
is_host text =
    all is_host_char (codes text) && first_is is_alnum (codes text) && last_is is_alnum (codes text)

-- `re.fullmatch('[class]{low,high}', s)`
abbrev pub is_span : (ℕ → Bool) → ℕ → ℕ → String → Bool
is_span p low high s = leb low (length (codes s)) && leb (length (codes s)) high && all p (codes s)

abbrev pub port_fits : Option ℕ → Bool
port_fits none = true
port_fits (some n) = leb 1 n && leb n 65535

-- the token of a reset link, `[0-9a-z]{1,16}-[0-9a-f]{32}`
abbrev pub is_reset_token : List String → Bool
is_reset_token (stamp ∷ digest ∷ []) = is_span is_base36 1 16 stamp && is_run is_hex 32 digest
is_reset_token _ = false

-- the parts of `<uid>/<token>/`
abbrev pub uid_of : List String → Option String
uid_of (uid ∷ token ∷ end ∷ []) =
    if end == "" && is_span is_token_char 1 32 uid && is_reset_token (split_at b'-' token)
    then some uid
    else none
uid_of _ = none

-- the pattern of the path of a reset link, and the group `uid`
unfoldable pub reset_uid : String → Option String
reset_uid path = after_start "/accounts/reset/" path >>= λ rest. uid_of (split_at b'/' rest)

-- `'x' * n`, and the bits of the float 9999999999.999999
unfoldable pub repeated : ℕ → String
repeated zero = ""
repeated (suc n) = concat "x" (repeated n)

abbrev pub largest_expiry : ℕ
largest_expiry = 4756540486875873279

module _ (k : Kit) where
  -- `target_digest`
  unfoldable pub target_digest : String → String → Option String
  target_digest username email =
      (leb (length (k.utf8 username)) 2048 && leb (length (k.utf8 email)) 2048)
      >> some (k.sha256 (framed (k.utf8 username) ++ framed (k.utf8 email)))

  abbrev pub port_text : Option ℕ → String
  port_text none = ""
  port_text (some n) = if n =? 0 || n =? 443 then "" else concat ":" (k.decimal n)

  abbrev pub is_origin : Url → Bool
  is_origin u =
      u.scheme == "https"
      && not (u.hostname == "")
      && not u.has_user
      && not u.has_password
      && u.query == ""
      && u.fragment == ""
      && (u.path == "" || u.path == "/")
      && is_host u.hostname
      && port_fits u.port

  -- `origin`
  unfoldable pub origin : String → Option String
  origin value =
      (is_ascii value && leb (length (codes value)) 256)
      >> (k.split_url value >>= λ u.
          is_origin u >> some (concat "https://" (concat (k.lower u.hostname) (port_text u.port))))

  -- `aad`
  unfoldable pub aad : String → String → String → String → Bytes
  aad mode kid context target = k.utf8 (
      concat "azd-santa-operator-setup/v1|" (
        concat algorithm (
          concat "|" (
            concat mode
              (concat "|" (concat kid (concat "|" (concat context (concat "|" target)))))))))

  pub record Recipient : Type 0 where
    pub key : k.Key
    pub kid : String
    pub context : String
    pub target : String
    pub mode : Mode
    pub expected_origin : String

  -- what `_encrypt` draws: a key, a nonce of 12 bytes and the seed of the padding
  pub record Drawn : Type 0 where
    pub secret : Bytes
    pub nonce : Bytes
    pub seed : Bytes

  abbrev pub link_payload : String → ℕ → ℕ → Value
  link_payload setup_url expires_at target_pk = Value.obj (
      Fields.field "setup_url" (Value.str setup_url) (
        Fields.field "expires_at_unix" (Value.int (pos expires_at))
          (Fields.field "target_pk" (Value.int (pos target_pk)) Fields.end)))

  abbrev pub ciphertext_of : Recipient → Drawn → Value → Bytes
  ciphertext_of r d v =
      k.gcm d.secret d.nonce (k.dumps_utf8 v) (aad (mode_text r.mode) r.kid r.context r.target)

  -- the members of an envelope
  unfoldable pub envelope_fields : Recipient → (wrapped nonce ciphertext : Bytes) → Fields
  envelope_fields r wrapped nonce ciphertext = Fields.field "scope" (Value.str scope) (
      Fields.field "version" (Value.int (pos 1)) (
        Fields.field "algorithm" (Value.str algorithm) (
          Fields.field "mode" (Value.str (mode_text r.mode)) (
            Fields.field "kid_sha256" (Value.str r.kid) (
              Fields.field "context_sha256" (Value.str r.context) (
                Fields.field "target_sha256" (Value.str r.target) (
                  Fields.field "wrapped_key_base64" (Value.str (k.b64encode wrapped)) (
                    Fields.field "nonce_base64" (Value.str (k.b64encode nonce)) (
                      Fields.field "ciphertext_base64" (Value.str (k.b64encode ciphertext))
                        Fields.end)))))))))

  abbrev pub envelope_of : Recipient → Drawn → Value → Value
  envelope_of r d v =
      Value.obj (envelope_fields r (k.wrap r.key d.seed d.secret) d.nonce (ciphertext_of r d v))

  -- `Recipient._encrypt`
  unfoldable pub encrypt : Recipient → Drawn → Value → Option Value
  encrypt r d v =
      leb (length (k.dumps (envelope_of r d v))) max_envelope_bytes >> some (envelope_of r d v)

  abbrev pub same_mode : Mode → Mode → Bool
  same_mode m n = mode_text m == mode_text n

  -- the test of a text that may be absent
  abbrev pub is_some_text : String → Option String → Bool
  is_some_text t none = false
  is_some_text t (some s) = s == t

  abbrev pub link_fits : Recipient → Url → Bool
  link_fits r u =
      is_some_text r.expected_origin (origin (concat "https://" u.netloc))
      && u.scheme == "https"
      && u.query == ""
      && u.fragment == ""

  -- `'=' * (-len(uid) % 4)`
  abbrev pub padding : ℕ → String
  padding n = if n =? 1 then "===" else if n =? 2 then "==" else if n =? 3 then "=" else ""

  abbrev pub padded : String → String
  padded uid = concat uid (padding (length (codes uid) % 4))

  -- the tests of the account and of the expiry
  abbrev pub uid_fits : Artifact → String → Bool
  uid_fits a uid =
      leb 1 a.pk
      && leb a.pk (2 ^ 63 - 1)
      && ltb 0 a.expires_at
      && is_some_text (k.decimal a.pk) (k.url_decode (padded uid))

  unfoldable pub seal_uid : Recipient → Drawn → Artifact → String → Option Value
  seal_uid r d a uid = uid_fits a uid >> encrypt r d (link_payload a.setup_url a.expires_at a.pk)

  -- the tests of the parsed link
  unfoldable pub seal_link : Recipient → Drawn → Artifact → Url → Option Value
  seal_link r d a u = link_fits r u >> (reset_uid u.path >>= seal_uid r d a)

  abbrev pub artifact_fits : Recipient → Artifact → Bool
  artifact_fits r a =
      same_mode a.mode r.mode
      && is_some_text r.target (target_digest a.username a.email)
      && is_ascii a.setup_url
      && leb (length (codes a.setup_url)) 768

  -- `Recipient.seal`
  unfoldable pub seal : Recipient → Drawn → Artifact → Option Value
  seal r d a = artifact_fits r a >> (k.split_url a.setup_url >>= seal_link r d a)

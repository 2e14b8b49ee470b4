-- ===== src/Setup/Agreement.antt =====
-- On the members of an envelope and the tests of the host.
use azd_santa.Base.{
  ℕ, ◌+◌, ◌*◌, ◌/◌, ◌≤◌, String, Bool, true, false, ◌&&◌, Option, none, some, ◌≡◌, refl, sym, subst,
  arith,
}
use azd_santa.Base.{eq_self, length, string_eq, strings_eq}
use azd_santa.Base.Int.{int_eq}
use native.Mathlib.Decide.{ℕ_discrete}
use azd_santa.Base.Text.{codes}
use azd_santa.Json.{Value, Fields, get_field, put_field, keys}
use azd_santa.Json.Hooks.{load, load_pairs, unique_object, unique_onto, ◌>>=◌}
use azd_santa.Platform.{Bytes}
use azd_santa.Sync.Snapshot.{is_text, same_set}
use azd_santa.Setup.Kit.{Kit, loads_unique, text_size}
use azd_santa.Json.{spell}
use azd_santa.Setup.Sealing.{
  ◌>>◌, Recipient, Drawn, mode_text, scope, algorithm, ciphertext_of, envelope_fields, envelope_of,
}
use azd_santa.Setup.Request.{Request, as_text, text_at}
use azd_santa.Setup.Envelope.{envelope_keys, is_one, decodes_within, envelope_fits}

pub guarded :
    {A : Type 0} (b : Bool) (o : Option A) {v : A} → (b >> o) ≡ some v → (b ≡ true) × (o ≡ some v)
guarded true o h = (refl, h)
guarded false o h = cc

infixl 4 ◌also◌
pub ◌also◌ : {a b : Bool} → a ≡ true → b ≡ true → (a && b) ≡ true
◌also◌ p q = ground arith

pub some-injective : {A : Type 0} {a b : A} → some a ≡ some b → a ≡ b
some-injective h = cc

pub bound :
    {A B : Type 0} (o : Option A) (f : A → Option B) {v : B}
    → (o >>= f) ≡ some v
    → (a : A) × (o ≡ some a) × (f a ≡ some v)
bound none f h = cc
bound (some a) f h = (a, refl, h)

-- What the setup programs rely on for one envelope: the object is read back as it was written, and
-- is at least as long as its texts; its three parts are decoded from base64 as they were encoded,
-- four characters for three bytes; a key of 3072 bits wraps into 384 bytes; and AES-GCM adds a tag
-- of 16 bytes to a payload that is not empty.
pub record KitLaws (k : Kit) (r : Recipient k) (d : Drawn k) (p : Value) : Type 0 where
  pub parse-dumps : k.parse (k.dumps (envelope_of k r d p)) ≡ some (spell (envelope_of k r d p))
  pub length-dumps :
      text_size (envelope_fields k r (k.wrap r.key d.seed d.secret) d.nonce (ciphertext_of k r d p))
      ≤ length (k.dumps (envelope_of k r d p))
  pub wrapped_back :
      k.b64decode (k.b64encode (k.wrap r.key d.seed d.secret)) ≡ some (k.wrap r.key d.seed d.secret)
  pub nonce_back : k.b64decode (k.b64encode d.nonce) ≡ some d.nonce
  pub ciphertext_back :
      k.b64decode (k.b64encode (ciphertext_of k r d p)) ≡ some (ciphertext_of k r d p)
  pub length-wrapped :
      length (codes (k.b64encode (k.wrap r.key d.seed d.secret)))
      ≡ 4 * ((length (k.wrap r.key d.seed d.secret) + 2) / 3)
  pub length-ciphertext :
      length (codes (k.b64encode (ciphertext_of k r d p)))
      ≡ 4 * ((length (ciphertext_of k r d p) + 2) / 3)
  pub length-wrap : k.key_size r.key ≡ 3072 → length (k.wrap r.key d.seed d.secret) ≡ 384
  pub length-gcm : length (ciphertext_of k r d p) ≡ length (k.dumps_utf8 p) + 16
  pub payload_nonempty : 1 ≤ length (k.dumps_utf8 p)

module _ (k : Kit) where
  pub loads-dumps :
      (r : Recipient k) (w n c : Bytes)
      → k.parse (k.dumps (Value.obj (envelope_fields k r w n c)))
        ≡ some (spell (Value.obj (envelope_fields k r w n c)))
      → loads_unique k (k.dumps (Value.obj (envelope_fields k r w n c)))
        ≡ some (Value.obj (envelope_fields k r w n c))
  unfolding loads_unique envelope_fields load load_pairs spell unique_object unique_onto get_field
      put_field string_eq
  loads-dumps r w n c law = rw law refl

  decodes :
      (low high : ℕ) (b : Bytes)
      → k.b64decode (k.b64encode b) ≡ some b
      → low ≤ length b
      → length b ≤ high
      → decodes_within k low high (some (k.b64encode b)) ≡ true
  decodes low high b back lo hi =
      rw (decodes_within, back) (ground (arith, eq_self (k.b64encode b)))

  text_fits :
      (key s t : String) (fs : Fields)
      → get_field key fs ≡ some (Value.str s)
      → t ≡ s
      → is_text t (get_field key fs) ≡ true
  unfolding is_text
  text_fits key s t fs found same = rw (found, same) (eq_self s)

  decodes_fits :
      (key : String) (low high : ℕ) (b : Bytes) (fs : Fields)
      → get_field key fs ≡ some (Value.str (k.b64encode b))
      → k.b64decode (k.b64encode b) ≡ some b
      → low ≤ length b
      → length b ≤ high
      → decodes_within k low high (text_at key fs) ≡ true
  decodes_fits key low high b fs found back lo hi =
      subst (λ o. decodes_within k low high (as_text o) ≡ true) (sym found)
        (decodes low high b back lo hi)

  -- the members that the host tests
  module _ (r : Recipient k) (w n c : Bytes) (q : Request) where
    abbrev pub Matches : Type 0
    Matches =
        (mode_text q.mode ≡ mode_text r.mode)
        × (q.context_sha256 ≡ r.context)
        × (q.recipient_sha256 ≡ r.kid)
        × (q.target_sha256 ≡ r.target)

    unfoldable pub fields : Fields
    fields = envelope_fields k r w n c

    key_set : same_set (keys fields) (envelope_keys k) ≡ true
    unfolding same_set keys fields envelope_fields string_eq
    key_set = refl

    version : is_one k (get_field "version" fields) ≡ true
    unfolding get_field fields envelope_fields string_eq int_eq ℕ_discrete
    version = refl

    get_scope : get_field "scope" fields ≡ some (Value.str scope)
    unfolding get_field fields envelope_fields string_eq
    get_scope = refl

    get_algorithm : get_field "algorithm" fields ≡ some (Value.str algorithm)
    unfolding get_field fields envelope_fields string_eq
    get_algorithm = refl

    get_mode : get_field "mode" fields ≡ some (Value.str (mode_text r.mode))
    unfolding get_field fields envelope_fields string_eq
    get_mode = refl

    get_kid : get_field "kid_sha256" fields ≡ some (Value.str r.kid)
    unfolding get_field fields envelope_fields string_eq
    get_kid = refl

    get_context : get_field "context_sha256" fields ≡ some (Value.str r.context)
    unfolding get_field fields envelope_fields string_eq
    get_context = refl

    get_target : get_field "target_sha256" fields ≡ some (Value.str r.target)
    unfolding get_field fields envelope_fields string_eq
    get_target = refl

    get_wrapped : get_field "wrapped_key_base64" fields ≡ some (Value.str (k.b64encode w))
    unfolding get_field fields envelope_fields string_eq
    get_wrapped = refl

    get_nonce : get_field "nonce_base64" fields ≡ some (Value.str (k.b64encode n))
    unfolding get_field fields envelope_fields string_eq
    get_nonce = refl

    get_ciphertext : get_field "ciphertext_base64" fields ≡ some (Value.str (k.b64encode c))
    unfolding get_field fields envelope_fields string_eq
    get_ciphertext = refl

    pub envelope_fits-fields :
        Matches
        → k.b64decode (k.b64encode w) ≡ some w
        → k.b64decode (k.b64encode n) ≡ some n
        → k.b64decode (k.b64encode c) ≡ some c
        → length w ≡ 384
        → length n ≡ 12
        → 17 ≤ length c
        → length c ≤ 1600
        → envelope_fits k q fields ≡ true
    unfolding envelope_fits
    envelope_fits-fields (mode, context, kid, target) bw bn bc hw hn lo hi =
        key_set
        also text_fits "scope" scope scope fields get_scope refl
        also version
        also text_fits "algorithm" algorithm algorithm fields get_algorithm refl
        also text_fits "mode" (mode_text r.mode) (mode_text q.mode) fields get_mode mode
        also text_fits "context_sha256" r.context q.context_sha256 fields get_context context
        also text_fits "kid_sha256" r.kid q.recipient_sha256 fields get_kid kid
        also text_fits "target_sha256" r.target q.target_sha256 fields get_target target
        also decodes_fits "wrapped_key_base64" 384 384 w fields get_wrapped bw (omega arith)
            (omega arith)
        also decodes_fits "nonce_base64" 12 12 n fields get_nonce bn (omega arith) (omega arith)
        also decodes_fits "ciphertext_base64" 17 1600 c fields get_ciphertext bc lo hi

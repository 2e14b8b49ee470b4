-- ===== src/Operator/Accounts.antt =====
-- The accounts, and the records that bind a session to one: `_digest`, `_material`, `_factors`,
-- `_local`, `_stamp`, `_fresh` and `_proof`.
use azd_santa.Base.{
  ℕ, ◌*◌, String, Bool, true, false, not, ◌&&◌, ◌||◌, Option, none, some, List, [], ◌∷◌, map,
}
use azd_santa.Base.{◌==◌, ◌=?◌, string_eq, ltb, if◌then◌else◌}
use azd_santa.Base.Int.{ℤ, int_eq}
use azd_santa.Base.Text.{codes}
use azd_santa.Json.{Value, Fields, get_field, of_list}
use azd_santa.Sync.Snapshot.{is_text}
use azd_santa.Operator.Framework.{Framework}

-- a verification method: a TOTP secret, or a WebAuthn key with its handle, its public key in
-- hexadecimal and its relying party
pub data Device : Type 0 where
  totp : (pk : ℤ) → (secret : String) → Device
  webauthn : (pk : ℤ) → (key_handle public_key rp_id : String) → Device

pub record User : Type 0 where
  pub pk : ℤ
  pub is_active : Bool
  pub is_remote : Bool
  pub is_service_account : Bool
  pub usable_password : Bool
  -- `get_session_auth_hash()`
  pub auth_hash : String

pub record Accounts : Type 0 where
  pub users : List User
  -- the rows of `usertotp_set` and `userwebauthn_set`, with the user's key
  pub devices : List (ℤ × Device)

-- `objects.get(pk=...)`
unfoldable pub find_user : ℤ → List User → Option User
find_user pk [] = none
find_user pk (u ∷ us) = if u.pk == pk then some u else find_user pk us

unfoldable pub devices_of : ℤ → List (ℤ × Device) → List Device
devices_of pk [] = []
devices_of pk ((owner, d) ∷ ds) =
    let rest = devices_of pk ds in if owner == pk then d ∷ rest else rest

-- Python's `<=` of texts, and `sorted`
leq_codes : List ℕ → List ℕ → Bool
leq_codes [] t = true
leq_codes (c ∷ s) [] = false
leq_codes (c ∷ s) (d ∷ t) = ltb c d || c =? d && leq_codes s t

unfoldable pub insert_sorted : String → List String → List String
unfolding leq_codes
insert_sorted x [] = x ∷ []
insert_sorted x (y ∷ ys) =
    if leq_codes (codes x) (codes y) then x ∷ y ∷ ys else y ∷ insert_sorted x ys

unfoldable pub sorted : List String → List String
unfolding insert_sorted
sorted [] = []
sorted (x ∷ xs) = insert_sorted x (sorted xs)

abbrev pub local_backend : String
local_backend = "accounts.auth_backends.ZentralBackend"

-- the keys of a session
abbrev pub enroll_key : String
enroll_key = "azd_santa_enrollment_v1"

abbrev pub proof_key : String
proof_key = "azd_santa_mfa_v1"

abbrev pub seed_key : String
seed_key = "azd_santa_factor_seed_v1"

abbrev pub enroll_seconds : ℕ
enroll_seconds = 600

abbrev pub challenge_seconds : ℕ
challenge_seconds = 300

abbrev pub proof_seconds : ℕ
proof_seconds = 8 * 3600

-- `_local(user)`, for an account of the database
unfoldable pub is_local : User → Bool
is_local u = u.is_active && not u.is_remote && not u.is_service_account && u.usable_password

-- `_local(user, request)`
unfoldable pub is_local_in : User → Fields → Bool
unfolding is_local
is_local_in u session = is_local u && is_text local_backend (get_field "_auth_user_backend" session)

abbrev pub is_nonempty : List String → Bool
is_nonempty [] = false
is_nonempty (x ∷ xs) = true

abbrev pub is_true : Option Value → Bool
is_true (some (Value.bool b)) = b
is_true v = false

module _ (F : Framework) where
  -- `_material`
  unfoldable pub material : Device → String
  unfolding of_list
  material (Device.totp pk secret) =
      F.digest (Value.arr (of_list (Value.str "TOTP" ∷ Value.int pk ∷ Value.str secret ∷ [])))
  material (Device.webauthn pk handle key rp) = F.digest (
      Value.arr (
        of_list (
          Value.str F.webauthn_type
          ∷ Value.int pk
          ∷ Value.str handle
          ∷ Value.str key
          ∷ Value.str rp
          ∷ [])))

  -- `_factors`
  unfoldable pub factors_of : ℤ → Accounts → List String
  unfolding material sorted
  factors_of pk a = sorted (map material (devices_of pk a.devices))

  -- `_digest(factors)`
  unfoldable pub factors_digest : List String → String
  unfolding of_list
  factors_digest factors = F.digest (Value.arr (of_list (map Value.str factors)))

  -- the two members of `_stamp`
  unfoldable pub bears_stamp : Fields → User → Bool
  bears_stamp fs u =
      is_text (F.decimal_of u.pk) (get_field "user" fs) && is_text u.auth_hash (get_field "auth" fs)

  -- `type(issued) in (int, float)`, and the age of it
  unfoldable pub is_recent : Option Value → ℕ → ℕ → Bool
  is_recent (some (Value.int n)) now ttl = F.recent (Value.int n) now ttl
  is_recent (some (Value.float b)) now ttl = F.recent (Value.float b) now ttl
  is_recent issued now ttl = false

  -- `_fresh`
  unfoldable pub is_fresh : Option Value → User → ℕ → ℕ → Bool
  unfolding bears_stamp is_recent
  is_fresh (some (Value.obj fs)) u now ttl =
      bears_stamp fs u && is_recent (get_field "issued" fs) now ttl
  is_fresh record_value u now ttl = false

  -- `str(proof.get('factors'))`
  unfoldable pub claimed_factors : Option Value → String
  claimed_factors (some (Value.obj fs)) = elim (get_field "factors" fs) [
    | none ↦ "None"
    | some (Value.str t) ↦ t
    | some v ↦ F.str_of v
  ]
  claimed_factors proof = "None"

  -- the test of `_proof` that `enrollment_seed` shares
  unfoldable pub is_proven : Fields → User → List String → ℕ → Bool
  unfolding is_fresh claimed_factors factors_digest
  is_proven session u factors now =
      is_nonempty factors
      && is_fresh (get_field proof_key session) u now proof_seconds
      && claimed_factors (get_field proof_key session) == factors_digest factors

  -- `_proof`
  unfoldable pub has_proof : Fields → User → List String → ℕ → Bool
  unfolding is_proven
  has_proof session u factors now =
      is_proven session u factors now && is_true (get_field "mfa_authenticated" session)

  -- `dict(_stamp(user), issued=...)`
  abbrev pub stamped : User → ℕ → Fields → Fields
  stamped u now rest =
      Fields.field "user" (Value.str (F.decimal_of u.pk))
        (Fields.field "auth" (Value.str u.auth_hash) (Fields.field "issued" (Value.float now) rest))

-- `session.pop(key, None)`
unfoldable pub drop_field : String → Fields → Fields
drop_field k Fields.end = Fields.end
drop_field k (Fields.field j v fs) =
    let rest = drop_field k fs in if k == j then rest else Fields.field j v rest

unfoldable pub drop_fields : List String → Fields → Fields
unfolding drop_field
drop_fields [] fs = fs
drop_fields (k ∷ ks) fs = drop_fields ks (drop_field k fs)

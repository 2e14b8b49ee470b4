-- ===== src/Operator/Factor.antt =====
-- The steps of a sign-in: `begin_enrollment`, `enrollment_seed`, `check_seed`, `prepare_mfa` and
-- `complete_mfa`. An exception is `none`, beside what was done before it.
use azd_santa.Base.{
  ℕ, ◌+◌, ◌-◌, ◌*◌, ◌/◌, String, Bool, true, false, not, ◌&&◌, ◌||◌, Option, none, some, List, [],
  ◌∷◌,
}
use azd_santa.Base.{◌==◌, string_eq, contains, if◌then◌else◌}
use azd_santa.Base.Int.{ℤ, pos}
use azd_santa.Base.Text.{is_run, is_token_char, concat}
use azd_santa.Json.{Value, Fields, get_field, put_field}
use azd_santa.Platform.{Platform}
use azd_santa.Sync.Cursor.{equals_int}
use azd_santa.Sync.Snapshot.{is_text}
use azd_santa.Admission.Redis.{Redis}
use azd_santa.Admission.Scripts.{Site}
use azd_santa.Operator.Framework.{Framework}
use azd_santa.Operator.Accounts.{
  Device, User, Accounts, find_user, is_local, is_local_in, local_backend, enroll_key, proof_key,
  seed_key, enroll_seconds, challenge_seconds, material, factors_of, factors_digest, is_fresh,
  is_proven, is_nonempty, stamped, drop_fields,
}
use azd_santa.Operator.Claims.{cache_add}

-- What one request sees: the session, whether it is signed in and as whom, the accounts and the
-- security store.
pub record World (Store : Type 0) : Type 0 where
  pub session : Fields
  pub user : Option User
  pub accounts : Accounts
  pub store : Store

-- `logout(request)`
abbrev pub signed_out : {Store : Type 0} → World Store → World Store
signed_out w = record w { session = Fields.end; user = none }

-- `seed['value']`
abbrev pub seed_value : Option Value → Option Value
seed_value (some (Value.obj fs)) = get_field "value" fs
seed_value v = none

module _ (F : Framework) where
  -- who may see a seed: a fresh proof, or an enrolment with no method yet
  unfoldable pub may_enroll : Fields → User → List String → ℕ → Bool
  may_enroll session user factors now =
      is_local user
      && (is_proven F session user factors now
          || not (is_nonempty factors)
            && is_fresh F (get_field enroll_key session) user now enroll_seconds)

  unfoldable pub proof_of : User → List String → ℕ → Value
  proof_of user factors now = Value.obj (
      stamped F user now (Fields.field "factors" (Value.str (factors_digest F factors)) Fields.end))

module _ (F : Framework) {Store : Type 0} where
  -- `begin_enrollment`: whether it returns
  unfoldable pub begin_enrollment : User → ℕ → World Store → Bool × World Store
  begin_enrollment user now w =
      if not (is_local_in user w.session) || is_nonempty (factors_of F user.pk w.accounts)
      then (false, signed_out w)
      else (
        true,
        record w {
          session = put_field enroll_key (Value.obj (stamped F user now Fields.end)) (
              drop_fields
                (proof_key ∷ seed_key ∷ "mfa_authenticated" ∷ "verification_token"
                  ∷ "webauthn_challenge" ∷ [])
                w.session);
        },
      )

  -- `enrollment_seed`. `drawn` is what `random_base32` returns.
  unfoldable pub enrollment_seed : User → ℕ → String → World Store → Option Value × World Store
  enrollment_seed user now drawn w =
      if not (may_enroll F w.session user (factors_of F user.pk w.accounts) now)
      then (none, w)
      else if is_fresh F (get_field seed_key w.session) user now enroll_seconds
      then (seed_value (get_field seed_key w.session), w)
      else (
        some (Value.str drawn),
        record w {
          session =
              put_field seed_key
                (Value.obj (stamped F user now (Fields.field "value" (Value.str drawn) Fields.end)))
                w.session;
        },
      )

  -- `check_seed`; `none` is the exception of `enrollment_seed`
  unfoldable pub check_seed :
      User → Option String → ℕ → String → World Store → Option Bool × World Store
  check_seed user none now drawn w = (some false, w)
  check_seed user (some submitted) now drawn w =
      let (seed, v) = enrollment_seed user now drawn w in
      (elim seed [ none ↦ none | some value ↦ some (is_text submitted (some value)) ], v)

-- the members of a verification token, and a nonce of 43 characters
abbrev pub is_nonce : Option Value → Bool
is_nonce (some (Value.str t)) = is_run is_token_char 43 t
is_nonce v = false

module _ (P : Platform) (F : Framework) (R : Redis) (site : Site) where
  abbrev pub names_user : Option Value → User → Bool
  names_user none user = false
  names_user (some v) user = equals_int P v user.pk

  -- the test of the token in `prepare_mfa`; what is no dict raises an exception that is caught
  unfoldable pub is_valid_token : Option Value → User → Bool
  is_valid_token (some (Value.obj fs)) user =
      names_user (get_field "user_id" fs) user
      && is_text local_backend (get_field "auth_backend" fs)
      && is_text user.auth_hash (get_field "azd_auth_hash" fs)
      && is_nonce (get_field "azd_nonce" fs)
  is_valid_token v user = false

  -- `'challenge-used:' + _digest(verification_token)`
  abbrev pub challenge_key : Value → String
  challenge_key token = concat "challenge-used:" (F.digest token)

  -- a claim in the store, where an exception is a refusal
  abbrev pub claim_result : World R.Store → Option Bool × R.Store → Bool × World R.Store
  claim_result w (none, t) = (false, record w { store = t })
  claim_result w (some added, t) = (added, record w { store = t })

  abbrev pub claim : String → ℕ → World R.Store → Bool × World R.Store
  claim key seconds w = claim_result w (cache_add R site key seconds w.store)

  abbrev pub totp_key : String → ℕ → String
  totp_key m counter = concat "totp-used:" (concat m (concat ":" (F.decimal_of (pos counter))))

  -- the timestep that the code is of: the present one or the one before (no clock is in the first
  -- 30 seconds of 1970)
  unfoldable pub matched_step : String → Option String → ℕ → Option ℕ
  matched_step secret none now = none
  matched_step secret (some code) now =
      let counter = F.seconds now / 30 in
      if F.totp_at secret (counter * 30) == code
      then some counter
      else if F.totp_at secret ((counter - 1) * 30) == code
      then some (counter - 1)
      else none

  -- A TOTP code is claimed; a WebAuthn key has been tested before.
  unfoldable pub accept_code : Device → Option String → ℕ → World R.Store → Bool × World R.Store
  accept_code (Device.webauthn pk handle key rp) code now w = (true, w)
  accept_code (Device.totp pk secret) code now w = elim (matched_step secret code now) [
    | none ↦ (false, w)
    | some step ↦ claim (totp_key (material F (Device.totp pk secret)) step) 120 w
  ]

  abbrev pub Prepared : Type 0
  Prepared = Option (User × Value) × World R.Store

  -- the proof, once the code is accepted
  unfoldable pub with_code : User → List String → ℕ → Bool × World R.Store → Prepared
  with_code user factors now (false, w) = (none, signed_out w)
  with_code user factors now (true, w) = (some (user, proof_of F user factors now), w)

  -- the code, once the challenge is claimed
  unfoldable pub with_challenge :
      User → List String → Device → Option String → ℕ → Bool × World R.Store → Prepared
  with_challenge user factors device code now (false, w) = (none, signed_out w)
  with_challenge user factors device code now (true, w) =
      with_code user factors now (accept_code device code now w)

  -- from the claim of the challenge on, for an account that has the device
  unfoldable pub claim_challenge :
      User → Device → Option String → Value → ℕ → World R.Store → Prepared
  claim_challenge user device code token now w =
      if not (is_valid_token (F.open_token token now) user)
      then (none, signed_out w)
      else with_challenge user (factors_of F user.pk w.accounts) device code now
          (claim (challenge_key token) (challenge_seconds + 60) w)

  -- no local account, or no method of it
  unfoldable pub is_unfit : User → Option String → Device → World R.Store → Bool
  is_unfit user backend device w =
      not (is_local user)
      || not (elim backend [ none ↦ false | some b ↦ b == local_backend ])
      || not (contains (factors_of F user.pk w.accounts) (material F device))

  -- `prepare_mfa` of an account that the database has. `backend` is `user.backend`.
  unfoldable pub prepare_found :
      User → Option String → Option Device → Option String → Value → ℕ → World R.Store → Prepared
  prepare_found user backend none code token now w = (none, signed_out w)
  prepare_found user backend (some device) code token now w =
      if is_unfit user backend device w
      then (none, signed_out w)
      else claim_challenge user device code token now w

  abbrev pub or_missing :
      Option String
      → Option Device
      → Option String
      → Value
      → ℕ
      → World R.Store
      → Option User
      → Prepared
  or_missing backend device code token now w none = (none, w)
  or_missing backend device code token now w (some user) =
      prepare_found user backend device code token now w

  -- `prepare_mfa`, by the key of the account
  unfoldable pub prepare_mfa :
      ℤ → Option String → Option Device → Option String → Value → ℕ → World R.Store → Prepared
  prepare_mfa pk backend device code token now w =
      or_missing backend device code token now w (find_user pk w.accounts.users)

-- `complete_mfa`
unfoldable pub complete_mfa : Value → Fields → Fields
complete_mfa proof session =
    drop_fields (enroll_key ∷ seed_key ∷ "verification_token" ∷ "webauthn_challenge" ∷ [])
      (put_field "mfa_authenticated" (Value.bool true) (put_field proof_key proof session))

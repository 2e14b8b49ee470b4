-- ===== src/Operator/Proofs.antt =====
-- The proof that a sign-in leaves in its session, and how a change of the methods moves it on.
use azd_santa.Base.{
  ℕ, ◌+◌, String, Bool, true, false, not, ◌≡◌, refl, ap, ◌∙◌, Option, none, some, List, [], ◌∷◌,
  arith,
}
use azd_santa.Base.{◌==◌, string_eq, strings_eq, eq_self, contains, if_cases, if◌then◌else◌}
use azd_santa.Base.Int.{ℤ}
use azd_santa.Json.{Value, Fields, get_field}
use azd_santa.Json.Strict.{get_field-put_field}
use azd_santa.Platform.{Platform}
use azd_santa.Sync.Snapshot.{is_text}
use azd_santa.Admission.Redis.{Redis}
use azd_santa.Admission.Scripts.{Site}
use azd_santa.Operator.Framework.{Framework}
use azd_santa.Operator.Accounts.{
  Device, User, find_user, material, factors_of, factors_digest, is_fresh, is_recent, bears_stamp,
  claimed_factors, is_proven, has_proof, is_nonempty, stamped, drop_field, drop_fields, proof_key,
  seed_key, enroll_key, proof_seconds, challenge_seconds,
}
use azd_santa.Operator.Factor.{
  World, proof_of, with_code, with_challenge, claim, claim_challenge, challenge_key, accept_code,
  is_valid_token, is_unfit, or_missing, prepare_found, prepare_mfa, complete_mfa, Prepared,
}

get_field-drop_field :
    (j k : String) (fs : Fields)
    → get_field j (drop_field k fs) ≡ (if j == k then none else get_field j fs)
unfolding get_field drop_field
get_field-drop_field j k Fields.end = ground arith
get_field-drop_field j k (Fields.field i v fs) = ground (arith, get_field-drop_field j k fs)

-- a key that is none of those dropped
get_field-drop_fields :
    (j : String) (ks : List String) (fs : Fields)
    → contains ks j ≡ false
    → get_field j (drop_fields ks fs) ≡ get_field j fs
unfolding drop_fields
get_field-drop_fields j [] fs h = refl
get_field-drop_fields j (k ∷ ks) fs h =
    get_field-drop_fields j ks (drop_field k fs) (ground arith)
    ∙ ground (arith, get_field-drop_field j k fs)

-- the members that a completed sign-in leaves
complete_mfa-proof :
    (proof : Value) (session : Fields)
    → get_field proof_key (complete_mfa proof session) ≡ some proof
unfolding complete_mfa string_eq
complete_mfa-proof proof session =
    get_field-drop_fields proof_key
      (enroll_key ∷ seed_key ∷ "verification_token" ∷ "webauthn_challenge" ∷ []) _ refl
    ∙ get_field-put_field proof_key "mfa_authenticated" (Value.bool true) _
    ∙ get_field-put_field proof_key proof_key proof session

complete_mfa-flag :
    (proof : Value) (session : Fields)
    → get_field "mfa_authenticated" (complete_mfa proof session) ≡ some (Value.bool true)
unfolding complete_mfa string_eq
complete_mfa-flag proof session =
    get_field-drop_fields "mfa_authenticated"
      (enroll_key ∷ seed_key ∷ "verification_token" ∷ "webauthn_challenge" ∷ []) _ refl
    ∙ get_field-put_field "mfa_authenticated" "mfa_authenticated" (Value.bool true) _

contains-is_nonempty :
    (xs : List String) (x : String) → contains xs x ≡ true → is_nonempty xs ≡ true
contains-is_nonempty [] x h = cc
contains-is_nonempty (y ∷ ys) x h = refl

module _ (F : Framework) (u : User) (now : ℕ) (rest : Fields) where
  stamped-members :
      (get_field "user" (stamped F u now rest) ≡ some (Value.str (F.decimal_of u.pk)))
      × (get_field "auth" (stamped F u now rest) ≡ some (Value.str u.auth_hash))
      × (get_field "issued" (stamped F u now rest) ≡ some (Value.float now))
      × (get_field "factors" (stamped F u now rest) ≡ get_field "factors" rest)
  unfolding get_field string_eq
  stamped-members = (refl, refl, refl, refl)

  stamped-bears : bears_stamp F (stamped F u now rest) u ≡ true
  unfolding bears_stamp is_text
  stamped-bears =
      rw (stamped-members.0, stamped-members.1, eq_self (F.decimal_of u.pk), eq_self u.auth_hash)
        refl

  stamped-fresh :
      (later ttl : ℕ)
      → F.recent (Value.float now) later ttl ≡ true
      → is_fresh F (some (Value.obj (stamped F u now rest))) u later ttl ≡ true
  unfolding is_fresh is_recent
  stamped-fresh later ttl h = rw (stamped-bears, stamped-members.2, h) refl

first_field : (k : String) (v : Value) (fs : Fields) → get_field k (Fields.field k v fs) ≡ some v
unfolding get_field
first_field k v fs = rw (eq_self k) refl

claimed_factors-member :
    (F : Framework) (fs : Fields) (t : String)
    → get_field "factors" fs ≡ some (Value.str t)
    → claimed_factors F (some (Value.obj fs)) ≡ t
unfolding claimed_factors
claimed_factors-member F fs t h = rw (h, claimed_factors) refl

module _ (F : Framework) (u : User) (factors : List String) where
  proof_of-claims :
      (now : ℕ) → claimed_factors F (some (proof_of F u factors now)) ≡ factors_digest F factors
  unfolding proof_of
  proof_of-claims now =
      claimed_factors-member F _ (factors_digest F factors)
        ((stamped-members F u now _).3 ∙ first_field "factors" _ Fields.end)

  proof_of-fresh :
      (now later : ℕ)
      → F.recent (Value.float now) later proof_seconds ≡ true
      → is_fresh F (some (proof_of F u factors now)) u later proof_seconds ≡ true
  unfolding proof_of
  proof_of-fresh now later h = stamped-fresh F u now _ later proof_seconds h

  -- a session whose members are those of a sign-in has a proof while it is recent
  has_proof-of :
      (session : Fields) (now later : ℕ)
      → get_field proof_key session ≡ some (proof_of F u factors now)
      → get_field "mfa_authenticated" session ≡ some (Value.bool true)
      → is_nonempty factors ≡ true
      → F.recent (Value.float now) later proof_seconds ≡ true
      → has_proof F session u factors later ≡ true
  unfolding has_proof is_proven
  has_proof-of session now later proof flag some_factor fresh =
      rw (proof, flag, some_factor, proof_of-claims now, eq_self (factors_digest F factors))
        (rw (proof_of-fresh now later fresh) refl)

module _ (P : Platform) (F : Framework) (R : Redis) (site : Site) (w : World R.Store)
    (now : ℕ) where
  -- what is prepared is the proof of the account's present methods, of which there is one
  unfoldable IsProofOf : Prepared P F R site → Type 0
  IsProofOf o =
      (p : User × Value)
      → o.0 ≡ some p
      → (p.1 ≡ proof_of F p.0 (factors_of F p.0.pk w.accounts) now)
        × (is_nonempty (factors_of F p.0.pk w.accounts) ≡ true)

  module _ (user : User) (some_factor : is_nonempty (factors_of F user.pk w.accounts) ≡ true) where
    with_code-IsProofOf :
        (o : Bool × World R.Store)
        → IsProofOf (with_code P F R site user (factors_of F user.pk w.accounts) now o)
    unfolding IsProofOf with_code
    with_code-IsProofOf (false, v) = λ p h. cc
    with_code-IsProofOf (true, v) = λ p h.
        let is : (user, proof_of F user (factors_of F user.pk w.accounts) now) ≡ p = cc in
        rw (← is) (refl, some_factor)

    with_challenge-IsProofOf :
        (device : Device) (code : Option String) (o : Bool × World R.Store)
        → IsProofOf
            (with_challenge P F R site user (factors_of F user.pk w.accounts) device code now o)
    unfolding IsProofOf with_challenge
    with_challenge-IsProofOf device code (false, v) = λ p h. cc
    with_challenge-IsProofOf device code (true, v) =
        with_code-IsProofOf (accept_code P F R site device code now v)

    claim_challenge-IsProofOf :
        (device : Device) (code : Option String) (token : Value)
        → IsProofOf (claim_challenge P F R site user device code token now w)
    unfolding IsProofOf claim_challenge
    claim_challenge-IsProofOf device code token =
        if_cases IsProofOf (not (is_valid_token P F R site (F.open_token token now) user))
          (λ _ p h. cc)
          λ _.
            with_challenge-IsProofOf device code
              (claim P F R site (challenge_key P F R site token) (challenge_seconds + 60) w)

  fit-contains :
      (user : User) (backend : Option String) (device : Device)
      → is_unfit P F R site user backend device w ≡ false
      → contains (factors_of F user.pk w.accounts) (material F device) ≡ true
  unfolding is_unfit
  fit-contains user backend device fit = ground arith

  or_missing-IsProofOf :
      (backend : Option String) (device : Option Device) (code : Option String) (token : Value)
      → (user : Option User)
      → IsProofOf (or_missing P F R site backend device code token now w user)
  unfolding IsProofOf prepare_found
  or_missing-IsProofOf backend device code token none = λ p h. cc
  or_missing-IsProofOf backend none code token (some user) = λ p h. cc
  or_missing-IsProofOf backend (some device) code token (some user) =
      if_cases IsProofOf (is_unfit P F R site user backend device w) (λ _ p h. cc)
        λ fit.
          claim_challenge-IsProofOf user
            (contains-is_nonempty _ (material F device) (fit-contains user backend device fit))
            device code token

  -- A sign-in that is accepted leaves its session with a proof: for the account it is of, bound to
  -- the methods that the account has, and as long as it is recent.
  pub sign_in_proves :
      (pk : ℤ) (backend : Option String) (device : Option Device) (code : Option String)
      → (token : Value) (u : User) (proof : Value) (session : Fields) (later : ℕ)
      → (prepare_mfa P F R site pk backend device code token now w).0 ≡ some (u, proof)
      → F.recent (Value.float now) later proof_seconds ≡ true
      → has_proof F (complete_mfa proof session) u (factors_of F u.pk w.accounts) later ≡ true
  unfolding prepare_mfa IsProofOf
  sign_in_proves pk backend device code token u proof session later h fresh =
      let (is, some_factor) =
        or_missing-IsProofOf backend device code token (find_user pk w.accounts.users) (u, proof)
          h in
      has_proof-of F u (factors_of F u.pk w.accounts) (complete_mfa proof session) now later
        (complete_mfa-proof proof session ∙ ap some is) (complete_mfa-flag proof session)
        some_factor fresh

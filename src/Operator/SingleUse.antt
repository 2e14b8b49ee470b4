-- ===== src/Operator/SingleUse.antt =====
-- A verification token is accepted once.
use azd_santa.Base.{ℕ, ◌+◌, String, Bool, true, false, not, ◌≡◌, refl, Option, none, some, List}
use azd_santa.Base.{Option-cases, inl, inr, if_cases}
use azd_santa.Base.Int.{ℤ}
use azd_santa.Json.{Value}
use azd_santa.Platform.{Platform}
use azd_santa.Admission.Redis.{Redis, ClaimLaws, is_present}
use azd_santa.Admission.Scripts.{Site, guard}
use azd_santa.Operator.Framework.{Framework}
use azd_santa.Operator.Accounts.{Device, User, find_user, factors_of, challenge_seconds}
use azd_santa.Operator.Claims.{cache_add}
use azd_santa.Operator.Factor.{
  World, claim, claim_result, challenge_key, matched_step, accept_code, with_code, with_challenge,
  claim_challenge, prepare_found, or_missing, is_unfit, prepare_mfa, Prepared, is_valid_token,
}

module _ (P : Platform) (F : Framework) (R : Redis) (site : Site) (laws : ClaimLaws R) where
  -- the key is there afterwards
  claim-present :
      (key : String) (n : ℕ) (w : World R.Store)
      → (claim P F R site key n w).0 ≡ true
      → is_present (R.get key (claim P F R site key n w).1.store) ≡ true
  unfolding cache_add
  claim-present key n w =
      if_cases
        (λ (o : Option Bool × R.Store).
          (claim_result P F R site w o).0 ≡ true
          → is_present (R.get key (claim_result P F R site w o).1.store) ≡ true)
        (guard R site w.store) (λ _ h. laws.set_nx-present key "1" n w.store) (λ _ h. cc)

  claim-taken :
      (key : String) (n : ℕ) (w : World R.Store)
      → is_present (R.get key w.store) ≡ true
      → (claim P F R site key n w).0 ≡ false
  unfolding cache_add
  claim-taken key n w there =
      if_cases (λ (o : Option Bool × R.Store). (claim_result P F R site w o).0 ≡ false)
        (guard R site w.store) (λ _. laws.set_nx-taken key "1" n w.store there) (λ _. refl)

  claim-keeps :
      (j key : String) (n : ℕ) (w : World R.Store)
      → is_present (R.get j w.store) ≡ true
      → is_present (R.get j (claim P F R site key n w).1.store) ≡ true
  unfolding cache_add
  claim-keeps j key n w there =
      if_cases
        (λ (o : Option Bool × R.Store).
          is_present (R.get j (claim_result P F R site w o).1.store) ≡ true)
        (guard R site w.store) (λ _. laws.set_nx-keeps j key "1" n w.store there) (λ _. there)

  accept_code-keeps :
      (j : String) (device : Device) (code : Option String) (now : ℕ) (w : World R.Store)
      → is_present (R.get j w.store) ≡ true
      → is_present (R.get j (accept_code P F R site device code now w).1.store) ≡ true
  unfolding accept_code
  accept_code-keeps j (Device.webauthn pk handle key rp) code now w there = there
  accept_code-keeps j (Device.totp pk secret) code now w there =
      elim (Option-cases (matched_step P F R site secret code now)) [
        | inl unmatched ↦ rw (unmatched, accept_code) there
        | inr (step, matched) ↦ rw (matched, accept_code) (claim-keeps j _ 120 w there)
      ]

  -- a result that is a proof leaves the claim in the store
  unfoldable Claims : String → Prepared P F R site → Type 0
  Claims j o = (p : User × Value) → o.0 ≡ some p → is_present (R.get j o.1.store) ≡ true

  with_code-Claims :
      (j : String) (user : User) (factors : List String) (now : ℕ) (o : Bool × World R.Store)
      → is_present (R.get j o.1.store) ≡ true
      → Claims j (with_code P F R site user factors now o)
  unfolding Claims with_code
  with_code-Claims j user factors now (false, w) there = λ p h. there
  with_code-Claims j user factors now (true, w) there = λ p h. there

  with_challenge-Claims :
      (j : String) (user : User) (factors : List String) (device : Device) (code : Option String)
      → (now : ℕ) (o : Bool × World R.Store) → (o.0 ≡ true → is_present (R.get j o.1.store) ≡ true)
      → Claims j (with_challenge P F R site user factors device code now o)
  unfolding Claims with_challenge
  with_challenge-Claims j user factors device code now (false, w) there = λ p h. cc
  with_challenge-Claims j user factors device code now (true, w) there =
      with_code-Claims j user factors now (accept_code P F R site device code now w)
        (accept_code-keeps j device code now w (there refl))

  claim_challenge-Claims :
      (user : User) (device : Device) (code : Option String) (token : Value) (now : ℕ)
      → (w : World R.Store)
      → Claims
          (challenge_key P F R site token)
          (claim_challenge P F R site user device code token now w)
  unfolding Claims claim_challenge
  claim_challenge-Claims user device code token now w =
      if_cases (Claims (challenge_key P F R site token))
        (not (is_valid_token P F R site (F.open_token token now) user)) (λ _ p h. cc)
        λ _.
          with_challenge-Claims (challenge_key P F R site token) user
            (factors_of F user.pk w.accounts) device code now
            (claim P F R site (challenge_key P F R site token) (challenge_seconds + 60) w)
            (claim-present (challenge_key P F R site token) (challenge_seconds + 60) w)

  or_missing-Claims :
      (backend : Option String) (device : Option Device) (code : Option String) (token : Value)
      → (now : ℕ) (w : World R.Store) (user : Option User)
      → Claims
          (challenge_key P F R site token)
          (or_missing P F R site backend device code token now w user)
  unfolding Claims prepare_found
  or_missing-Claims backend device code token now w none = λ p h. cc
  or_missing-Claims backend none code token now w (some user) = λ p h. cc
  or_missing-Claims backend (some device) code token now w (some user) =
      if_cases (Claims (challenge_key P F R site token)) (is_unfit P F R site user backend device w)
        (λ _ p h. cc) (λ _. claim_challenge-Claims user device code token now w)

  with_challenge-refused :
      (user : User) (factors : List String) (device : Device) (code : Option String) (now : ℕ)
      → (o : Bool × World R.Store) → o.0 ≡ false
      → (with_challenge P F R site user factors device code now o).0 ≡ none
  unfolding with_challenge
  with_challenge-refused user factors device code now (false, w) h = refl
  with_challenge-refused user factors device code now (true, w) h = cc

  abbrev IsRefused : Prepared P F R site → Type 0
  IsRefused o = o.0 ≡ none

  claim_challenge-IsRefused :
      (user : User) (device : Device) (code : Option String) (token : Value) (now : ℕ)
      → (w : World R.Store) → is_present (R.get (challenge_key P F R site token) w.store) ≡ true
      → IsRefused (claim_challenge P F R site user device code token now w)
  unfolding claim_challenge
  claim_challenge-IsRefused user device code token now w there =
      if_cases IsRefused (not (is_valid_token P F R site (F.open_token token now) user)) (λ _. refl)
        λ _.
          with_challenge-refused user (factors_of F user.pk w.accounts) device code now
            (claim P F R site (challenge_key P F R site token) (challenge_seconds + 60) w)
            (claim-taken (challenge_key P F R site token) (challenge_seconds + 60) w there)

  or_missing-IsRefused :
      (backend : Option String) (device : Option Device) (code : Option String) (token : Value)
      → (now : ℕ) (w : World R.Store) (user : Option User)
      → is_present (R.get (challenge_key P F R site token) w.store) ≡ true
      → IsRefused (or_missing P F R site backend device code token now w user)
  unfolding prepare_found
  or_missing-IsRefused backend device code token now w none there = refl
  or_missing-IsRefused backend none code token now w (some user) there = refl
  or_missing-IsRefused backend (some device) code token now w (some user) there =
      if_cases IsRefused (is_unfit P F R site user backend device w) (λ _. refl)
        (λ _. claim_challenge-IsRefused user device code token now w there)

  -- A verification token that has led to a proof leads to no second one: not in any session, for
  -- any account, device or code, as long as the store keeps the claim that the first one made.
  pub token_single_use :
      (pk : ℤ) (backend : Option String) (device : Option Device) (code : Option String)
      → (token : Value) (now : ℕ) (w : World R.Store) (p : User × Value)
      → (pk' : ℤ) (backend' : Option String) (device' : Option Device) (code' : Option String)
      → (now' : ℕ) (v : World R.Store)
      → let first = prepare_mfa P F R site pk backend device code token now w in
        let key = challenge_key P F R site token in
        first.0 ≡ some p
        → (is_present (R.get key first.1.store) ≡ true → is_present (R.get key v.store) ≡ true)
        → (prepare_mfa P F R site pk' backend' device' code' token now' v).0 ≡ none
  unfolding prepare_mfa Claims
  token_single_use pk backend device code token now w p pk' backend' device' code' now' v h keep =
      or_missing-IsRefused backend' device' code' token now' v (find_user pk' v.accounts.users) (
        keep
          (or_missing-Claims backend device code token now w (find_user pk w.accounts.users) p h))

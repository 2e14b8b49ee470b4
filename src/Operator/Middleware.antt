-- ===== src/Operator/Middleware.antt =====
-- The middleware `RequireOperatorMFA` and `_challenge`: what a request passes before its view, and
-- what happens to the session after it.
use azd_santa.Base.{
  ℕ, String, Bool, true, false, not, ◌&&◌, ◌||◌, Option, none, some, List, [], ◌∷◌,
}
use azd_santa.Base.{◌==◌, ◌=?◌, string_eq, strings_eq, contains, leb, length, if◌then◌else◌}
use azd_santa.Base.Int.{ℤ}
use azd_santa.Base.Text.{concat, starts_with}
use azd_santa.Json.{Value, get_field, put_field}
use azd_santa.Sync.Snapshot.{is_text}
use azd_santa.Admission.Redis.{Redis}
use azd_santa.Admission.Scripts.{Site}
use azd_santa.Operator.Framework.{Framework}
use azd_santa.Operator.Accounts.{
  User, Accounts, find_user, is_local, is_local_in, local_backend, enroll_key, proof_key, seed_key,
  enroll_seconds, challenge_seconds, factors_of, factors_digest, is_fresh, has_proof, is_nonempty,
  drop_field,
}
use azd_santa.Operator.Claims.{store_answers, budget}
use azd_santa.Operator.Factor.{World, signed_out, is_nonce}

-- a request: the name of its view, whether it is a POST, the posted name and the key of an account
-- in its path
pub record Request : Type 0 where
  pub name : Option String
  pub is_post : Bool
  -- `str(request.POST.get('username', '')).strip().lower()[:256]`
  pub identity : String
  pub target : Option ℤ

-- what the client gets: the view's response by its status, a refusal of the middleware, a redirect
-- to the sign-in or to the setup, or the page of an exception
pub data Response : Type 0 where
  of_view : ℕ → Response
  refusal : ℕ → Response
  to_login : Response
  to_setup : Response
  crash : Response

abbrev pub setup_view : String
setup_view = "accounts:add_totp"

abbrev pub register_view : String
register_view = "accounts:register_webauthn_device"

abbrev pub verify_views : List String
verify_views = "accounts:verify_totp" ∷ "accounts:verify_webauthn" ∷ []

abbrev pub delete_views : List String
delete_views = "accounts:delete_totp" ∷ "accounts:delete_webauthn_device" ∷ []

abbrev pub token_views : List String
token_views =
    "accounts:create_user_api_token" ∷ "accounts:update_user_api_token"
    ∷ "accounts:create_oidc_api_token_issuer" ∷ "accounts:update_oidc_api_token_issuer" ∷ []

-- `name == view`, and `name in views`
abbrev pub is_view : String → Option String → Bool
is_view view none = false
is_view view (some name) = name == view

abbrev pub is_one_of : List String → Option String → Bool
is_one_of views none = false
is_one_of views (some name) = contains views name

-- a POST that changes the methods of its user
abbrev pub changes_factors : Request → Bool
changes_factors r =
    (is_one_of delete_views r.name || is_view setup_view r.name || is_view register_view r.name)
    && r.is_post

-- what the gate found out for the steps after the view
pub record Cleared : Type 0 where
  pub user : User
  pub factors : List String
  pub verified : Bool
  pub enrolling : Bool

-- the way to the view: with nothing to do after it, or with what was found out
pub data Gate (Store : Type 0) : Type 0 where
  stop : Response → World Store → Gate Store
  free : World Store → Gate Store
  cleared : Cleared → World Store → Gate Store

module _ (F : Framework) (R : Redis) (site : Site) where
  -- the account that a token of `_challenge` names, if it may be challenged
  unfoldable pub challenged : Option Value → ℕ → Accounts → Option User
  challenged none now a = none
  challenged (some token) now a = elim (F.open_token token now) [
    | some (Value.obj fs) ↦ elim (get_field "user_id" fs) [
      | none ↦ none
      | some id ↦ elim (F.key_of id) [
        | none ↦ none
        | some pk ↦ elim (find_user pk a.users) [
          | none ↦ none
          | some u ↦
              if is_local u
                && is_text local_backend (get_field "auth_backend" fs)
                && is_nonce (get_field "azd_nonce" fs)
                && is_text u.auth_hash (get_field "azd_auth_hash" fs)
                && is_nonempty (factors_of F u.pk a)
              then some u
              else none
        ]
      ]
    ]
    | _ ↦ none
  ]

  -- the answer to a spent or an unknown budget; `none` goes on
  abbrev pub over_budget : Option Bool × R.Store → Option Response
  over_budget (none, t) = some (refusal 503)
  over_budget (some true, t) = none
  over_budget (some false, t) = some (refusal 429)

  abbrev pub spend : World R.Store → Option Bool × R.Store → Option Response × World R.Store
  spend w o = (over_budget o, record w { store = o.1 })

  -- `_challenge`
  unfoldable pub challenge : Request → ℕ → World R.Store → Option Response × World R.Store
  challenge r now w = elim (challenged (get_field "verification_token" w.session) now w.accounts) [
    | none ↦ (some to_login, signed_out w)
    | some u ↦
        if r.is_post
        then spend w
            (budget R site (concat "verify:" (F.decimal_of u.pk)) 5 challenge_seconds w.store)
        else (none, w)
  ]

  abbrev pub or_free : Option Response × World R.Store → Gate R.Store
  or_free (none, w) = free w
  or_free (some response, w) = stop response w

  -- a request that is not signed in
  unfoldable pub anonymous : Request → ℕ → World R.Store → Gate R.Store
  anonymous r now w =
      if is_one_of verify_views r.name
      then or_free (challenge r now w)
      else if is_view "login" r.name && r.is_post
      then or_free (
          spend w (
            budget R site (concat "password:" (F.digest (Value.str r.identity))) 10
              challenge_seconds w.store))
      else free w

  -- whether the API views of this request are about a person's account
  abbrev pub targets_person : Request → Accounts → Bool
  targets_person r a = elim r.target [
    | none ↦ false
    | some pk ↦ elim (find_user pk a.users) [ none ↦ false | some u ↦ not u.is_service_account ]
  ]

  -- the tests behind the lock of the account
  unfoldable pub clearance : Request → Cleared → World R.Store → Gate R.Store
  clearance r c w =
      if not c.verified && not c.enrolling
      then stop to_login (signed_out w)
      else if not c.verified && not (is_view setup_view r.name)
      then stop to_setup w
      else if is_one_of delete_views r.name && r.is_post && leb (length c.factors) 1
      then stop (refusal 403) w
      else if is_one_of token_views r.name && targets_person r w.accounts
      then stop (refusal 403) w
      else cleared c w

  abbrev pub cleared_as : User → ℕ → World R.Store → Cleared
  cleared_as u now w =
      let factors = factors_of F u.pk w.accounts in
      record {
        user = u;
        factors = factors;
        verified = has_proof F w.session u factors now;
        enrolling =
            not (is_nonempty factors)
            && is_fresh F (get_field enroll_key w.session) u now enroll_seconds;
      }

  -- a request that is signed in; the lock reads the account again
  unfoldable pub signed_in : Request → ℕ → User → World R.Store → Gate R.Store
  signed_in r now u w =
      if not (is_local_in u w.session)
      then stop (refusal 403) (signed_out w)
      else if is_view "logout" r.name
      then free w
      else if changes_factors r
      then elim (find_user u.pk w.accounts.users) [
        | none ↦ stop crash w
        | some v ↦ clearance r (cleared_as v now w) (record w { user = some v })
      ]
      else clearance r (cleared_as u now w) w

  abbrev pub is_signed_in : World R.Store → Bool
  is_signed_in w = elim w.user [ none ↦ false | some u ↦ true ]

  abbrev pub needs_store : Request → World R.Store → Bool
  needs_store r w =
      not (is_view "logout" r.name)
      && (is_signed_in w || is_view "login" r.name && r.is_post || is_one_of verify_views r.name)

  abbrev pub is_realm_view : Option String → Bool
  is_realm_view none = false
  is_realm_view (some name) = starts_with name "realms_public:"

  -- `if not request.user.is_authenticated`
  unfoldable pub enter : Request → ℕ → World R.Store → Option User → Gate R.Store
  enter r now w none = anonymous r now w
  enter r now w (some u) = signed_in r now u w

  -- `__call__` up to the view
  unfoldable pub gate : Request → ℕ → World R.Store → Gate R.Store
  gate r now w =
      if needs_store r w && not (store_answers R site w.store)
      then stop (refusal 503) w
      else if is_realm_view r.name
      then stop (refusal 403) w
      else enter r now w w.user

  abbrev pub is_success : Response → Bool
  is_success (of_view n) = n =? 200 || n =? 201 || n =? 302
  is_success other = false

  -- `request.session[PROOF] = dict(request.session[PROOF], factors=...)`
  unfoldable pub rebind : List String → Response → World R.Store → Response × World R.Store
  rebind factors response w = elim (get_field proof_key w.session) [
    | some (Value.obj fs) ↦ (
      response,
      record w {
        session =
            put_field proof_key
              (Value.obj (put_field "factors" (Value.str (factors_digest F factors)) fs)) w.session;
      },
    )
    | _ ↦ (crash, w)
  ]

  abbrev pub forget_seed : Bool → World R.Store → World R.Store
  forget_seed b w = if b then record w { session = drop_field seed_key w.session } else w

  -- `__call__` from the view's response on, where the methods may have changed
  unfoldable pub after_change : Cleared → Response × World R.Store → Response × World R.Store
  after_change c (response, w) =
      let after = factors_of F c.user.pk w.accounts in
      let changed = not (after == c.factors) in
      let v = forget_seed (is_success response && changed) w in
      if c.enrolling && is_nonempty after
      then (to_login, signed_out v)
      else if c.verified && changed
      then rebind after response v
      else (response, v)

  abbrev pub reviews : Request → Bool
  reviews r =
      is_view setup_view r.name
      || (is_one_of delete_views r.name || is_view register_view r.name) && r.is_post

  -- from the gate on; `view` is `get_response`
  unfoldable pub pass_on :
      (World R.Store → Response × World R.Store) → Request → Gate R.Store → Response × World R.Store
  pass_on view r (stop response w) = (response, w)
  pass_on view r (free w) = view w
  pass_on view r (cleared c w) = if reviews r then after_change c (view w) else view w

  -- `RequireOperatorMFA.__call__`
  unfoldable pub respond :
      (World R.Store → Response × World R.Store)
      → Request
      → ℕ
      → World R.Store
      → Response × World R.Store
  respond view r now w = pass_on view r (gate r now w)

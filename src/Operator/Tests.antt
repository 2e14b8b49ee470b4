-- ===== src/Operator/Tests.antt =====
-- Sign-ins over a concrete framework and store, and the theorems at concrete data.
use azd_santa.Base.{
  ℕ, zero, suc, ◌+◌, ◌-◌, ◌≤◌, String, true, false, ◌≡◌, refl, none, some, [], ◌∷◌, arith,
}
use azd_santa.Base.{◌==◌, string_eq, strings_eq, nat_eq, bytes_eq, if◌then◌else◌}
use native.Mathlib.Decide.{ℕ_discrete}
use azd_santa.Base.Int.{int_eq, pos}
use azd_santa.Base.Text.{decimal, codes, all, is_digit}
use azd_santa.Base.Dict.{Dict, lookup, insert, lookup-insert}
use azd_santa.Json.{Value, Fields, get_field}
use azd_santa.Platform.{Platform}
use azd_santa.Sync.Cursor.{equals_int}
use azd_santa.Sync.Snapshot.{is_text}
use azd_santa.Admission.Redis.{Redis, Reading, missing, text, CounterLaws, ClaimLaws}
use azd_santa.Admission.Scripts.{
  Site, default_config, store_settings, guard, client_ready, split_marker,
}
use azd_santa.Operator.Framework.{Framework}
use azd_santa.Operator.Accounts.{
  Device, User, find_user, devices_of, is_local, factors_of, material, is_proven, has_proof,
  local_backend,
}
use azd_santa.Operator.Claims.{budget, cache_add, counted_from}
use azd_santa.Operator.Factor.{
  World, prepare_mfa, prepare_found, is_unfit, claim_challenge, with_challenge, with_code,
  accept_code, is_valid_token, matched_step, proof_of, complete_mfa,
}
use azd_santa.Operator.Middleware.{Request, Response, of_view, respond}
use azd_santa.Operator.Protection.{view_protected}
use azd_santa.Operator.Budget.{allowed, used, allowed_bound}
use azd_santa.Operator.SingleUse.{token_single_use}
use azd_santa.Operator.Proofs.{sign_in_proves}

-- a store of one counter, which it shows up to three; a fourth text is no number
shown : ℕ → Reading
shown zero = missing
shown (suc zero) = text "1"
shown (suc (suc zero)) = text "2"
shown (suc (suc (suc zero))) = text "3"
shown (suc (suc (suc (suc zero)))) = text "/4"
shown (suc (suc (suc (suc (suc n))))) = missing

abbrev counting : Redis
counting = record {
  Store = ℕ;
  time = λ s. 100;
  type_of = λ k s. "none";
  ttl = λ k s. pos 30;
  get = λ k s. if k == "marker" then text "ab:99" else shown s;
  hget = λ k f s. none;
  hkeys = λ k s. [];
  set_ex = λ k v n s. 1;
  incr = λ k s. suc s;
  set_nx = λ k v n s. (true, s);
  set = λ k v s. s;
  setting = λ k s. lookup k store_settings;
  aof_status = λ s. some "ok";
  hset = λ k f v s. s;
  hdel = λ k f s. s;
  tostring = λ n. "";
}

shown-suc :
    (n : ℕ) (v : String)
    → shown n ≡ text v
    → all is_digit (codes v) ≡ true
    → (t : String) × (shown (suc n) ≡ text t) × (decimal t ≡ decimal v + 1)
unfolding shown decimal
shown-suc zero v h d = cc
shown-suc (suc zero) v h d = let is : "1" ≡ v = cc in ("2", refl, rw (← is) refl)
shown-suc (suc (suc zero)) v h d = let is : "2" ≡ v = cc in ("3", refl, rw (← is) refl)
shown-suc (suc (suc (suc zero))) v h d = let is : "3" ≡ v = cc in ("/4", refl, rw (← is) refl)
shown-suc (suc (suc (suc (suc zero)))) v h d = let is : "/4" ≡ v = cc in cc (rw (← is) at d)
shown-suc (suc (suc (suc (suc (suc n))))) v h d = cc

counting_laws : CounterLaws counting "verify:1"
unfolding string_eq shown
counting_laws = record { get-set_ex = λ n s. refl; get-incr = λ v s h d. shown-suc s v h d }

abbrev site : Site
site = record {
  marker = "marker";
  state = "state";
  global = "sync-global";
  store_id = "ab";
  fingerprint = "f";
  config = default_config;
}

abbrev stay : ℕ → ℕ
stay s = s

-- of four attempts two are allowed
two_of_four : allowed counting site "verify:1" 2 300 (stay ∷ stay ∷ stay ∷ stay ∷ []) 0 ≡ 2
unfolding allowed budget counted_from guard client_ready split_marker shown lookup string_eq
    bytes_eq decimal
two_of_four = refl

allowed_bound_example :
    allowed counting site "verify:1" 2 300 (stay ∷ stay ∷ stay ∷ stay ∷ []) 0
    ≤ 2 - used (counting.get "verify:1" 0)
allowed_bound_example =
    allowed_bound counting site "verify:1" 2 300 counting_laws (stay ∷ stay ∷ stay ∷ stay ∷ []) 0
      ((λ t. refl), ((λ t. refl), ((λ t. refl), ((λ t. refl), tt))))

-- a store of texts and claims
abbrev Texts : Type 0
Texts = Dict String String

abbrev claiming : Redis
claiming = record {
  Store = Texts;
  time = λ s. 100;
  type_of = λ k s. "none";
  ttl = λ k s. pos 30;
  get = λ k s. elim (lookup k s) [ none ↦ missing | some v ↦ text v ];
  hget = λ k f s. none;
  hkeys = λ k s. [];
  set_ex = λ k v n s. insert k v s;
  incr = λ k s. s;
  set_nx = λ k v n s. elim (lookup k s) [ none ↦ (true, insert k v s) | some _ ↦ (false, s) ];
  set = λ k v s. insert k v s;
  setting = λ k s. lookup k store_settings;
  aof_status = λ s. some "ok";
  hset = λ k f v s. s;
  hdel = λ k f s. s;
  tostring = λ n. "";
}

claiming_laws : ClaimLaws claiming
claiming_laws = record {
  set_nx-taken = λ k v n s h. ground (arith);
  set_nx-present = λ k v n s. ground (arith, lookup-insert k k v s);
  set_nx-keeps = λ j k v n s h. ground (arith, lookup-insert j k v s);
}

-- texts by their first member; every time is recent; the token is its own content
abbrev framework : Framework
framework = record {
  digest = λ v. elim v [ Value.arr vs ↦ "factor" | other ↦ "token" ];
  str_of = λ v. "";
  recent = λ v now ttl. true;
  seconds = λ n. n;
  decimal_of = λ n. if n == pos 1 then "1" else "2";
  open_token = λ v now. some v;
  key_of = λ v. some (pos 1);
  totp_at = λ secret time. secret;
  webauthn_type = "WebAuthn";
}

abbrev platform : Platform
platform = record {
  dumps = λ v. none;
  parse = λ raw. none;
  sha256 = λ raw. "";
  hmac = λ key raw. [];
  b64encode = λ raw. "";
  b64decode = λ t. none;
  float_equals = λ bits n. false;
  inflate = λ wbits raw limit. none;
  utf8 = λ raw. none;
  parse_text = λ t. none;
  normalize = λ t. t;
  to_int = λ t. none;
}

abbrev operator : User
operator = record {
  pk = pos 1;
  is_active = true;
  is_remote = false;
  is_service_account = false;
  usable_password = true;
  auth_hash = "h";
}

abbrev key : Device
key = Device.webauthn (pos 7) "handle" "public" "party"

abbrev token : Value
token = Value.obj (
    Fields.field "user_id" (Value.int (pos 1)) (
      Fields.field "auth_backend" (Value.str local_backend) (
        Fields.field "azd_auth_hash" (Value.str "h") (
          Fields.field "azd_nonce" (Value.str "aaaaaaaaaaaaaaaaaaaaaaaaaaaaaaaaaaaaaaaaaaa")
            Fields.end))))

abbrev world : World Texts
world = record {
  session = Fields.end;
  user = none;
  accounts = record { users = operator ∷ []; devices = (pos 1, key) ∷ [] };
  store = ("marker", "ab:99") ∷ [];
}

abbrev accepted_proof : Value
accepted_proof = proof_of framework operator (factors_of framework (pos 1) world.accounts) 50

accepted :
    (prepare_mfa platform framework claiming site
      (pos 1)
      (some local_backend)
      (some key)
      none
      token
      50
      world).0
    ≡ some (operator, accepted_proof)
unfolding prepare_mfa prepare_found is_unfit claim_challenge with_challenge with_code accept_code
    is_valid_token matched_step cache_add guard client_ready split_marker lookup string_eq bytes_eq
    decimal find_user devices_of is_local factors_of is_text get_field equals_int int_eq material
accepted = refl

sign_in_proves_example :
    has_proof framework
      (complete_mfa accepted_proof Fields.end)
      operator
      (factors_of framework (pos 1) world.accounts)
      60
    ≡ true
sign_in_proves_example =
    sign_in_proves platform framework claiming site world 50 (pos 1) (some local_backend) (some key)
      none token operator accepted_proof Fields.end 60 accepted refl

abbrev after : World Texts
after =
    (prepare_mfa platform framework claiming site (pos 1) (some local_backend) (some key) none token
      50 world).1

token_single_use_example :
    (prepare_mfa platform framework claiming site
      (pos 1)
      (some local_backend)
      (some key)
      none
      token
      70
      (record world { store = after.store })).0
    ≡ none
token_single_use_example =
    token_single_use platform framework claiming site claiming_laws (pos 1) (some local_backend)
      (some key) none token 50 world (operator, accepted_proof) (pos 1) (some local_backend)
      (some key) none 70 (record world { store = after.store }) accepted (λ h. h)

-- a signed-in session without a proof
abbrev unproven : World Texts
unproven = record world {
  session = Fields.field "_auth_user_backend" (Value.str local_backend) Fields.end;
  user = some operator;
}

abbrev asked : Request
asked = record { name = some "inventory:index"; is_post = false; identity = ""; target = none }

abbrev view : World Texts → Response × World Texts
view w = (of_view 200, w)

abbrev other_view : World Texts → Response × World Texts
other_view w = (of_view 500, w)

no_proof :
    has_proof framework unproven.session operator
      (factors_of framework (pos 1) unproven.accounts)
      60
    ≡ false
unfolding has_proof is_proven get_field string_eq factors_of devices_of int_eq ℕ_discrete
no_proof = refl

view_protected_example :
    respond framework claiming site view asked 60 unproven
    ≡ respond framework claiming site other_view asked 60 unproven
unfolding string_eq find_user int_eq ℕ_discrete factors_of devices_of
view_protected_example =
    view_protected framework claiming site asked 60 operator unproven refl refl no_proof refl view
      other_view refl

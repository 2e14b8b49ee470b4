-- ===== src/Admission/Scripts.antt =====
-- The scripts of experiments/server/santa_admission.py, with the guard of the store that
-- experiments/server/operator_mfa.py puts in front of each. A script that returns an error reply,
-- or that fails, is `none`.
use azd_santa.Base.{
  ℕ, zero, suc, ◌+◌, ◌-◌, String, Bool, true, false, not, ◌&&◌, ◌||◌, Option, none, some, List, [],
  ◌∷◌,
}
use azd_santa.Base.{◌==◌, string_eq, bytes_eq, ◌=?◌, ltb, leb, length, any, if◌then◌else◌}
use azd_santa.Base.Int.{ℤ, int_eq, pos, negsuc, ltb_ℤ}
use azd_santa.Base.Text.{codes, all, is_digit, is_hex, is_run, is_token_char, decimal, decimal_from}
use azd_santa.Admission.Redis.{Redis, missing, wrong_type, text}

-- `Config`, without the trust of proxies
pub record Config : Type 0 where
  pub window : ℕ
  pub global_max : ℕ
  pub source_max : ℕ
  pub credential_max : ℕ
  pub capacity : ℕ

abbrev pub default_config : Config
default_config = record {
  window = 60;
  global_max = 120;
  source_max = 60;
  credential_max = 30;
  capacity = 1;
}

-- What `_eval` gives to every script: the keys of the marker and of the state, the expected store,
-- the fingerprint of the configuration.
pub record Site : Type 0 where
  pub marker : String
  pub state : String
  pub global : String
  pub store_id : String
  pub fingerprint : String
  pub config : Config

-- The match of `^([0-9a-f]+):(%d+)$`: what stands before the colon, and the number behind it.
unfoldable pub split_marker : List ℕ → List ℕ → Option (List ℕ × ℕ)
unfolding decimal_from
split_marker id [] = none
split_marker id (c ∷ s) =
    let longer = split_marker (c ∷ id) s in
    if c =? b':'
    then (if length id =? 0 || length s =? 0 || not (all is_digit s)
        then none
        else some (id, decimal_from 0 s))
    else if is_hex c
    then longer
    else none

abbrev pub reverse_onto : List ℕ → List ℕ → List ℕ
reverse_onto acc [] = acc
reverse_onto acc (x ∷ xs) = reverse_onto (x ∷ acc) xs

-- the slot that a field of one digit names
abbrev pub digit_of : String → Option ℕ
digit_of field = elim (codes field) [
  | c ∷ [] ↦ if is_digit c then some (c - 48) else none
  | _ ↦ none
]

-- a permit of `VALIDATE`: its slot below the capacity, its token of 43 characters
unfoldable pub is_permit : ℕ → String → Option String → Bool
is_permit capacity field none = false
is_permit capacity field (some token) = elim (digit_of field) [
  | none ↦ false
  | some i ↦ ltb i capacity && is_run is_token_char 43 token
]

abbrev pub leading_zero : List ℕ → Bool
leading_zero [] = false
leading_zero (c ∷ _) = c =? b'0'

-- The test of a counter. A text of at most five digits is what `tostring` writes if it does not
-- start with a zero.
unfoldable pub is_counter : String → ℤ → ℕ → ℕ → Bool
is_counter v ttl max window =
    not (length (codes v) =? 0)
    && all is_digit (codes v)
    && not (ltb 5 (length (codes v)))
    && not (ltb (decimal v) 1)
    && not (leading_zero (codes v))
    && not (ltb max (decimal v))
    && not (ltb_ℤ ttl (pos 0))
    && not (ltb_ℤ (pos window) ttl)

-- the reply of `ACQUIRE`
pub data Reply : Type 0 where
  refused : ℤ → Reply
  granted : String → Reply

abbrev pub at_least_one : ℤ → ℤ
at_least_one n = if ltb_ℤ (pos 1) n then n else pos 1

-- `STORE_SETTINGS`
abbrev pub store_settings : List (String × String)
store_settings =
    ("appendonly", "yes")
    ∷ ("appendfsync", "always")
    ∷ ("aof-load-truncated", "no")
    ∷ ("maxmemory-policy", "noeviction")
    ∷ ("no-appendfsync-on-rewrite", "no")
    ∷ []

abbrev pub is_value : String → Option String → Bool
is_value t none = false
is_value t (some v) = v == t

-- The test of `_security_client`, which every call of a script goes through.
unfoldable pub client_ready : (R : Redis) → R.Store → Bool
client_ready R s =
    not (any (λ p. not (is_value p.1 (R.setting p.0 s))) store_settings)
    && is_value "ok" (R.aof_status s)

module _ (R : Redis) (site : Site) where
  -- `_security_client`, and `STORE_GUARD` in front of the script
  unfoldable pub guard : R.Store → Bool
  unfolding split_marker client_ready
  guard s = client_ready R s && elim (R.get site.marker s) [
    | missing ↦ false
    | wrong_type ↦ false
    | text marker ↦ elim (split_marker [] (codes marker)) [
      | none ↦ false
      | some (id, ready) ↦ reverse_onto [] id == codes site.store_id && not (ltb (R.time s) ready)
    ]
  ]

  abbrev pub is_generation : Option String → Bool
  is_generation none = false
  is_generation (some g) = is_run is_hex 32 g

  -- `VALIDATE`
  unfoldable pub validate : R.Store → Bool
  unfolding is_permit
  validate s =
      R.type_of site.state s == "hash"
      && R.ttl site.state s == negsuc 0
      && is_value site.fingerprint (R.hget site.state "config" s)
      && is_generation (R.hget site.state "generation" s)
      && not (ltb (2 + site.config.capacity) (length (R.hkeys site.state s)))
      && not (
          any
            (λ field. not (
              field == "config"
              || field == "generation"
              || is_permit site.config.capacity field (R.hget site.state field s)))
            (R.hkeys site.state s))

  -- `counts[i]`; `none` is an error
  unfoldable pub count_of : String → ℕ → R.Store → Option ℕ
  count_of key max s = elim (R.get key s) [
    | missing ↦ some 0
    | wrong_type ↦ none
    | text v ↦ if is_counter v (R.ttl key s) max site.config.window then some (decimal v) else none
  ]

  abbrev pub bump : String → ℕ → R.Store → R.Store
  bump key count s = if count =? 0 then R.set_ex key "1" site.config.window s else R.incr key s

  abbrev pub is_free : ℕ → R.Store → Bool
  is_free i s = elim (R.hget site.state (R.tostring i) s) [ none ↦ true | some _ ↦ false ]

  -- the first free slot from `i` on, among `k`
  unfoldable pub free_from : ℕ → ℕ → R.Store → Option ℕ
  free_from zero i s = none
  free_from (suc k) i s = let later = free_from k (suc i) s in if is_free i s then some i else later

  -- the permit, once the global counter is raised
  unfoldable pub grant : String → String → ℕ → ℕ → String → R.Store → Option Reply × R.Store
  grant source credential in_source in_credential token s =
      if leb site.config.source_max in_source
      then (some (refused (at_least_one (R.ttl source s))), s)
      else if leb site.config.credential_max in_credential
      then (some (refused (at_least_one (R.ttl credential s))), s)
      else elim (free_from site.config.capacity 0 s) [
        | none ↦ (some (refused (pos 1)), s)
        | some i ↦ (
          some (granted (R.tostring i)),
          R.hset site.state (R.tostring i) token
              (bump credential in_credential (bump source in_source s)),
        )
      ]

  -- `ACQUIRE` behind its tests
  unfoldable pub count_and_grant :
      String → String → ℕ → ℕ → ℕ → String → R.Store → Option Reply × R.Store
  count_and_grant source credential in_global in_source in_credential token s =
      if leb site.config.global_max in_global
      then (some (refused (at_least_one (R.ttl site.global s))), s)
      else grant source credential in_source in_credential token (bump site.global in_global s)

  -- `ACQUIRE`
  unfoldable pub acquire : String → String → String → R.Store → Option Reply × R.Store
  acquire source credential token s =
      if not (guard s && validate s)
      then (none, s)
      else elim (count_of site.global site.config.global_max s) [
        | none ↦ (none, s)
        | some n ↦ elim (count_of source site.config.source_max s) [
          | none ↦ (none, s)
          | some m ↦ elim (count_of credential site.config.credential_max s) [
            | none ↦ (none, s)
            | some l ↦ count_and_grant source credential n m l token s
          ]
        ]
      ]

  -- `RELEASE`
  unfoldable pub release : String → String → R.Store → Option ℕ × R.Store
  release slot token s =
      if not (guard s && validate s)
      then (none, s)
      else if is_value token (R.hget site.state slot s)
      then (some 1, R.hdel site.state slot s)
      else (some 0, s)

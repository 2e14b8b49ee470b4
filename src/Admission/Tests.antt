-- ===== src/Admission/Tests.antt =====
-- Runs of the admission over a concrete store, and the theorems at concrete data.
use azd_santa.Base.{List, ◌&&◌}
use azd_santa.Base.{ℕ, ◌+◌, String, false, ◌≡◌, ◌≢◌, ◌⊎◌, refl, Option, none, some, [], ◌∷◌, map}
use azd_santa.Base.{◌==◌, string_eq, bytes_eq, get_elem?, if◌then◌else◌}
use azd_santa.Base.Int.{int_eq, pos, negsuc}
use azd_santa.Base.Text.{decimal}
use azd_santa.Base.Dict.{Dict, lookup, insert, erase, lookup-insert, lookup-erase}
use azd_santa.Admission.Redis.{Redis, RedisLaws, missing, text}
use azd_santa.Admission.Scripts.{
  default_config, Site, store_settings, granted, acquire, release, guard, validate, split_marker,
  is_permit, is_counter, count_of, free_from, grant, count_and_grant,
}
use azd_santa.Admission.Middleware.{World, response, returned, admit_reply, admit, settle}
use azd_santa.Admission.Permits.{Permits, acquire-Permits, release_effect}
use azd_santa.Base.{suc, zero, true, ◌<◌}
use azd_santa.Admission.Upkeep.{reconcile, reconcile_effect, check, global_ok}
use azd_santa.Admission.Exclusion.{Event, arrive, depart, happen, response-released}

-- one hash, whatever its key, and the strings
abbrev TestStore : Type 0
TestStore = Dict String String × Dict String String

digit : ℕ → String
digit n =
    elim (get_elem? {A = String} ("0" ∷ "1" ∷ "2" ∷ "3" ∷ "4" ∷ "5" ∷ "6" ∷ "7" ∷ "8" ∷ "9" ∷ [])
      n) [ none ↦ "10" | some t ↦ t ]

raise_text : Option String → String
unfolding digit
raise_text none = "1"
raise_text (some v) = digit (decimal v + 1)

abbrev redis : Redis
redis = record {
  Store = TestStore;
  time = λ s. 100;
  type_of = λ k s. "hash";
  ttl = λ k s. if k == "state" then negsuc 0 else pos 30;
  get = λ k s. elim (lookup k s.1) [ none ↦ missing | some v ↦ text v ];
  hget = λ k f s. lookup f s.0;
  hkeys = λ k s. map (λ p. p.0) s.0;
  set_ex = λ k v n s. (s.0, insert k v s.1);
  incr = λ k s. (s.0, insert k (raise_text (lookup k s.1)) s.1);
  set_nx =
      λ k v n s. elim (lookup k s.1) [ none ↦ (true, (s.0, insert k v s.1)) | some _ ↦ (false, s) ];
  set = λ k v s. (s.0, insert k v s.1);
  setting = λ k s. lookup k store_settings;
  aof_status = λ s. some "ok";
  hset = λ k f v s. (insert f v s.0, s.1);
  hdel = λ k f s. (erase f s.0, s.1);
  tostring = digit;
}

redis_laws : RedisLaws redis
redis_laws = record {
  hget-set_ex = λ k j f v n s h. refl;
  hget-incr = λ k j f s h. refl;
  hget-hset = λ k f g v s. lookup-insert f g v s.0;
  hget-hdel = λ k f g s. lookup-erase f g s.0;
}

abbrev site : Site
site = record {
  marker = "marker";
  state = "state";
  global = "sync-global";
  store_id = "ab";
  fingerprint = "f";
  config = default_config;
}

abbrev idle : TestStore
idle = (
  ("config", "f") ∷ ("generation", "00000000000000000000000000000000") ∷ [],
  ("marker", "ab:99") ∷ [],
)

abbrev token_a : String
token_a = "aaaaaaaaaaaaaaaaaaaaaaaaaaaaaaaaaaaaaaaaaaa"

abbrev token_b : String
token_b = "bbbbbbbbbbbbbbbbbbbbbbbbbbbbbbbbbbbbbbbbbbb"

apart_global : (site.state == site.global) ≡ false
unfolding string_eq
apart_global = refl

apart_source : (site.state == "sync-source:1") ≡ false
unfolding string_eq
apart_source = refl

apart_credential : (site.state == "sync-credential:1") ≡ false
unfolding string_eq
apart_credential = refl

abbrev arrival : String → Event redis site
arrival token =
    arrive "/santa/sync/secret/preflight/machine" "sync-source:1" "sync-credential:1" token
      apart_source apart_credential

-- the first request is let in
lets_in :
    (acquire redis site "sync-source:1" "sync-credential:1" token_a idle).0 ≡ some (granted "0")
unfolding acquire guard validate split_marker is_permit is_counter count_of count_and_grant grant
    free_from lookup insert string_eq bytes_eq int_eq digit decimal raise_text
lets_in = refl

acquire-Permits_example :
    Permits redis site token_a idle
      (acquire redis site "sync-source:1" "sync-credential:1" token_a idle)
acquire-Permits_example =
    acquire-Permits redis redis_laws site "sync-source:1" "sync-credential:1" token_a apart_source
      apart_credential apart_global idle

-- with one request of another path
abbrev calls : List (Event redis site)
calls =
    arrival token_a
    ∷ arrive "/admin/" "sync-source:1" "sync-credential:1" "x" apart_source apart_credential
    ∷ arrival token_b
    ∷ depart returned token_a
    ∷ depart returned "x"
    ∷ arrival token_b
    ∷ []

-- the application while the first request is in it
abbrev busy : World TestStore
busy = record {
  store = (
    insert "0" token_a idle.0,
    insert "sync-credential:1" "1" (insert "sync-source:1" "1" (insert "sync-global" "1" idle.1)),
  );
  inside = token_a ∷ [];
  passing = [];
}

becomes_busy :
    (happen redis site (arrival token_a) (record { store = idle; inside = []; passing = [] }))
    ≡ busy
unfolding happen admit admit_reply acquire guard validate split_marker is_permit is_counter count_of
    count_and_grant grant free_from lookup insert string_eq bytes_eq int_eq digit decimal raise_text
becomes_busy = refl

answers : (settle redis site returned token_a busy).0 ≡ response
unfolding settle release acquire guard validate split_marker is_permit is_counter count_of
    count_and_grant grant free_from lookup insert string_eq bytes_eq int_eq digit decimal raise_text
answers = refl

response-released_example :
    (some token_a ≡ some token_a)
    × (lookup "0" (settle redis site returned token_a busy).1.store.0 ≡ none)
unfolding lookup insert string_eq
response-released_example = response-released redis redis_laws site token_a busy answers

release_effect_example :
    let o = release redis site "0" token_b busy.store in
    let held = guard redis site busy.store && validate redis site busy.store in
    ((o.0 ≡ some 1)
      × (held ≡ true)
      × (lookup "0" busy.store.0 ≡ some token_b)
      × ((f : String) → lookup f o.1.0 ≡ (if f == "0" then none else lookup f busy.store.0)))
    ⊎ ((o.0 ≢ some 1)
        × (o.1 ≡ busy.store)
        × ((held ≡ false) ⊎ (lookup "0" busy.store.0 ≢ some token_b)))
release_effect_example = release_effect redis redis_laws site "0" token_b busy.store

digit_apart : (n : ℕ) → (digit n == "generation") ≡ false
unfolding digit string_eq
digit_apart zero = refl
digit_apart (suc zero) = refl
digit_apart (suc (suc zero)) = refl
digit_apart (suc (suc (suc zero))) = refl
digit_apart (suc (suc (suc (suc zero)))) = refl
digit_apart (suc (suc (suc (suc (suc zero))))) = refl
digit_apart (suc (suc (suc (suc (suc (suc zero)))))) = refl
digit_apart (suc (suc (suc (suc (suc (suc (suc zero))))))) = refl
digit_apart (suc (suc (suc (suc (suc (suc (suc (suc zero)))))))) = refl
digit_apart (suc (suc (suc (suc (suc (suc (suc (suc (suc zero))))))))) = refl
digit_apart (suc (suc (suc (suc (suc (suc (suc (suc (suc (suc n)))))))))) = refl

reconcile_effect_example :
    let o = reconcile redis site "11111111111111111111111111111111" busy.store in
    ((o.0 ≡ some 1)
      × (lookup "generation" o.1.0 ≡ some "11111111111111111111111111111111")
      × ((j : ℕ) → j < 1 → lookup (digit j) o.1.0 ≡ none))
    ⊎ ((o.0 ≡ none) × (o.1 ≡ busy.store))
reconcile_effect_example =
    reconcile_effect redis redis_laws site "11111111111111111111111111111111" busy.store digit_apart

-- the check that waits for an empty application
waits : check redis site true busy.store ≡ none
unfolding check global_ok guard validate split_marker is_permit is_counter count_of lookup insert
    string_eq bytes_eq int_eq digit decimal
waits = refl

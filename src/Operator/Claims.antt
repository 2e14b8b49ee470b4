-- ===== src/Operator/Claims.antt =====
-- The security store: `check_security_store`, `_cache_add`, `_budget` and the migration of
-- `initialize_security_store`. An error reply, or any other exception, is `none`.
use azd_santa.Base.{ℕ, ◌+◌, String, Bool, true, false, not, ◌&&◌, ◌||◌, Option, none, some}
use azd_santa.Base.{◌==◌, ◌=?◌, string_eq, ltb, leb, length, if◌then◌else◌}
use azd_santa.Base.Text.{codes, all, is_digit, decimal, concat}
use azd_santa.Admission.Redis.{Redis, Reading, missing, wrong_type, text}
use azd_santa.Operator.Accounts.{challenge_seconds}
use azd_santa.Admission.Scripts.{Site, guard, client_ready}

-- `^%d+$`
abbrev pub is_count_text : String → Bool
is_count_text v = not (length (codes v) =? 0) && all is_digit (codes v)

module _ (R : Redis) (site : Site) where
  -- `check_security_store`: whether it returns
  unfoldable pub store_answers : R.Store → Bool
  store_answers s = guard R site s

  -- `_cache_add(key, True, seconds)`
  unfoldable pub cache_add : String → ℕ → R.Store → Option Bool × R.Store
  cache_add key seconds s =
      if guard R site s
      then (let (added, t) = R.set_nx key "1" seconds s in (some added, t))
      else (none, s)

  -- the count that the script of `_budget` returns, by what `GET` has found
  unfoldable pub counted_from : String → ℕ → ℕ → R.Store → Reading → Option ℕ × R.Store
  counted_from key seconds maximum s missing = (some 1, R.set_ex key "1" seconds s)
  counted_from key seconds maximum s wrong_type = (none, s)
  counted_from key seconds maximum s (text v) =
      if not (is_count_text v) || ltb (decimal v) 1
      then (none, s)
      else if leb maximum (decimal v)
      then (some (maximum + 1), s)
      else (some (decimal v + 1), R.incr key s)

  abbrev pub counted : String → ℕ → ℕ → R.Store → Option ℕ × R.Store
  counted key seconds maximum s = counted_from key seconds maximum s (R.get key s)

  abbrev pub within_budget : ℕ → Option ℕ × R.Store → Option Bool × R.Store
  within_budget maximum (none, s) = (none, s)
  within_budget maximum (some n, s) = (some (leb n maximum), s)

  -- `_budget`
  unfoldable pub budget : String → ℕ → ℕ → R.Store → Option Bool × R.Store
  budget key maximum seconds s =
      if guard R site s then within_budget maximum (counted key seconds maximum s) else (none, s)

  abbrev is_missing : String → R.Store → Bool
  is_missing key s = elim (R.get key s) [ missing ↦ true | wrong_type ↦ false | text v ↦ false ]

  -- `tostring(ready)` behind the identity of the store
  abbrev pub marker_text : ℕ → R.Store → String
  marker_text delay s = concat site.store_id (concat ":" (R.tostring (R.time s + delay)))

  -- the script of a migration
  unfoldable pub migrate_marker : ℕ → R.Store → Bool × R.Store
  migrate_marker delay s =
      if is_missing site.marker s
      then (true, R.set site.marker (marker_text delay s) s)
      else (false, s)

  -- `initialize_fresh` of experiments/server/santa_admission.py: the marker and the admission state
  -- in one script. `generation` is drawn.
  unfoldable pub initialize_fresh : String → ℕ → R.Store → Bool × R.Store
  initialize_fresh generation delay s =
      if not (is_missing site.marker s) || not (R.type_of site.state s == "none")
      then (false, s)
      else (
        true,
        R.hset site.state "generation" generation (
            R.hset site.state "config" site.fingerprint
              (R.set site.marker (marker_text delay s) s)),
      )

  -- `initialize_security_store`: whether it returns. `vacant` is `_fresh_authority_empty()`.
  unfoldable pub initialize_security_store :
      String → Bool → Bool → String → R.Store → Bool × R.Store
  initialize_security_store mode vacant quiesced generation s =
      if mode == "fresh"
      then (if vacant && client_ready R s then initialize_fresh generation 0 s else (false, s))
      else if mode == "migrate" && quiesced && client_ready R s
      then migrate_marker (challenge_seconds + 60) s
      else (false, s)

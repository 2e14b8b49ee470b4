-- ===== src/Admission/Middleware.antt =====
-- `Admission.__call__`, in its two halves: what comes before the view and what comes after it.
-- Between them other requests run theirs.
use azd_santa.Base.{ℕ, String, Bool, false, Option, none, some, List, [], ◌∷◌}
use azd_santa.Base.{◌==◌, string_eq, ◌=?◌, any, if◌then◌else◌}
use azd_santa.Base.Text.{starts_with}
use azd_santa.Admission.Identity.{prefixes}
use azd_santa.Base.Int.{ℤ, pos, ltb_ℤ}
use azd_santa.Admission.Redis.{Redis}
use azd_santa.Admission.Scripts.{
  Config, Site, Reply, refused, granted, at_least_one, acquire, release,
}

-- what the client gets: the view's response, its exception, or a rejection with its Retry-After
pub data Answer : Type 0 where
  response : Answer
  reraised : Answer
  rejected : (status : ℕ) → (retry : ℤ) → Answer

-- how the view has ended
pub data Ending : Type 0 where
  returned : Ending
  streaming : Ending
  raised : Ending

-- `inside` holds the tokens of the requests whose view may be running with a permit; `passing` names
-- the requests of other paths whose view may be running, which have none.
pub record World (Store : Type 0) : Type 0 where
  pub store : Store
  pub inside : List String
  pub passing : List String

-- `request.path_info.startswith(PREFIXES)`
abbrev pub is_synced : String → Bool
is_synced path = any (starts_with path) prefixes

-- `max(1, min(CONFIG.window, int(retry)))`
abbrev pub retry_after : Config → ℤ → ℤ
retry_after config n = at_least_one (if ltb_ℤ n (pos config.window) then n else pos config.window)

abbrev pub unavailable : Config → Answer
unavailable config = rejected 503 (retry_after config (pos 1))

-- `_eval(...) == 1`, where an error is `none`
abbrev pub is_one : Option ℕ → Bool
is_one none = false
is_one (some n) = n =? 1

unfoldable pub without : String → List String → List String
without token [] = []
without token (t ∷ ts) = let kept = without token ts in if t == token then kept else t ∷ kept

module _ (R : Redis) (site : Site) where
  -- what the reply of `ACQUIRE` leads to; `none` is the way to the view
  unfoldable pub admit_reply :
      String → World R.Store → Option Reply × R.Store → Option Answer × World R.Store
  admit_reply token w (none, t) = (some (unavailable site.config), record w { store = t })
  admit_reply token w (some (refused n), t) =
      (some (rejected 429 (retry_after site.config n)), record w { store = t })
  admit_reply token w (some (granted slot), t) =
      if slot == "0"
      then (none, record w { store = t; inside = token ∷ w.inside })
      else (some (unavailable site.config), record w { store = t })

  -- what `identity` returns leads to a permit; `none` is where it raises
  abbrev pub admit_identity :
      Option (String × String) → String → World R.Store → Option Answer × World R.Store
  admit_identity none token w = (some (unavailable site.config), w)
  admit_identity (some (source, credential)) token w =
      admit_reply token w (acquire R site source credential token w.store)

  -- Up to the view. A path without a prefix goes straight to it; the token is drawn for the others,
  -- and for these only names the request.
  unfoldable pub admit :
      (path : String)
      → Option (String × String)
      → String
      → World R.Store
      → Option Answer × World R.Store
  admit path who token w =
      if is_synced path
      then admit_identity who token w
      else (none, record w { passing = token ∷ w.passing })

  -- the end of a request that went straight to the view
  unfoldable pub pass : Ending → String → World R.Store → Answer × World R.Store
  pass raised token w = (reraised, record w { passing = without token w.passing })
  pass returned token w = (response, record w { passing = without token w.passing })
  pass streaming token w = (response, record w { passing = without token w.passing })

  -- from the view's end on
  unfoldable pub settle : Ending → String → World R.Store → Answer × World R.Store
  settle streaming token w = (unavailable site.config, w)
  settle raised token w = (
    reraised,
    record w { store = (release R site "0" token w.store).1; inside = without token w.inside },
  )
  settle returned token w = (
    if is_one (release R site "0" token w.store).0 then response else unavailable site.config,
    record w { store = (release R site "0" token w.store).1; inside = without token w.inside },
  )

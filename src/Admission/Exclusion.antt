-- ===== src/Admission/Exclusion.antt =====
-- On the requests that are in the application at once, whose halves interleave.
use azd_santa.Base.{ℕ, String, false, ◌≡◌, Option, none, some, List, [], ◌∷◌, arith}
use azd_santa.Base.{◌==◌, string_eq, contains, inl, inr, if◌then◌else◌}
use azd_santa.Admission.Redis.{Redis, RedisLaws}
use azd_santa.Admission.Scripts.{Site}
use azd_santa.Admission.Middleware.{
  World, response, Ending, returned, unavailable, is_one, admit, settle, pass,
}
use azd_santa.Admission.Permits.{Permits, release_effect}

module _ (R : Redis) (site : Site) where
  -- What happens to a world: a request arrives, on any path, the view of one that is inside ends, or the store
  -- changes by itself (counters expire) and keeps the fields of the admission state.
  pub data Event : Type 0 where
    arrive :
        (path source credential token : String)
        → (site.state == source) ≡ false
        → (site.state == credential) ≡ false
        → Event
    depart : Ending → String → Event
    elapse :
        (change : R.Store → R.Store)
        → ((s : R.Store) (f : String) → R.hget site.state f (change s) ≡ R.hget site.state f s)
        → Event

  unfoldable pub happen : Event → World R.Store → World R.Store
  happen (arrive path source credential token _ _) w =
      (admit R site path (some (source, credential)) token w).1
  happen (depart ending token) w =
      if contains w.inside token
      then (settle R site ending token w).1
      else if contains w.passing token
      then (pass R site ending token w).1
      else w
  happen (elapse change _) w = record w { store = change w.store }

  unfoldable pub happen_all : List Event → World R.Store → World R.Store
  happen_all [] w = w
  happen_all (e ∷ es) w = happen_all es (happen e w)

  -- Whoever is inside is alone, and the one slot holds its token.
  unfoldable pub IsAlone : R.Store → List String → Type 0
  IsAlone s [] = Unit
  IsAlone s (token ∷ []) = R.hget site.state "0" s ≡ some token
  IsAlone s (_ ∷ _ ∷ _) = ⊥

module _ (R : Redis) (laws : RedisLaws R) (site : Site) where
  responds :
      (o : Option ℕ)
      → (if is_one o then response else unavailable site.config) ≡ response
      → o ≡ some 1
  responds none h = cc
  responds (some n) h = ground arith

  -- A response that reaches the client has given its permit back: the slot held the token of the
  -- request, and is free in the store that is left.
  pub response-released :
      (token : String) (w : World R.Store)
      → (settle R site returned token w).0 ≡ response
      → (R.hget site.state "0" w.store ≡ some token)
        × (R.hget site.state "0" (settle R site returned token w).1.store ≡ none)
  unfolding settle
  response-released token w h = elim (release_effect R laws site "0" token w.store) [
    | inl (given, _, held, gone) ↦ (held, ground (arith, gone "0"))
    | inr (kept, same, _) ↦ absurd (kept (responds _ h))
  ]

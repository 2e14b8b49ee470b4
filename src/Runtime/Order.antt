-- ===== src/Runtime/Order.antt =====
-- What the supervisor of experiments/server/runtime_service.py starts and stops, and when: a law for
-- every event, that all its actions keep.
use azd_santa.Base.{
  String, Bool, true, false, not, ◌&&◌, ◌||◌, some, List, [], ◌∷◌, ◌≡◌, ◌⊎◌, refl, arith,
}
use azd_santa.Base.{◌==◌, contains, All, string_eq}
use azd_santa.Runtime.Docker.{Host, Setup, Event, Row, Generation}
use azd_santa.Runtime.Rows.{every, dependencies}
use azd_santa.Runtime.Containers.{values, rows_of, single_row, is_helper}
use azd_santa.Runtime.Showing.{IsOneOf}
use azd_santa.Runtime.Keeping.{Assertion, Stable, is_harmless}

-- the checks that an application waits for
abbrev pub store_checks : List String
store_checks = "search" ∷ "sync-admission" ∷ "security-store" ∷ "source-schema-store" ∷ []

module _ (H : Host) where
  -- whether this event is a helper that succeeded with the check
  unfoldable pub is_pass : String → Event → List Event → Bool
  is_pass label (Event.helper name l) t =
      let r = H.reply t (Event.helper name l) in l == label && r.success && not r.timed_out
  is_pass label e t = false

  unfoldable pub passed : String → List Event → Bool
  unfolding is_pass
  passed label [] = false
  passed label (e ∷ t) = is_pass label e t || passed label t

  -- whether no signal arrived
  unfoldable pub quiet : List Event → Bool
  quiet [] = true
  quiet (e ∷ t) = not (H.signalled (e ∷ t)) && quiet t

  -- a container of a generation that was recorded
  abbrev pub Recorded : String → Type 0
  Recorded id =
      (t : List Event) × (g : Generation) × (H.generation t ≡ some g)
      × (contains (values g.container_ids) id ≡ true)

  -- a name of a helper that was drawn
  abbrev pub Drawn : String → Type 0
  Drawn name = (t : List Event) × (name ≡ H.fresh_name t)

  every-passed :
      (e : Event) (t : List Event) (labels : List String)
      → every (λ l. passed l t) labels ≡ true
      → every (λ l. passed l (e ∷ t)) labels ≡ true
  every-passed e t [] h = refl
  every-passed e t (l ∷ ls) h =
      let more : passed l (e ∷ t) ≡ (is_pass l e t || passed l t) = unfold passed in refl in
      ground (arith, more, every-passed e t ls)

module _ (H : Host) (S : Setup) where
  -- a container that Docker showed under a name that was drawn: of the service `web` of the project,
  -- and of its image
  abbrev pub IsOwnHelper : String → Type 0
  IsOwnHelper id =
      (t : List Event) × (name : String) × (rows : List Row) × (row : Row) × Drawn H name
      × (rows_of (H.reply t (Event.inspect_helper name)).output ≡ some rows)
      × (single_row H S rows ≡ some row)
      × (is_helper H S name row ≡ true)
      × (row.id ≡ id)

  abbrev pub Permits : Event → List Event → Type 0
  Permits (Event.start label ids) t =
      (quiet H t ≡ true)
      × (All (IsOneOf H S dependencies) ids ⊎ (every (λ l. passed H l t) store_checks ≡ true))
  Permits (Event.helper name label) t = quiet H t ≡ true
  Permits (Event.stop ids) t = All (Recorded H) ids
  Permits (Event.stop_helper id) t = IsOwnHelper id
  Permits e t = Unit

  unfoldable pub Lawful : List Event → Type 0
  Lawful [] = Unit
  Lawful (e ∷ t) = Permits e t × Lawful t

  abbrev pub Stage : List String → Assertion
  Stage labels t b c d =
      Lawful t
      × ((b || quiet H t) ≡ true)
      × All (Recorded H) c
      × All (Drawn H) d
      × (every (λ l. passed H l t) labels ≡ true)

  Permits-harmless : (e : Event) (t : List Event) → is_harmless e ≡ true → Permits e t
  Permits-harmless (Event.start label ids) t h = cc
  Permits-harmless (Event.helper name label) t h = cc
  Permits-harmless (Event.stop ids) t h = cc
  Permits-harmless (Event.stop_helper id) t h = cc
  Permits-harmless e t h = tt

  pub Stage-add :
      (labels : List String) (e : Event) (t : List Event) (b : Bool) (c d : List String)
      → Permits e t
      → Stage labels t b c d
      → Stage labels (e ∷ t) (b || H.signalled (e ∷ t)) c d
  unfolding Lawful quiet
  Stage-add labels e t b c d p (lawful, flag, owned, drawn, checks) =
      ((p, lawful), ground arith, owned, drawn, every-passed H e t labels checks)

  pub Stage-Stable : (labels : List String) → Stable H (Stage labels)
  Stage-Stable labels e t b c d h = Stage-add labels e t b c d (Permits-harmless e t h)

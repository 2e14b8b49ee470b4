-- ===== src/Runtime/Showing.antt =====
-- Where the selection of `Runtime.inspect` comes from: the rows that Docker showed, each of a service
-- of the project.
use azd_santa.Base.{
  ℕ, zero, suc, String, Bool, true, false, not, Option, none, some, List, [], ◌∷◌, ◌≡◌, refl, subst,
  sym, ap, ◌∙◌, arith,
}
use azd_santa.Base.{◌==◌, contains, get_elem?, All, if_cases, string_eq, eq_sound}
use azd_santa.Base.Dict.{Dict, lookup, insert, lookup-insert}
use azd_santa.Runtime.Docker.{Host, Setup, Event, Row, Service, Reply}
use azd_santa.Runtime.Machine.{or_fail, fail_if, checked_call}
use azd_santa.Runtime.Rows.{every, names, row_fits}
use azd_santa.Runtime.Containers.{
  rows_of, owner, select_from, render_from, image_from, select_rows, inspect, pick,
}
use azd_santa.Runtime.Keeping.{Assertion, Triple, Stable, bind, or_fail-Keeps, fail_if-Keeps}
use azd_santa.Runtime.Picking.{cons_found-All}
use azd_santa.Runtime.Told.{Told, call-Told, read-Told}
use azd_santa.Runtime.Steady.{select_from-Keeps, render_from-Keeps, image_from-Keeps}

some-injective : {A : Type 0} {a b : A} → some a ≡ some b → a ≡ b
some-injective h = cc

each-All :
    {A : Type 0} (P : A → Type 0) (xs : List A)
    → ((i : ℕ) (x : A) → get_elem? xs i ≡ some x → P x)
    → All P xs
each-All P [] h = tt
each-All P (x ∷ xs) h = (h zero x refl, each-All P xs λ i y there. h (suc i) y there)

module _ (S : Setup) where
  abbrev IsOwned : Row → String → Type 0
  IsOwned row name = (row.service ≡ some name) × (names S.project row.project ≡ true)

  -- a service that is not selected yet
  abbrev unselected : String → Option Service → Option String → Option (String × Service)
  unselected n o u = elim o [
    | none ↦ none
    | some found ↦ elim u [ none ↦ some (n, found) | some _ ↦ none ]
  ]

  found_name :
      (n : String) (o : Option Service) (u : Option String) {name : String} {service : Service}
      → unselected n o u ≡ some (name, service)
      → n ≡ name
  found_name n none u h = cc
  found_name n (some found) none h = ap (λ (a, _). a) (some-injective h)
  found_name n (some found) (some id) h = cc

  owner-IsOwned :
      (selected : Dict String String) (row : Row) (o : Option String)
      → row.service ≡ o
      → {name : String} {service : Service} → owner S selected row ≡ some (name, service)
      → IsOwned row name
  owner-IsOwned selected row none e h = cc (rw e at h)
  owner-IsOwned selected row (some n) e {name} {service} h =
      if_cases (λ (o : Option (String × Service)). o ≡ some (name, service) → IsOwned row name)
        (names S.project row.project)
        (λ ours found.
          (e ∙ ap some (found_name n (lookup n S.services) (lookup n selected) found), ours))
        (λ _ found. cc) (rw e at h)

module _ (H : Host) (S : Setup) where
  -- a container that an answer to `docker inspect` shows as one of this service of the project
  abbrev pub IsShown : String → String → Type 0
  IsShown name id =
      (t : List Event) × (asked : List String) × (rows : List Row) × (i : ℕ) × (row : Row)
      × (rows_of (H.reply t (Event.inspect_rows asked)).output ≡ some rows)
      × (get_elem? rows i ≡ some row)
      × (row.service ≡ some name)
      × (names S.project row.project ≡ true)
      × (row.id ≡ id)

  -- a row of a reply
  abbrev IsRow : Row → Type 0
  IsRow row =
      (t : List Event) × (asked : List String) × (rows : List Row) × (i : ℕ) × (rows_of
          (H.reply t (Event.inspect_rows asked)).output
        ≡ some rows)
      × (get_elem? rows i ≡ some row)

  abbrev pub Shown : Dict String String → Type 0
  Shown selected = (name id : String) → lookup name selected ≡ some id → IsShown name id

  insert-Shown :
      (selected : Dict String String) (name : String) (row : Row)
      → Shown selected
      → IsRow row
      → IsOwned S row name
      → Shown (insert name row.id selected)
  insert-Shown selected name row shown (t, asked, rows, i, told, there) (service, project) n id h =
      if_cases (λ (o : Option String). o ≡ some id → IsShown n id) (n == name)
        (λ same (e : some row.id ≡ some id). (
          t,
          asked,
          rows,
          i,
          row,
          told,
          there,
          subst (λ m. row.service ≡ some m) (sym (eq_sound n name same)) service,
          project,
          some-injective e,
        ))
        (λ _. shown n id) (subst (λ o. o ≡ some id) (lookup-insert n name row.id selected) h)

  empty-Shown : Shown []
  unfolding lookup
  empty-Shown name id h = cc

  module _ (K : Assertion) (stable : Stable H K) where
    select_rows-Shown :
        (running : Bool) (rendered : Dict String (Dict String String)) (rows : List Row)
        (selected : Dict String String)
        → All IsRow rows
        → Shown selected
        → Triple K
            (select_rows H S running rendered rows selected)
            (λ found t b c d. K t b c d × Shown found)
            K
    unfolding select_rows
    select_rows-Shown running rendered [] selected all shown = λ s h. (h, shown)
    select_rows-Shown running rendered (row ∷ rows) selected (one, all) shown =
        let Q : Dict String String → Assertion = λ found t b c d. K t b c d × Shown found in
        bind K (λ own t b c d. K t b c d × (owner S selected row ≡ some own)) Q K
          (or_fail (owner S selected row)) _ (read-Told H K stable (owner S selected row))
          λ (name, service) s (h, own).
            bind K (λ _. K) Q K
              (λ s. image_from H S service.image (lookup service.image s.images) s) _
              (λ s. image_from-Keeps H S K stable service.image (lookup service.image s.images) s)
              (λ image.
                bind K (λ _. K) Q K (or_fail (lookup name rendered)) _ (or_fail-Keeps K _)
                  λ environment.
                    bind K (λ _. K) Q K
                      (fail_if (not (row_fits S name service image environment running row))) _
                      (fail_if-Keeps K _)
                      λ _.
                        select_rows-Shown running rendered rows (insert name row.id selected) all (
                          insert-Shown selected name row shown one
                            (owner-IsOwned S selected row row.service refl own)))
              s h

    pub inspect-Shown :
        (running : Bool)
        → Triple K (inspect H S running) (λ found t b c d. K t b c d × Shown found) K
    unfolding inspect
    inspect-Shown running =
        let Q : Dict String String → Assertion = λ found t b c d. K t b c d × Shown found in
        bind K (λ _. K) Q K (λ s. select_from H S s.ids s) _
          (λ s. select_from-Keeps H S K stable s.ids s)
          λ ids.
            bind K (λ _. K) Q K (fail_if _) _ (fail_if-Keeps K _)
              λ _.
                bind K (Told H K stable (Event.inspect_rows ids)) Q K
                  (checked_call H (Event.inspect_rows ids)) _
                  (call-Told H K stable (Event.inspect_rows ids) false false refl)
                  λ r s (h, (t, told)).
                    bind K (λ rows t b c d. K t b c d × (rows_of r.output ≡ some rows)) Q K
                      (or_fail (rows_of r.output)) _ (read-Told H K stable (rows_of r.output))
                      (λ rows s (h, read).
                        let at : rows_of (H.reply t (Event.inspect_rows ids)).output ≡ some rows =
                          subst (λ (x : Reply). rows_of x.output ≡ some rows) told read in
                        bind K (λ _. K) Q K (fail_if _) _ (fail_if-Keeps K _)
                          (λ _.
                            bind K (λ _. K) Q K (λ s. render_from H S s.rendered s) _
                              (λ s. render_from-Keeps H S K stable s.rendered s)
                              λ rendered.
                                bind K Q Q K (select_rows H S running rendered rows []) _
                                  (select_rows-Shown running rendered rows []
                                    (each-All IsRow rows
                                      λ i row there. (t, ids, rows, i, at, there))
                                    empty-Shown)
                                  λ selected s h. h)
                          s h)
                      s h

  -- a container that Docker showed as one of one of these services
  abbrev pub IsOneOf : List String → String → Type 0
  IsOneOf services id = (name : String) × (contains services name ≡ true) × IsShown name id

  -- what is picked of a selection for some of the services
  pub pick-IsOneOf :
      (selected : Dict String String) (services : List String)
      → Shown selected
      → (ns : List String) → every (contains services) ns ≡ true
      → {ids : List String} → pick selected ns ≡ some ids
      → All (IsOneOf services) ids
  pick-IsOneOf selected services shown [] sub h =
      subst (All (IsOneOf services)) (some-injective h) tt
  pick-IsOneOf selected services shown (n ∷ ns) sub h =
      cons_found-All (IsOneOf services) (lookup n selected) (pick selected ns)
        (λ v found. (n, ground arith, shown n v found))
        (λ vs. pick-IsOneOf selected services shown ns (ground arith)) h

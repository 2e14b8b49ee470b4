-- ===== src/Runtime/Containers.antt =====
-- `Runtime.inspect`, `start_ids`, `oneoff`, `stop_helpers` and `stop`.
use azd_santa.Base.{String, Bool, true, false, not, ◌&&◌, Option, none, some, List, [], ◌∷◌, map}
use azd_santa.Base.{◌==◌, ◌=?◌, contains, length, string_eq, if◌then◌else◌}
use azd_santa.Base.Dict.{Dict, lookup, insert}
use azd_santa.Base.Text.{concat, is_hex, is_run}
use azd_santa.Runtime.Docker.{Host, Image, Row, Service, Setup, Event, Output}
use azd_santa.Runtime.Machine.{
  Outcome, Action, ◌>>=◌, ◌>>◌, pure, fail_if, or_fail, demand, ensure_running, call, checked_call,
  always,
}
use azd_santa.Runtime.Rows.{every, names, same_set, row_fits}

abbrev pub words_of : Output → Option (List String)
words_of (Output.words ws) = some ws
words_of _ = none

abbrev pub rows_of : Output → Option (List Row)
rows_of (Output.rows rs) = some rs
rows_of _ = none

abbrev pub image_in : Output → Option Image
image_in (Output.image i) = some i
image_in _ = none

abbrev pub rendered_in : Output → Option (Dict String (Dict String String))
rendered_in (Output.rendered r) = some r
rendered_in _ = none

abbrev pub values : Dict String String → List String
values = map (λ (_, id). id)

abbrev pub row_ids : List Row → List String
row_ids = map (λ row. row.id)

-- `selected[name] for name in names`
abbrev pub cons_found : Option String → Option (List String) → Option (List String)
cons_found none ids = none
cons_found (some id) none = none
cons_found (some id) (some ids) = some (id ∷ ids)

abbrev pub pick : Dict String String → List String → Option (List String)
pick selected [] = some []
pick selected (n ∷ ns) = cons_found (lookup n selected) (pick selected ns)

abbrev pub is_identity : String → Bool
is_identity = is_run is_hex 64

-- the service of a row that is of this project and not selected yet
abbrev pub owner : Setup → Dict String String → Row → Option (String × Service)
owner S selected row = elim row.service [
  | none ↦ none
  | some name ↦
      if names S.project row.project
      then elim (lookup name S.services) [
        | none ↦ none
        | some service ↦ elim (lookup name selected) [ none ↦ some (name, service) | some _ ↦ none ]
      ]
      else none
]

module _ (H : Host) (S : Setup) where
  -- the identities that `self.ids` holds, or those that Docker lists
  unfoldable pub select_from : List String → Action (List String)
  select_from [] = do r ← checked_call H Event.list_project; or_fail (words_of r.output)
  select_from (id ∷ ids) = pure (id ∷ ids)

  abbrev pub keep_rendered :
      Dict String (Dict String String) → Action (Dict String (Dict String String))
  keep_rendered rendered s = (Outcome.done rendered, record s { rendered = some rendered })

  -- what `self.rendered` holds, or what compose renders
  unfoldable pub render_from :
      Option (Dict String (Dict String String)) → Action (Dict String (Dict String String))
  render_from none = do
    r ← checked_call H Event.render
    rendered ← or_fail (rendered_in r.output)
    keep_rendered rendered
  render_from (some rendered) = pure rendered

  abbrev pub keep_image : String → Image → Action Image
  keep_image ref image s = (Outcome.done image, record s { images = insert ref image s.images })

  -- an image that is known, or that Docker inspects
  unfoldable pub image_from : String → Option Image → Action Image
  image_from ref none = do
    r ← checked_call H (Event.inspect_image ref)
    image ← or_fail (image_in r.output)
    keep_image ref image
  image_from ref (some image) = pure image

  -- the loop of `inspect` over the rows
  unfoldable pub select_rows :
      (running : Bool)
      → Dict String (Dict String String)
      → List Row
      → Dict String String
      → Action (Dict String String)
  select_rows running rendered [] selected = pure selected
  select_rows running rendered (row ∷ rows) selected = do
    (name, service) ← or_fail (owner S selected row)
    image ← (λ s. image_from service.image (lookup service.image s.images) s)
    environment ← or_fail (lookup name rendered)
    fail_if (not (row_fits S name service image environment running row))
    select_rows running rendered rows (insert name row.id selected)

  abbrev pub keep_ids : Dict String String → Action (Dict String String)
  keep_ids selected s = (Outcome.done selected, record s { ids = values selected })

  -- `inspect`
  unfoldable pub inspect : (running : Bool) → Action (Dict String String)
  inspect running = do
    ids ← (λ s. select_from s.ids s)
    fail_if (not (length ids =? 7 && every is_identity ids))
    r ← checked_call H (Event.inspect_rows ids)
    rows ← or_fail (rows_of r.output)
    fail_if (not (length rows =? 7 && same_set (row_ids rows) ids))
    rendered ← (λ s. render_from s.rendered s)
    selected ← select_rows running rendered rows []
    keep_ids selected

  -- `start_ids`
  unfoldable pub start_ids : String → List String → Action (Unit {0})
  start_ids label services = do
    ensure_running
    demand H.binding_holds
    selected ← inspect false
    ids ← or_fail (pick selected services)
    r ← checked_call H (Event.start label ids)
    pure tt

  abbrev pub web_image : Option String
  web_image = elim (lookup "web" S.services) [ none ↦ none | some w ↦ some w.image ]

  -- whether a row is the helper of this name
  abbrev pub is_helper : String → Row → Bool
  is_helper name row =
      row.name == concat "/" name
      && names S.project row.project
      && names "web" row.service
      && names row.image web_image

  abbrev pub drop_name : String → List String → List String
  drop_name name [] = []
  drop_name name (n ∷ ns) = if n == name then ns else n ∷ drop_name name ns

  abbrev pub single_row : List Row → Option Row
  single_row (row ∷ []) = some row
  single_row _ = none

  -- a helper that Docker shows, and one that it does not show
  unfoldable pub clear_helper : String → (shown : Bool) → Output → Action (Unit {0})
  clear_helper name true output = do
    rows ← or_fail (rows_of output)
    row ← or_fail (single_row rows)
    fail_if (not (is_helper name row))
    r ← call H (Event.stop_helper row.id) false true
    pure tt
  clear_helper name false output = do
    r ← call H Event.list_names false true
    found ← or_fail (words_of r.output)
    fail_if (contains found name)

  abbrev pub forget_helper : String → Action (Unit {0})
  forget_helper name s = (Outcome.done tt, record s { helpers = drop_name name s.helpers })

  unfoldable pub stop_each : List String → Action (Unit {0})
  stop_each [] = pure tt
  stop_each (name ∷ rest) = do
    r ← call H (Event.inspect_helper name) true true
    clear_helper name r.success r.output
    forget_helper name
    stop_each rest

  -- `stop_helpers`
  unfoldable pub stop_helpers : Action (Unit {0})
  stop_helpers s = stop_each s.helpers s

  -- `docker compose run` of a helper
  unfoldable pub call_helper : String → String → Action (Unit {0})
  call_helper label name = do r ← checked_call H (Event.helper name label); pure tt

  unfoldable pub run_helper : String → String → Action (Unit {0})
  run_helper label name s =
      always (call_helper label name) stop_helpers (record s { helpers = name ∷ s.helpers })

  -- `oneoff`, and `python`, which calls it
  unfoldable pub oneoff : String → Action (Unit {0})
  oneoff label = do
    ensure_running
    demand H.binding_holds
    selected ← inspect false
    (λ s. run_helper label (H.fresh_name s.trace) s)

  -- the containers that the cleanup may stop, as far as they are there
  abbrev pub still_there : List String → List String → List String
  still_there [] current = []
  still_there (id ∷ ids) current =
      if contains current id then id ∷ still_there ids current else still_there ids current

  -- stopping some containers, where there are any
  unfoldable pub stop_containers : List String → Action (Unit {0})
  stop_containers [] = pure tt
  stop_containers (id ∷ ids) = do r ← call H (Event.stop (id ∷ ids)) false true; pure tt

  unfoldable pub stop_present : List String → Action (Unit {0})
  stop_present [] = pure tt
  stop_present (id ∷ ids) = do
    r ← call H Event.list_all false true
    current ← or_fail (words_of r.output)
    stop_containers (still_there (id ∷ ids) current)

  unfoldable pub stop_authorized : Action (Unit {0})
  stop_authorized s = stop_present s.cleanup_ids s

  -- `stop`
  unfoldable pub stop : Action (Unit {0})
  stop = always stop_helpers stop_authorized

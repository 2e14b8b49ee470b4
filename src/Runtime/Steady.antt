-- ===== src/Runtime/Steady.antt =====
-- The actions of the supervisor that start and stop no container keep every
-- assertion that a harmless event keeps.
use azd_santa.Base.{String, Bool, true, false, not, Option, none, some, List, [], ◌∷◌, ◌≡◌, refl}
use azd_santa.Base.{string_eq}
use azd_santa.Base.Dict.{Dict, lookup, insert}
use azd_santa.Runtime.Docker.{Host, Setup, Event, Output, Row, Image}
use azd_santa.Runtime.Machine.{Action, ◌>>=◌, fail_if, or_fail, checked_call, call}
use azd_santa.Runtime.Rows.{row_fits}
use azd_santa.Runtime.Containers.{
  select_from, render_from, image_from, select_rows, inspect, words_of, rendered_in, image_in,
  rows_of, owner,
}
use azd_santa.Runtime.Admission.{inspect_volumes, backing_data}
use azd_santa.Runtime.Lifecycle.{consumers_in, database_ready, judge_queues, consumers}
use azd_santa.Runtime.Keeping.{
  Assertion, is_harmless, Stable, Keeps, bind-Keeps, or_fail-Keeps, fail_if-Keeps, demand-Keeps,
  call-Keeps,
}

module _ (H : Host) (S : Setup) (K : Assertion) (stable : Stable H K) where
  -- an inspection whose output is read
  read-Keeps {ℓ κ} :
      {A : Type ℓ} {B : Type κ} (e : Event) (read : Output → Option A) (f : A → Action B)
      → is_harmless e ≡ true
      → ((a : A) → Keeps K (f a))
      → Keeps K (checked_call H e >>= λ r. or_fail (read r.output) >>= f)
  read-Keeps e read f quiet hf =
      bind-Keeps K (checked_call H e) _ (call-Keeps K H stable e false false quiet)
        λ r. bind-Keeps K (or_fail (read r.output)) f (or_fail-Keeps K (read r.output)) hf

  pub select_from-Keeps : (ids : List String) → Keeps K (select_from H S ids)
  unfolding select_from
  select_from-Keeps [] =
      bind-Keeps K (checked_call H Event.list_project) _
        (call-Keeps K H stable Event.list_project false false refl)
        λ r. or_fail-Keeps K (words_of r.output)
  select_from-Keeps (id ∷ ids) = λ s h. h

  pub render_from-Keeps :
      (known : Option (Dict String (Dict String String))) → Keeps K (render_from H S known)
  unfolding render_from
  render_from-Keeps none = read-Keeps Event.render rendered_in _ refl (λ rendered s h. h)
  render_from-Keeps (some rendered) = λ s h. h

  pub image_from-Keeps : (ref : String) (known : Option Image) → Keeps K (image_from H S ref known)
  unfolding image_from
  image_from-Keeps ref none = read-Keeps (Event.inspect_image ref) image_in _ refl (λ image s h. h)
  image_from-Keeps ref (some image) = λ s h. h

  select_rows-Keeps :
      (running : Bool) (rendered : Dict String (Dict String String)) (rows : List Row)
      (selected : Dict String String)
      → Keeps K (select_rows H S running rendered rows selected)
  unfolding select_rows
  select_rows-Keeps running rendered [] selected = λ s h. h
  select_rows-Keeps running rendered (row ∷ rows) selected =
      bind-Keeps K (or_fail (owner S selected row)) _ (or_fail-Keeps K _) λ (name, service).
        bind-Keeps K (λ s. image_from H S service.image (lookup service.image s.images) s) _
          (λ s. image_from-Keeps service.image (lookup service.image s.images) s)
          λ image.
            bind-Keeps K (or_fail (lookup name rendered)) _ (or_fail-Keeps K _) λ environment.
              bind-Keeps K (fail_if (not (row_fits S name service image environment running row))) _
                (fail_if-Keeps K _)
                λ _. select_rows-Keeps running rendered rows (insert name row.id selected)

  pub inspect-Keeps : (running : Bool) → Keeps K (inspect H S running)
  unfolding inspect
  inspect-Keeps running =
      bind-Keeps K (λ s. select_from H S s.ids s) _ (λ s. select_from-Keeps s.ids s)
        λ ids. bind-Keeps K (fail_if _) _ (fail_if-Keeps K _) λ _.
          read-Keeps (Event.inspect_rows ids) rows_of _ refl λ rows.
            bind-Keeps K (fail_if _) _ (fail_if-Keeps K _) λ _.
              bind-Keeps K (λ s. render_from H S s.rendered s) _
                (λ s. render_from-Keeps s.rendered s)
                λ rendered.
                  bind-Keeps K (select_rows H S running rendered rows []) _
                    (select_rows-Keeps running rendered rows []) λ selected s h. h

  -- a call whose output does not matter
  done-Keeps {κ} :
      {B : Type κ} (e : Event) (allowed_failure allow_stopping : Bool) (f : Action B)
      → is_harmless e ≡ true
      → Keeps K f
      → Keeps K (call H e allowed_failure allow_stopping >>= λ _. f)
  done-Keeps e failure stopping f quiet hf =
      bind-Keeps K (call H e failure stopping) _ (call-Keeps K H stable e failure stopping quiet)
        λ _. hf

  inspect_volumes-Keeps : (names : List String) → Keeps K (inspect_volumes H S names)
  unfolding inspect_volumes
  inspect_volumes-Keeps [] = λ s h. h
  inspect_volumes-Keeps (v ∷ vs) =
      done-Keeps (Event.probe "volume-inspection") false false (inspect_volumes H S vs) refl
        (inspect_volumes-Keeps vs)

  pub backing_data-Keeps : Keeps K (backing_data H S)
  unfolding backing_data
  backing_data-Keeps = done-Keeps (Event.probe "docker-root") false false _ refl (
      bind-Keeps K (inspect_volumes H S S.volumes) _ (inspect_volumes-Keeps S.volumes)
        λ _. demand-Keeps K H.backing_data_holds)

  pub database_ready-Keeps :
      (environment : Dict String String) → Keeps K (database_ready H environment)
  unfolding database_ready
  database_ready-Keeps environment =
      bind-Keeps K (or_fail (lookup "POSTGRES_USER" environment)) _ (or_fail-Keeps K _) λ user.
        bind-Keeps K (or_fail (lookup "POSTGRES_DB" environment)) _ (or_fail-Keeps K _) λ database.
          bind-Keeps K (call H (Event.probe "database") true false) _
            (call-Keeps K H stable (Event.probe "database") true false refl) λ r s h. h

  judge_queues-Keeps : (good : Bool) (output : Output) → Keeps K (judge_queues H good output)
  unfolding judge_queues
  judge_queues-Keeps false output = λ s h. h
  judge_queues-Keeps true output =
      bind-Keeps K (or_fail (consumers_in output)) _ (or_fail-Keeps K _) λ queues s h. h

  pub consumers-Keeps : Keeps K (consumers H)
  unfolding consumers
  consumers-Keeps =
      bind-Keeps K (call H Event.queues true false) _
        (call-Keeps K H stable Event.queues true false refl)
        λ r. judge_queues-Keeps r.success r.output

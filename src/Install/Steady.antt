-- ===== src/Install/Steady.antt =====
-- On the steps of experiments/server/private_install_transport.py but the call of `systemd-run`, and
-- the files that are there before them.
use azd_santa.Base.{ℕ, zero, suc, String, Bool, true, false, ◌&&◌, ◌||◌, Option, none, some, []}
use azd_santa.Base.{◌==◌, string_eq, bytes_eq}
use azd_santa.Base.Dict.{Dict}
use azd_santa.Base.Faulty.{◌>>=◌, need, or_fail}
use azd_santa.Base.Text.{after_start}
use azd_santa.Json.{Fields, get_field}
use azd_santa.Platform.{Bytes}
use azd_santa.Sync.Snapshot.{is_text}
use azd_santa.Install.Tools.{Tools, as_fields, as_string, object_of}
use azd_santa.Install.Machine
use azd_santa.Install.Machine.{Store, Host, Action, job_folder, upload_folder, file_of, demand, ask}
use azd_santa.Install.Package.{natural, chunk_fits, archive_of, unpacked, metadata_of, body_of}
use azd_santa.Install.Observing.{
  Exit, completion_of, record_in, record_terminal, proved, concluded, job_status, is_complete,
  is_proof, has_succeeded, unit_fits, same_run, is_value, values_onto, context_folder, active_of,
}
use azd_santa.Install.Transport.{
  chunk_name, observe, keep, make_upload, keep_chunk, store_chunk, join, collect_package, place_new,
  place_files, is_fresh_host,
}
use azd_santa.Install.Growth.{
  Later-refl, Grows, chain, or_fail-Grows, need-Grows, file_of-Grows, demand-Grows, ask-Grows,
  exclusive-Grows, make_dir-Grows,
}

module _ (t : Tools) (h : Host) where
  -- a step and its continuation
  then_need {ℓ} :
      {A : Type ℓ} (b : Bool) (f : Unit {0} → Action A) → Grows (f tt) → Grows (need b >>= f)
  then_need b f g = chain (need b) f (need-Grows b) (λ _. g)

  then_demand {ℓ} :
      {A : Type ℓ} (test : ℕ → Bool) (f : Unit {0} → Action A)
      → Grows (f tt)
      → Grows (demand h test >>= f)
  then_demand test f g = chain (demand h test) f (demand-Grows h test) (λ _. g)

  then_take {ℓ κ} :
      {A : Type ℓ} {B : Type κ} (o : Option A) (f : A → Action B)
      → ((a : A) → Grows (f a))
      → Grows (or_fail o >>= f)
  then_take o f g = chain (or_fail o) f (or_fail-Grows o) g

  then_file {ℓ} :
      {A : Type ℓ} (folder name : String) (f : Bytes → Action A)
      → ((raw : Bytes) → Grows (f raw))
      → Grows (file_of folder name >>= f)
  then_file folder name f g = chain (file_of folder name) f (file_of-Grows folder name) g

  completion_of-Grows :
      (bundle : String) (active : Fields) → Grows (completion_of t h bundle active)
  unfolding completion_of
  completion_of-Grows bundle active = then_demand h.is_secure _ (
      then_file (job_folder bundle) "complete.json" _ λ raw. then_take (object_of t raw) _ λ value.
        then_take (as_fields (get_field "target" active)) _
          λ goal. then_need (is_complete t active goal value) _ (λ s. Later-refl s))

  record_in-Grows : (e : Exit) (bundle : String) → Grows (record_in t h e bundle)
  unfolding record_in
  record_in-Grows e bundle = then_demand h.is_secure _ (
      then_file (job_folder bundle) "context.json" _ λ raw. then_need (t.sha256 raw == e.digest) _ (
        then_take (object_of t raw) _ λ active.
          then_need
            (is_text bundle (get_field "bundle_sha256" active)
              && is_text "private-azd-install-v1" (get_field "scope" active))
            _
            (then_demand h.is_secure _ (
              chain (active_of t h) _ (λ s. Later-refl s)
                λ current. then_need (current == raw) _ (
                  then_demand h.is_secure _ (
                    then_file (job_folder bundle) "bundle.json" _ λ bundle_raw.
                      then_need (t.sha256 bundle_raw == bundle) _ (
                        chain (completion_of t h bundle active) _
                          (completion_of-Grows bundle active)
                          λ (completed, _).
                            exclusive-Grows h (job_folder bundle) "terminal-success.json" _)))))))

  pub record_terminal-Grows : (e : Exit) → Grows (record_terminal t h e)
  unfolding record_terminal
  record_terminal-Grows e = then_need (h.is_root && has_succeeded t e) _ (
      then_take
        (context_folder (after_start "/var/lib/azd-santa-qualification/installers/" e.context_path))
        _ λ bundle. record_in-Grows e bundle)

  proved-Grows :
      (bundle : String) (active : Fields) (values : Dict String String) (recorded : Bytes)
      → Grows (proved t h bundle active values recorded)
  unfolding proved
  proved-Grows bundle active values recorded = then_need (unit_fits t h values) _ (
      then_demand h.is_secure _ (
        then_take (object_of t recorded) _ λ proof. then_demand h.is_secure _ (
          then_file (job_folder bundle) "context.json" _ λ context.
            chain (active_of t h) _ (λ s. Later-refl s)
              λ current. then_need (context == current) _ (
                chain (completion_of t h bundle active) _ (completion_of-Grows bundle active)
                  λ (completed, value).
                    then_need (is_proof t (t.sha256 context) bundle (t.sha256 completed) proof) _ (
                      then_need (same_run t h values (as_string (get_field "invocation" proof))) _
                        (then_demand h.is_running _ (λ s. Later-refl s)))))))

  concluded-Grows :
      (bundle : String) (active : Fields) (values : Dict String String) (recorded : Option Bytes)
      → Grows (concluded t h bundle active values recorded)
  unfolding concluded
  concluded-Grows bundle active values none =
      then_need (is_value "LoadState" "loaded" values) _ (λ s. Later-refl s)
  concluded-Grows bundle active values (some recorded) = proved-Grows bundle active values recorded

  job_status-Grows : (bundle : String) → Grows (job_status t h bundle)
  unfolding job_status
  job_status-Grows bundle =
      chain (active_of t h) _ (λ s. Later-refl s)
        λ raw. then_demand h.is_secure _ (
          then_take (object_of t raw) _ λ active.
            then_need (is_text bundle (get_field "bundle_sha256" active)) _ (
              chain (ask h h.shown) _ (ask-Grows h h.shown) λ lines.
                let values = values_onto [] lines in
                then_need
                  (is_value "LoadState" "loaded" values || is_value "LoadState" "not-found" values)
                  _
                  (λ s.
                    concluded-Grows bundle active values
                      (Machine.file_at (job_folder bundle) "terminal-success.json" s) s)))

  module _ (decimal : ℕ → String) where
    pub observe-Grows : (digest : String) → Grows (observe t decimal h digest)
    observe-Grows digest =
        chain (job_status t h digest) _ (job_status-Grows digest) λ seen s. Later-refl s

    keep-Grows :
        (o : Option Bytes) (folder name : String) (raw : Bytes)
        → Grows (keep t decimal h o folder name raw)
    unfolding keep
    keep-Grows none folder name raw = exclusive-Grows h folder name raw
    keep-Grows (some found) folder name raw = then_demand h.is_secure _ (need-Grows (found == raw))

    pub make_upload-Grows :
        (digest archive : String) → Grows (make_upload t decimal h digest archive)
    unfolding make_upload
    make_upload-Grows digest archive =
        chain (Machine.make_dir h true (upload_folder digest archive)) _
          (make_dir-Grows h true (upload_folder digest archive)) λ _. demand-Grows h h.is_secure

    keep_chunk-Grows :
        (o : Option Bytes) (folder name data_ : String)
        → Grows (keep_chunk t decimal h o folder name data_)
    unfolding keep_chunk
    keep_chunk-Grows none folder name data_ = exclusive-Grows h folder name _
    keep_chunk-Grows (some found) folder name data_ =
        then_demand h.is_secure _ (then_take (t.text found) _ λ text. need-Grows (text == data_))

    pub store_chunk-Grows :
        (digest archive : String) (value : Fields)
        → Grows (store_chunk t decimal h digest archive value)
    unfolding store_chunk
    store_chunk-Grows digest archive value =
        then_take (natural (get_field "index" value)) _ λ index.
          then_take (natural (get_field "count" value)) _ λ count.
            then_take (as_string (get_field "data" value)) _ λ data_.
              then_need (chunk_fits index count data_) _ (λ s.
                chain
                  (keep_chunk t decimal h
                    (Machine.file_at (upload_folder digest archive) (chunk_name decimal index) s)
                    (upload_folder digest archive) (chunk_name decimal index) data_)
                  _
                  (keep_chunk-Grows
                    (Machine.file_at (upload_folder digest archive) (chunk_name decimal index) s)
                    (upload_folder digest archive) (chunk_name decimal index) data_)
                  (λ _ u. Later-refl u) s)

    pub join-Grows :
        (folder : String) (count index : ℕ) → Grows (join t decimal h folder count index)
    unfolding join
    join-Grows folder zero index = Later-refl
    join-Grows folder (suc count) index = then_file folder (chunk_name decimal index) _ λ raw.
        then_take (t.text raw) _ λ text.
          chain (join t decimal h folder count (suc index)) _ (join-Grows folder count (suc index))
            λ rest s. Later-refl s

    pub collect_package-Grows :
        (digest archive : String) (count : ℕ)
        → Grows (collect_package t decimal h digest archive count)
    unfolding collect_package
    collect_package-Grows digest archive count =
        chain (join t decimal h (upload_folder digest archive) count 0) _
          (join-Grows (upload_folder digest archive) count 0)
          λ joined.
            then_take (archive_of t archive joined) _
              λ compressed. or_fail-Grows (unpacked t digest compressed)

    pub place_new-Grows :
        (is_there : Bool) (digest : String) (raw : Bytes)
        → Grows (place_new t decimal h is_there digest raw)
    unfolding place_new
    place_new-Grows true digest raw = Later-refl
    place_new-Grows false digest raw =
        chain (Machine.make_dir h false (job_folder digest)) _
          (make_dir-Grows h false (job_folder digest))
          λ _. exclusive-Grows h (job_folder digest) "bundle.json" raw

    pub place_files-Grows :
        (digest : String) (files : Fields) → Grows (place_files t decimal h digest files)
    unfolding place_files
    place_files-Grows digest Fields.end = Later-refl
    place_files-Grows digest (Fields.field name value rest) =
        then_take (metadata_of t value) _ λ metadata. then_take (body_of t metadata) _ λ body s.
          chain
            (keep t decimal h (Machine.file_at (job_folder digest) name s) (job_folder digest) name
              body)
            _
            (keep-Grows (Machine.file_at (job_folder digest) name s) (job_folder digest) name body)
            (λ _. place_files-Grows digest rest) s

    pub is_fresh_host-Grows : (has_docker : Bool) → Grows (is_fresh_host t decimal h has_docker)
    unfolding is_fresh_host
    is_fresh_host-Grows false = Later-refl
    is_fresh_host-Grows true =
        chain (ask h h.no_containers) _ (ask-Grows h h.no_containers) λ containers.
          then_need containers _
            (chain (ask h h.no_volumes) _ (ask-Grows h h.no_volumes) λ volumes. need-Grows volumes)

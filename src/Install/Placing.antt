-- ===== src/Install/Placing.antt =====
-- On a package that is placed, reserved and submitted, and the invariant of the store.
use azd_santa.Base.{ℕ, ◌*◌, String, true, ◌&&◌, Option, none, some, ◌≡◌, refl, subst, arith}
use azd_santa.Base.{◌==◌, leb, length, string_eq, bytes_eq, if_cases}
use azd_santa.Base.Dict.{lookup}
use azd_santa.Base.Faulty.{◌>>=◌, need, or_fail, Ends, Ends-bind}
use azd_santa.Json.{Value, Fields, get_field}
use azd_santa.Json.Hooks
use azd_santa.Platform.{Bytes}
use azd_santa.Install.Tools.{Tools}
use azd_santa.Install.Machine.{
  Store, Host, Action, job_folder, upload_folder, file_at, is_there, demand, exclusive, activate,
  make_dir, launch,
}
use azd_santa.Setup.Agreement.{some-injective}
use azd_santa.Install.Package.{archive_of, checked_package, natural, unpacked, package_of}
use azd_santa.Install.Transport.{
  join, observe, place, place_new, place_files, is_fresh_host, collect_package, submit_context,
  install, submit, context_of,
}
use azd_santa.Install.Growth.{Grows, make_dir-Grows, demand-Grows, or_fail-Grows, need-Grows}
use azd_santa.Install.Steady.{
  join-Grows, observe-Grows, place_new-Grows, place_files-Grows, is_fresh_host-Grows,
}
use azd_santa.Install.Holding.{
  IsSound, IsHeld, IsPlaced, IsPlaced-Later, steady, Safe, grown, followed, read_from,
  exclusive-Held, IsReserved, activate-Reserved, launch-Sound,
}

module _ (t : Tools) (h : Host) (decimal : ℕ → String) where
  submit_context-Sound :
      (digest : String) (context : Bytes) (s : Store)
      → IsPlaced t digest s
      → Ends (λ _ u. IsSound t u) (IsSound t) (submit_context t decimal h digest context s)
  unfolding submit_context
  submit_context-Sound digest context =
      Ends-bind (exclusive h (job_folder digest) "context.json" context) _ (IsPlaced t digest)
        (λ _ u. IsSound t u × IsHeld t digest context u.folders) (λ _ u. IsSound t u) (IsSound t)
        (exclusive-Held t h digest context)
        λ _.
          Ends-bind (activate h context) _ (λ s. IsSound t s × IsHeld t digest context s.folders)
            (λ _ u. IsReserved t h digest context u) (λ _ u. IsSound t u) (IsSound t)
            (activate-Reserved t h digest context)
            λ _.
              Ends-bind (launch h digest context) (λ _. observe t decimal h digest)
                (IsReserved t h digest context) (λ _ u. IsSound t u) (λ _ u. IsSound t u)
                (IsSound t) (launch-Sound t h digest context)
                λ _. grown t (observe t decimal h digest) (observe-Grows t h decimal digest)

  place-Placed :
      (digest : String) (raw : Bytes) (s : Store)
      → t.sha256 raw ≡ digest
      → IsSound t s
      → Ends (λ _ u. IsPlaced t digest u) (IsSound t) (place t decimal h digest raw s)
  unfolding place
  place-Placed digest raw s same sound =
      let present = is_there (lookup (job_folder digest) s.folders) in
      Ends-bind (place_new t decimal h present digest raw) _ (IsSound t) (λ _ u. IsSound t u)
        (λ _ u. IsPlaced t digest u) (IsSound t)
        (grown t (place_new t decimal h present digest raw)
          (place_new-Grows t h decimal present digest raw))
        (λ _.
          Ends-bind (demand h h.is_secure) _ (IsSound t) (λ _ u. IsSound t u)
            (λ _ u. IsPlaced t digest u) (IsSound t)
            (grown t (demand h h.is_secure) (demand-Grows h h.is_secure))
            λ _ u fine.
              read_from t digest raw u (file_at (job_folder digest) "bundle.json" u) fine refl same)
        s sound

  -- a step after the placing
  after_placed {ℓ κ} :
      {A : Type ℓ} {B : Type κ} (digest : String) (m : Action A) (f : A → Action B)
      → Grows m
      → ((a : A) (s : Store) → IsPlaced t digest s → Ends (λ _ u. IsSound t u) (IsSound t) (f a s))
      → (s : Store) → IsPlaced t digest s
      → Ends (λ _ u. IsSound t u) (IsSound t) ((m >>= f) s)
  after_placed digest m f g hf =
      Ends-bind m f (IsPlaced t digest) (λ _ u. IsPlaced t digest u) (λ _ u. IsSound t u)
        (IsSound t) (steady t (IsPlaced t digest) (IsPlaced-Later t digest) (λ s p. p.0) m g) hf

  install-Safe :
      (digest : String) (goal : Value) (raw : Bytes)
      → t.sha256 raw ≡ digest
      → Safe t (install t decimal h digest goal raw)
  unfolding install
  install-Safe digest goal raw same =
      followed t (or_fail (package_of t raw)) _ (or_fail-Grows (package_of t raw)) λ files.
        followed t (make_dir h true "installers") _ (make_dir-Grows h true "installers") λ _.
          followed t (demand h h.is_secure) _ (demand-Grows h h.is_secure) λ _.
            Ends-bind (place t decimal h digest raw) _ (IsSound t) (λ _ u. IsPlaced t digest u)
              (λ _ u. IsSound t u) (IsSound t) (λ s sound. place-Placed digest raw s same sound)
              λ _.
                after_placed digest (place_files t decimal h digest files) _
                  (place_files-Grows t h decimal digest files)
                  λ _ s placed.
                    after_placed digest (is_fresh_host t decimal h (h.has_docker s.clock))
                      (λ _. submit_context t decimal h digest (context_of t decimal h digest goal))
                      (is_fresh_host-Grows t h decimal (h.has_docker s.clock))
                      (λ _. submit_context-Sound digest (context_of t decimal h digest goal)) s
                      placed

  checked_package-Digest :
      (digest : String) (o : Option Bytes) (raw : Bytes)
      → (Hooks.◌>>=◌ o (checked_package t digest)) ≡ some raw
      → t.sha256 raw ≡ digest
  unfolding checked_package
  checked_package-Digest digest none raw = λ h. cc
  checked_package-Digest digest (some found) raw =
      if_cases (λ o. o ≡ some raw → t.sha256 raw ≡ digest)
        (leb (length found) (2 * 1024 * 1024) && t.sha256 found == digest)
        (λ p h. subst (λ b. t.sha256 b ≡ digest) (some-injective h) (ground (arith, p))) (λ p h. cc)

  taken_from :
      (digest : String) (o : Option Bytes) (s : Store)
      → ((raw : Bytes) → o ≡ some raw → t.sha256 raw ≡ digest)
      → IsSound t s
      → Ends (λ raw u. IsSound t u × (t.sha256 raw ≡ digest)) (IsSound t) (or_fail o s)
  taken_from digest none s k sound = sound
  taken_from digest (some raw) s k sound = (sound, k raw refl)

  collect_package-Digest :
      (digest archive : String) (count : ℕ) (s : Store)
      → IsSound t s
      → Ends
          (λ raw u. IsSound t u × (t.sha256 raw ≡ digest))
          (IsSound t)
          (collect_package t decimal h digest archive count s)
  unfolding collect_package unpacked
  collect_package-Digest digest archive count =
      let Q = λ (raw : Bytes) (u : Store). (IsSound t) u × (t.sha256 raw ≡ digest) in
      let folder = upload_folder digest archive in
      Ends-bind (join t decimal h folder count 0) _ (IsSound t) (λ _ u. IsSound t u) Q (IsSound t)
        (grown t (join t decimal h folder count 0) (join-Grows t h decimal folder count 0))
        λ joined.
          Ends-bind (or_fail (archive_of t archive joined))
            (λ compressed. or_fail (unpacked t digest compressed)) (IsSound t) (λ _ u. IsSound t u)
            Q (IsSound t)
            (grown t (or_fail (archive_of t archive joined))
              (or_fail-Grows (archive_of t archive joined)))
            λ compressed s.
              taken_from digest (unpacked t digest compressed) s
                λ raw. checked_package-Digest digest (t.gunzip compressed) raw

  pub submit-Safe :
      (digest archive : String) (value : Fields) → Safe t (submit t decimal h digest archive value)
  unfolding submit
  submit-Safe digest archive value =
      followed t (or_fail (natural (get_field "count" value))) _
        (or_fail-Grows (natural (get_field "count" value)))
        λ count.
          followed t (need (leb 1 count && leb count 64)) _
            (need-Grows (leb 1 count && leb count 64))
            λ _.
              Ends-bind (collect_package t decimal h digest archive count) _ (IsSound t)
                (λ raw u. IsSound t u × (t.sha256 raw ≡ digest)) (λ _ u. IsSound t u) (IsSound t)
                (collect_package-Digest digest archive count)
                λ raw s (sound, same).
                  followed t (or_fail (get_field "target" value))
                    (λ goal. install t decimal h digest goal raw)
                    (or_fail-Grows (get_field "target" value))
                    (λ goal. install-Safe digest goal raw same) s sound

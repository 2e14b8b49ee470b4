-- ===== src/Install/Submission.antt =====
-- On what systemd is asked for over many runs of the program.
use azd_santa.Base.{
  ℕ, ◌≤◌, String, Bool, true, false, not, ◌&&◌, ◌||◌, Option, none, some, List, [], ◌∷◌, ◌≡◌, sym,
  subst, arith,
}
use azd_santa.Base.{◌==◌, length, string_eq, bytes_eq, if_cases}
use azd_santa.Base.Faulty.{◌>>=◌, need, or_fail, Ends}
use azd_santa.Base.Text.{concat}
use azd_santa.Json.{Fields, get_field, keys}
use azd_santa.Platform.{Bytes}
use azd_santa.Sync.Snapshot.{is_text}
use azd_santa.Install.Tools.{Tools, as_string, object_of, matches}
use azd_santa.Install.Machine.{Store, Host, Action, demand, make_dir}
use azd_santa.Install.Package.{command_keys, keys_within, hex_text}
use azd_santa.Install.Observing.{record_terminal}
use azd_santa.Install.Transport.{
  Reply, store_chunk, make_upload, Call, command, terminal, observe, continued, transfer, resumed,
  unstarted, branch, run_command_of, is_mode, perform_call, perform_all,
}
use azd_santa.Install.Growth.{Grows, make_dir-Grows, demand-Grows, or_fail-Grows, need-Grows}
use azd_santa.Install.Steady.{
  record_terminal-Grows, observe-Grows, make_upload-Grows, store_chunk-Grows,
}
use azd_santa.Install.Holding.{room, IsSound, IsSound-Later, AllHeld, Safe, grown, followed}
use azd_santa.Install.Placing.{submit-Safe}

module _ (t : Tools) (h : Host) (decimal : ℕ → String) where
  continued-Safe :
      (is_chunk : Bool) (digest archive : String) (value : Fields)
      → Safe t (continued t decimal h is_chunk digest archive value)
  unfolding continued
  continued-Safe true digest archive value =
      grown t (store_chunk t decimal h digest archive value)
        (store_chunk-Grows t h decimal digest archive value)
  continued-Safe false digest archive value = submit-Safe t h decimal digest archive value

  then_ready {ℓ} :
      {A : Type ℓ} (m : Action (Unit {0})) (f : Unit {0} → Action A)
      → Grows m
      → Safe t (f tt)
      → Safe t (m >>= f)
  then_ready m f g k = followed t m f g (λ _. k)

  transfer-Safe :
      (is_chunk : Bool) (digest : String) (value : Fields)
      → Safe t (transfer t decimal h is_chunk digest value)
  unfolding transfer
  transfer-Safe is_chunk digest value =
      then_ready (make_dir h true "install-uploads") _ (make_dir-Grows h true "install-uploads") (
        then_ready (demand h h.is_secure) _ (demand-Grows h h.is_secure) (
          then_ready (make_dir h true (concat "install-uploads/" digest)) _
            (make_dir-Grows h true (concat "install-uploads/" digest))
            (then_ready (demand h h.is_secure) _ (demand-Grows h h.is_secure) (
              followed t (or_fail (hex_text (get_field "archive_sha256" value))) _
                (or_fail-Grows (hex_text (get_field "archive_sha256" value)))
                λ archive.
                  then_ready (make_upload t decimal h digest archive) _
                    (make_upload-Grows t h decimal digest archive)
                    (continued-Safe is_chunk digest archive value)))))

  resumed-Safe :
      (mode digest : String) (value old : Fields)
      → Safe t (resumed t decimal h mode digest value old)
  unfolding resumed
  resumed-Safe mode digest value old =
      if_cases (λ (m : Action Reply). (Safe t) m) (mode == "chunk")
        (λ _. transfer-Safe true digest value)
        λ _.
          let b =
            mode == "observe" || matches t (get_field "target" old) (get_field "target" value) in
          then_ready (need b) (λ _. observe t decimal h digest) (need-Grows b)
            (grown t (observe t decimal h digest) (observe-Grows t h decimal digest))

  unstarted-Safe :
      (mode digest : String) (value : Fields) → Safe t (unstarted t decimal h mode digest value)
  unfolding unstarted
  unstarted-Safe mode digest value =
      if_cases (λ (m : Action Reply). (Safe t) m) (mode == "observe") (λ _ s sound. sound)
        λ _. transfer-Safe (mode == "chunk") digest value

  branch-Safe :
      (mode digest : String) (value : Fields) (o : Option Bytes)
      → Safe t (branch t decimal h mode digest value o)
  unfolding branch
  branch-Safe mode digest value (some raw) =
      then_ready (demand h h.is_secure) _ (demand-Grows h h.is_secure) (
        followed t (or_fail (object_of t raw)) _ (or_fail-Grows (object_of t raw)) λ old.
          then_ready (need (is_text digest (get_field "bundle_sha256" old))) _
            (need-Grows (is_text digest (get_field "bundle_sha256" old)))
            (resumed-Safe mode digest value old))
  branch-Safe mode digest value none =
      then_ready (demand h (λ n. not (h.has_service n))) _
        (demand-Grows h (λ n. not (h.has_service n))) (unstarted-Safe mode digest value)

  run_command_of-Safe : (value : Fields) → Safe t (run_command_of t decimal h value)
  unfolding run_command_of
  run_command_of-Safe value =
      let b = h.is_root && keys_within (keys value) command_keys in
      then_ready (need b) _ (need-Grows b) (
        followed t (or_fail (hex_text (get_field "bundle_sha256" value))) _
          (or_fail-Grows (hex_text (get_field "bundle_sha256" value)))
          λ digest. then_ready (demand h h.is_secure) _ (demand-Grows h h.is_secure) (
            followed t (or_fail (as_string (get_field "mode" value))) _
              (or_fail-Grows (as_string (get_field "mode" value)))
              λ mode.
                then_ready (need (is_mode t decimal h mode)) _
                  (need-Grows (is_mode t decimal h mode))
                  (λ s sound. branch-Safe mode digest value s.active s sound)))

module _ (t : Tools) where
  Ends-IsSound :
      {A : Type 0} (o : Option A × Store) → Ends (λ _ u. IsSound t u) (IsSound t) o → IsSound t o.1
  Ends-IsSound (none, s) h = h
  Ends-IsSound (some a, s) h = h

  perform_call-IsSound :
      (decimal : ℕ → String) (h : Host) (call : Call) (s : Store)
      → IsSound t s
      → IsSound t (perform_call t decimal h call s)
  perform_call-IsSound decimal h (command value) s sound =
      Ends-IsSound (run_command_of t decimal h value s)
        (run_command_of-Safe t h decimal value s sound)
  perform_call-IsSound decimal h (terminal e) s sound =
      IsSound-Later t s (record_terminal t h e s).1 (record_terminal-Grows t h e s) sound

  empty-Sound :
      (s : Store) → (length {A = String × Bytes} [] ≤ room s.active) × AllHeld t [] s.folders
  unfolding AllHeld
  empty-Sound s = (omega arith, tt)

  perform_all-IsSound :
      (decimal : ℕ → String) (calls : List (Host × Call)) (s : Store)
      → IsSound t s
      → IsSound t (perform_all t decimal calls s)
  unfolding perform_all
  perform_all-IsSound decimal [] s sound = sound
  perform_all-IsSound decimal ((h, call) ∷ calls) s sound =
      perform_all-IsSound decimal calls (perform_call t decimal h call s)
        (perform_call-IsSound decimal h call s sound)

  room-bound : (o : Option Bytes) → room o ≤ 1
  room-bound none = omega arith
  room-bound (some raw) = omega arith

  -- Over any runs of the program on a host where no job was asked for, commands and records of an
  -- exit in any order, each with any faults and with files that a break leaves half written: systemd
  -- is asked for one job at most, and for a job that it was asked for the folder of its digest holds
  -- a bundle with this digest, and the context of the job.
  pub submitted_once :
      (decimal : ℕ → String) (calls : List (Host × Call)) (s : Store)
      → s.submitted ≡ []
      → (length (perform_all t decimal calls s).submitted ≤ 1)
        × AllHeld t
            (perform_all t decimal calls s).submitted
            (perform_all t decimal calls s).folders
  submitted_once decimal calls s none_yet =
      let (few, held) = perform_all-IsSound decimal calls s (
        subst (λ jobs. (length jobs ≤ room s.active) × AllHeld t jobs s.folders) (sym none_yet)
          (empty-Sound s)) in
      (omega (arith, few, room-bound (perform_all t decimal calls s).active), held)

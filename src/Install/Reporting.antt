-- ===== src/Install/Reporting.antt =====
-- On what `status` reports of an exit that `record_terminal` has recorded.
use azd_santa.Base.{
  ℕ, String, Bool, true, false, ◌&&◌, ◌||◌, Option, none, some, List, [], ◌≡◌, refl, sym, subst, ap,
  ◌∙◌, arith,
}
use azd_santa.Base.{◌==◌, eq_self, string_eq, bytes_eq, strings_eq, if◌then◌else◌}
use azd_santa.Base.Dict.{Dict, lookup}
use azd_santa.Base.Faulty.{and_then, ◌>>=◌}
use azd_santa.Base.Text.{after_start, is_run, is_hex}
use azd_santa.Json.{Value, Fields, get_field}
use azd_santa.Platform.{Bytes}
use azd_santa.Json.{spell}
use azd_santa.Setup.Agreement.{some-injective}
use azd_santa.Sync.Snapshot.{is_text}
use azd_santa.Install.Tools.{Tools, as_string, object_of}
use azd_santa.Install.Machine.{Store, Host, Action, tick, job_folder, file_at}
use azd_santa.Install.Observing.{
  Observation, Exit, completion_of, record_terminal, proved, concluded, job_status, is_proof,
  has_succeeded, unit_fits, same_run, is_value, values_onto, context_folder, proof_fields,
}
use azd_santa.Install.Finishing.{Recorded, Completed, record_in-Recorded, ran_need, ran_take}
use azd_santa.Install.Sorted.{sorted_proof, get_invocation, sorted_proof-fits, object_of-sorted}

-- steps that return
module _ {ℓ κ} {A : Type ℓ} {B : Type κ} where
  does :
      (o : Option A) (v : Store) (a : A) (f : A → Action B) {r : Option B}
      → o ≡ some a
      → (f a v).0 ≡ r
      → (and_then f (o, v)).0 ≡ r
  does o v a f {r} e h = subst (λ o. (and_then f (o, v)).0 ≡ r) (sym e) h

does_test :
    {B : Type 0} (c : Bool) (v : Store) (f : Unit {0} → Action B) {r : Option B}
    → c ≡ true
    → (f tt v).0 ≡ r
    → (and_then f (if c then some tt else none, v)).0 ≡ r
does_test c v f {r} e h = rw e h

-- a host whose files are secure and whose runtime is up, and that no longer knows the unit
abbrev pub IsSettled : Host → List String → Type 0
IsSettled g lines =
    ((n : ℕ) → g.is_secure n ≡ true)
    × ((n : ℕ) → g.is_running n ≡ true)
    × ((n : ℕ) → g.shown n ≡ some lines)
    × (lookup "LoadState" (values_onto [] lines) ≡ some "not-found")

module _ (t : Tools) (g : Host) where
  completion_again :
      {B : Type 0} (bundle : String) (active : Fields) (raw : Bytes) (value : Fields) (h : Host)
      (s : Store) (f : Bytes × Fields → Action B) {r : Option B}
      → ((n : ℕ) → g.is_secure n ≡ true)
      → Completed t h bundle active raw value s
      → (f (raw, value) (tick (tick s))).0 ≡ r
      → ((completion_of t g bundle active >>= f) s).0 ≡ r
  unfolding completion_of
  completion_again bundle active raw value h s f secure (there, parsed, (goal, aimed, whole)) last =
      rw (secure s.clock, there, parsed, aimed, whole) last

  unknown_fits :
      (values : Dict String String)
      → lookup "LoadState" values ≡ some "not-found"
      → unit_fits t g values ≡ true
  unfolding string_eq
  unknown_fits values e = rw e refl

  unknown_run :
      (values : Dict String String) (o : Option String)
      → lookup "LoadState" values ≡ some "not-found"
      → same_run t g values o ≡ true
  unfolding string_eq
  unknown_run values o e = rw e refl

  unknown_state :
      (values : Dict String String)
      → lookup "LoadState" values ≡ some "not-found"
      → (is_value "LoadState" "loaded" values || is_value "LoadState" "not-found" values) ≡ true
  unfolding string_eq
  unknown_state values e = rw e refl

  abbrev Reports : Exit → Option Observation → Type 0
  Reports e o =
      (seen : Observation) × (o ≡ some seen)
      × (seen.state ≡ "completed")
      × (seen.invocation ≡ some e.invocation)

  proved-Reports :
      (e : Exit) (bundle : String) (active value : Fields) (lines : List String)
      (raw completed recorded : Bytes) (h : Host) (u : Store)
      → IsSettled g lines
      → is_run is_hex 32 e.invocation ≡ true
      → file_at (job_folder bundle) "context.json" u ≡ some raw
      → u.active ≡ some raw
      → t.sha256 raw ≡ e.digest
      → Completed t h bundle active completed value u
      → object_of t recorded ≡ some (sorted_proof e.digest bundle (t.sha256 completed) e.invocation)
      → Reports e (proved t g bundle active (values_onto [] lines) recorded u).0
  unfolding proved
  proved-Reports e bundle active value lines raw completed recorded h u
        (secure, running, shown, unknown) hex there reserved digest whole parsed =
      let values = values_onto [] lines in
      let proof = sorted_proof e.digest bundle (t.sha256 completed) e.invocation in
      let fits : is_proof t (t.sha256 raw) bundle (t.sha256 completed) proof ≡ true =
        subst (λ d. is_proof t d bundle (t.sha256 completed) proof ≡ true) (sym digest)
          (sorted_proof-fits e.digest bundle (t.sha256 completed) e.invocation t hex) in
      (
        _,
        does_test (unit_fits t g values) u _ (unknown_fits values unknown) (
            does_test (g.is_secure u.clock) (tick u) _ (secure u.clock) (
              does (object_of t recorded) (tick u) proof _ parsed (
                does_test (g.is_secure (tick u).clock) (tick (tick u)) _ (secure (tick u).clock) (
                  does (file_at (job_folder bundle) "context.json" u) (tick (tick (tick u))) raw _
                    there
                    (does u.active (tick (tick (tick u))) raw _ reserved (
                      does_test (raw == raw) (tick (tick (tick u))) _ (eq_self raw) (
                        completion_again bundle active completed value h (tick (tick (tick u))) _
                          secure whole
                          (does_test (is_proof t (t.sha256 raw) bundle (t.sha256 completed) proof) _
                            _ fits
                            (does_test
                              (same_run t g values (as_string (get_field "invocation" proof))) _ _
                              (unknown_run values (as_string (get_field "invocation" proof))
                                unknown)
                              (does_test (g.is_running _) _ _ (running _) refl)))))))))),
        refl,
        ap as_string (get_invocation e.digest bundle (t.sha256 completed) e.invocation),
      )

  concluded-Reports :
      (e : Exit) (bundle : String) (active : Fields) (values : Dict String String)
      (o : Option Bytes) (recorded : Bytes) (u : Store)
      → o ≡ some recorded
      → Reports e (proved t g bundle active values recorded u).0
      → Reports e (concluded t g bundle active values o u).0
  unfolding concluded
  concluded-Reports e bundle active values o recorded u there reports =
      subst (λ o. Reports e (concluded t g bundle active values o u).0) (sym there) reports

  job_status-Reports :
      (e : Exit) (bundle : String) (active value : Fields) (lines : List String)
      (raw completed recorded : Bytes) (h : Host) (u : Store)
      → IsSettled g lines
      → is_run is_hex 32 e.invocation ≡ true
      → file_at (job_folder bundle) "context.json" u ≡ some raw
      → u.active ≡ some raw
      → t.sha256 raw ≡ e.digest
      → object_of t raw ≡ some active
      → is_text bundle (get_field "bundle_sha256" active) ≡ true
      → Completed t h bundle active completed value u
      → file_at (job_folder bundle) "terminal-success.json" u ≡ some recorded
      → object_of t recorded ≡ some (sorted_proof e.digest bundle (t.sha256 completed) e.invocation)
      → Reports e (job_status t g bundle u).0
  unfolding job_status
  job_status-Reports e bundle active value lines raw completed recorded h u settled hex there
        reserved digest active_read named whole recorded_there parsed =
      let (secure, running, shown, unknown) = settled in
      let values = values_onto [] lines in
      let v = tick (tick u) in
      let (seen, reported, state, invocation) =
        concluded-Reports e bundle active values
          (file_at (job_folder bundle) "terminal-success.json" u) recorded v recorded_there
          (proved-Reports e bundle active value lines raw completed recorded h v settled hex there
            reserved digest whole parsed) in
      (
        seen,
        does u.active u raw _ reserved (
            does_test (g.is_secure u.clock) (tick u) _ (secure u.clock) (
              does (object_of t raw) (tick u) active _ active_read (
                does_test (is_text bundle (get_field "bundle_sha256" active)) (tick u) _ named (
                  does (g.shown (tick u).clock) v lines _ (shown (tick u).clock) (
                    does_test
                      (is_value "LoadState" "loaded" values
                        || is_value "LoadState" "not-found" values)
                      v _ (unknown_state values unknown) reported))))),
        state,
        invocation,
      )

other_context : ◌==◌ {A = String} "context.json" "terminal-success.json" ≡ false
unfolding string_eq
other_context = refl

other_complete : ◌==◌ {A = String} "complete.json" "terminal-success.json" ≡ false
unfolding string_eq
other_complete = refl

module _ (t : Tools) where
  -- `dumps` writes the record of an exit with sorted keys, which `loads` reads back
  abbrev pub ReadsBack : Exit → String → Type 0
  ReadsBack e bundle =
      (raw : Bytes)
      → t.parse (t.dumps (Value.obj (proof_fields t e.digest bundle (t.sha256 raw) e.invocation)))
        ≡ some (spell (Value.obj (sorted_proof e.digest bundle (t.sha256 raw) e.invocation)))

  Recorded-Reports :
      (e : Exit) (bundle : String) (lines : List String) (h g : Host) (s u : Store)
      → Recorded t h e bundle s u
      → is_run is_hex 32 e.invocation ≡ true
      → ReadsBack e bundle
      → IsSettled g lines
      → Reports t g e (job_status t g bundle u).0
  Recorded-Reports e bundle lines h g s u
        (
          raw,
          completed,
          active,
          value,
          there,
          digest,
          parsed,
          named,
          reserved,
          (complete, complete_read, aim),
          kept,
          files,
        )
        hex law settled =
      let job = job_folder bundle in
      let proof =
        t.dumps (Value.obj (proof_fields t e.digest bundle (t.sha256 completed) e.invocation)) in
      job_status-Reports t g e bundle active value lines raw completed proof h u settled hex
        (rw (files job "context.json", eq_self job, other_context) there) (kept ∙ reserved) digest
        parsed named
        (rw (files job "complete.json", eq_self job, other_complete) complete, complete_read, aim)
        (rw
          (
            files job "terminal-success.json",
            eq_self job,
            eq_self {A = String} "terminal-success.json",
          )
          refl)
        (object_of-sorted e.digest bundle (t.sha256 completed) e.invocation t proof (law completed))

  -- An exit that `record_terminal` has recorded is what `status` then reports, whichever host answers
  -- the two: the state is completed, with the invocation that was recorded. The host of `status` has
  -- secure files and a runtime that is up, and systemd no longer knows the unit; a record that is
  -- written as JSON with sorted keys is read back.
  pub terminal_reported :
      (e : Exit) (bundle : String) (lines : List String) (h g : Host) (s u : Store)
      → context_folder (after_start "/var/lib/azd-santa-qualification/installers/" e.context_path)
        ≡ some bundle
      → record_terminal t h e s ≡ (some tt, u)
      → ReadsBack e bundle
      → IsSettled g lines
      → (seen : Observation) × ((job_status t g bundle u).0 ≡ some seen)
        × (seen.state ≡ "completed")
        × (seen.invocation ≡ some e.invocation)
  unfolding record_terminal has_succeeded
  terminal_reported e bundle lines h g s u named ran law settled =
      let (exit, r1) = ran_need s u tt (h.is_root && has_succeeded t e) _ ran in
      let (folder, found, r2) =
        ran_take s u tt
          (context_folder
            (after_start "/var/lib/azd-santa-qualification/installers/" e.context_path))
          _ r1 in
      let same : folder ≡ bundle = some-injective (sym found ∙ named) in
      let recorded = record_in-Recorded t h e folder s u r2 in
      subst (λ b. Reports t g e (job_status t g b u).0) same
        (Recorded-Reports e folder lines h g s u recorded (ground (arith, exit))
          (subst (λ b. ReadsBack e b) (sym same) law) settled)

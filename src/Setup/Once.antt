-- ===== src/Setup/Once.antt =====
-- On the calls of `operator_access` over many runs of the host, from an empty store.
use azd_santa.Base.{
  ℕ, ◌+◌, ◌≤◌, String, Bool, true, false, ◌||◌, Option, none, some, List, [], ◌∷◌, ◌≡◌, refl, subst,
  sym, arith,
}
use azd_santa.Base.{eq_self, ◌==◌, ◌=?◌, leb, length, string_eq, bytes_eq, if_cases, if◌then◌else◌}
use azd_santa.Base.Dict.{Dict, lookup, insert, lookup-insert}
use azd_santa.Base.Faulty.{pure, need, or_fail}
use azd_santa.Platform.{Bytes}
use azd_santa.Setup.Kit.{Kit}
use azd_santa.Setup.Request.{Request, request_from_environment}
use azd_santa.Setup.Envelope.{envelope}
use azd_santa.Setup.Host.{
  Disk, Host, tick, files_of, is_present, put_torn, make_from, same_bytes, is_absent_or,
  marked_lines, only, demand, make_folder, write_new, access, attempt_record, exit_record,
  read_artifact, read_output, reserve, collect, create, need_file, readback, operate, run,
}
use azd_santa.Setup.Tally.{
  differs, count, has, has-bound, Room, Ends, Moves, bind, less, need-Moves, or_fail-Moves,
  Room-put_file, Room-put_torn,
}

module _ (c : String) where
  module _ (k : Kit) (h : Host) where
    module _ (n : ℕ) where
      write_new-Moves :
          (context name : String) (raw : Bytes) → Moves c n (write_new k h context name raw) n
      unfolding write_new
      write_new-Moves context name raw d r =
          if_cases (Ends c n) (is_present (lookup name (files_of context d))) (λ _. less c n d r)
            λ _.
              if_cases (Ends c n) (h.breaks d.clock)
                (λ _.
                  less c n (put_torn context name (h.torn d.clock) d)
                    (Room-put_torn c n context name (h.torn d.clock) d r))
                (λ _. Room-put_file c n context name raw d r)

      demand-Moves : (test : ℕ → Bool) → Moves c n (demand k h test) n
      demand-Moves test d r =
          if_cases (λ (o : Option (Unit {0})). Ends c n (o, tick d)) (test d.clock) (λ _. r)
            (λ _. less c n d r)

      need_file-Moves :
          (context name : String) (test : Option Bytes → Bool)
          → Moves c n (need_file k h context name test) n
      need_file-Moves context name test d r =
          if_cases (λ (o : Option (Unit {0})). Ends c n (o, tick d))
            (test (lookup name (files_of context d))) (λ _. r) (λ _. less c n d r)

      read_artifact-Moves : (q : Request) → Moves c n (read_artifact k h q) n
      unfolding read_artifact
      read_artifact-Moves q d r =
          or_fail-Moves c n
            (elim (h.artifact d.clock) [ none ↦ none | some raw ↦ envelope k raw q ]) (tick d) r

      reserve-Moves : (context : String) (raw : Bytes) → Moves c n (reserve k h context raw) n
      unfolding reserve
      reserve-Moves context raw =
          bind c n n n (write_new k h context "request.json" raw) _
            (write_new-Moves context "request.json" raw)
            λ _.
              bind c n n n (write_new k h context "attempt.json" (attempt_record k h)) _
                (write_new-Moves context "attempt.json" (attempt_record k h))
                λ _.
                  bind c n n n (write_new k h context "command.stdout" []) _
                    (write_new-Moves context "command.stdout" [])
                    λ _. write_new-Moves context "command.stderr" []

    collect-Moves : (q : Request) (code : ℕ) → Moves c 0 (collect k h q code) 0
    unfolding collect
    collect-Moves q code =
        bind c 0 0 0 (write_new k h q.context_sha256 "exit.json" (exit_record k h code)) _
          (write_new-Moves 0 q.context_sha256 "exit.json" (exit_record k h code))
          λ _. bind c 0 0 0 (need (code =? 0)) _ (need-Moves c 0 (code =? 0)) λ _.
            bind c 0 0 0 (read_output k h) _ (λ d r. r)
              λ output.
                bind c 0 0 0 (need (leb (length output) 16384)) _
                  (need-Moves c 0 (leb (length output) 16384))
                  λ _.
                    bind c 0 0 0 (or_fail (h.lines output)) _ (or_fail-Moves c 0 (h.lines output))
                      λ lines.
                        bind c 0 0 0 (or_fail (only (marked_lines lines))) _
                          (or_fail-Moves c 0 (only (marked_lines lines)))
                          λ line.
                            bind c 0 0 0 (or_fail (envelope k (k.utf8 line) q)) _
                              (or_fail-Moves c 0 (envelope k (k.utf8 line) q))
                              λ sealed.
                                bind c 0 0 0 (read_artifact k h q) _ (read_artifact-Moves 0 q)
                                  λ found.
                                    bind c 0 0 0 (need (found == sealed)) _
                                      (need-Moves c 0 (found == sealed))
                                      λ _.
                                        bind c 0 0 0
                                          (write_new k h q.context_sha256 "sealed.json" sealed)
                                          (λ _. pure sealed)
                                          (write_new-Moves 0 q.context_sha256 "sealed.json" sealed)
                                          λ _ d r. r

    -- what a call for a context takes of the room of `c`
    abbrev mine : String → ℕ
    mine context = if context == c then 1 else 0

    make_from-Moves :
        (context : String) (o : Option (Dict String Bytes)) (d : Disk)
        → lookup context d.folders ≡ o
        → Room c 0 d
        → Ends c (mine context) (make_from context o d)
    make_from-Moves context none d there r = elim (string_eq.dec context c) [
      | yes same ↦
          let free : count context d.accessed + 0 ≤ 0 =
            subst (λ o. count context d.accessed + 0 ≤ has o) there
              (subst (λ x. Room x 0 d) (sym same) r) in
          subst
            (λ x.
              count x d.accessed + (if context == x then 1 else 0)
              ≤ has (lookup x (insert context [] d.folders)))
            same (rw (lookup-insert context context [] d.folders, eq_self context) (omega arith))
      | no other ↦
          rw
            (
              lookup-insert c context [] d.folders,
              differs context c other,
              differs c context (λ p. other (sym p)),
            )
            r
    ]
    make_from-Moves context (some files) d there r = r

    make_folder-Moves : (context : String) → Moves c 0 (make_folder k h context) (mine context)
    unfolding make_folder
    make_folder-Moves context d r =
        if_cases (Ends c (mine context)) (h.breaks d.clock) (λ _. r)
          (λ _. make_from-Moves context (lookup context d.folders) (tick d) refl r)

    access-Moves : (context : String) → Moves c (mine context) (access k h context) 0
    unfolding access count
    access-Moves context d r =
        or_fail-Moves c 0 (h.exit_code d.clock)
          (record d { accessed = context ∷ d.accessed; clock = d.clock + 1 }) (omega (arith, r))

    create-Moves : (q : Request) (raw : Bytes) → Moves c 0 (create k h q raw) 0
    unfolding create
    create-Moves q raw =
        let n = mine q.context_sha256 in
        bind c 0 n 0 (make_folder k h q.context_sha256) _ (make_folder-Moves q.context_sha256) λ _.
          bind c n n 0 (reserve k h q.context_sha256 raw) _ (reserve-Moves n q.context_sha256 raw)
            λ _.
              bind c n 0 0 (access k h q.context_sha256) (λ code. collect k h q code)
                (access-Moves q.context_sha256) (collect-Moves q)

    readback-Moves : (q : Request) (raw : Bytes) → Moves c 0 (readback k h q raw) 0
    unfolding readback
    readback-Moves q raw =
        bind c 0 0 0 (need_file k h q.context_sha256 "request.json" (λ o. same_bytes o raw)) _
          (need_file-Moves 0 q.context_sha256 "request.json" (λ o. same_bytes o raw))
          λ _.
            bind c 0 0 0 (need_file k h q.context_sha256 "attempt.json" is_present) _
              (need_file-Moves 0 q.context_sha256 "attempt.json" is_present)
              λ _. bind c 0 0 0 (read_artifact k h q) _ (read_artifact-Moves 0 q) λ sealed.
                bind c 0 0 0
                  (need_file k h q.context_sha256 "sealed.json" (λ o. is_absent_or o sealed))
                  (λ _. pure sealed)
                  (need_file-Moves 0 q.context_sha256 "sealed.json" (λ o. is_absent_or o sealed))
                  λ _ d r. r

    operate-Moves :
        (is_create : Bool) (q : Request) (raw : Bytes) → Moves c 0 (operate k h is_create q raw) 0
    unfolding operate
    operate-Moves true q raw = create-Moves q raw
    operate-Moves false q raw = readback-Moves q raw

    run-Moves : (value : String) → Moves c 0 (run k h value) 0
    unfolding run
    run-Moves value = bind c 0 0 0 (need h.is_root) _ (need-Moves c 0 h.is_root) λ _.
        bind c 0 0 0 (or_fail (request_from_environment k value)) _
          (or_fail-Moves c 0 (request_from_environment k value))
          λ (q, raw).
            bind c 0 0 0 (need (h.operation == "create" || h.operation == "readback")) _
              (need-Moves c 0 (h.operation == "create" || h.operation == "readback"))
              λ _.
                bind c 0 0 0 (demand k h h.attests)
                  (λ _. operate k h (h.operation == "create") q raw) (demand-Moves 0 h.attests)
                  λ _. operate-Moves (h.operation == "create") q raw

-- Runs one after the other, each with its own host and request.
unfoldable pub run_all : Kit → List (Host × String) → Disk → Disk
run_all k [] d = d
run_all k ((h, value) ∷ runs) d = run_all k runs (run k h value d).1

abbrev pub empty_disk : Disk
empty_disk = record { folders = []; accessed = []; clock = 0 }

Ends-Room : {A : Type 0} (c : String) (o : Option A × Disk) → Ends c 0 o → Room c 0 o.1
Ends-Room c (none, d) h = h
Ends-Room c (some a, d) h = h

run_all-Room :
    (k : Kit) (c : String) (runs : List (Host × String)) (d : Disk)
    → Room c 0 d
    → Room c 0 (run_all k runs d)
unfolding run_all
run_all-Room k c [] d r = r
run_all-Room k c ((h, value) ∷ runs) d r =
    run_all-Room k c runs (run k h value d).1
      (Ends-Room c (run k h value d) (run-Moves c k h value d r))

-- Over any number of runs of `run` from an empty store, creations and readbacks in any order, each
-- with any request and any faults, breaks and timeouts, `operator_access` is called at most once for
-- each context.
pub access_once :
    (k : Kit) (c : String) (runs : List (Host × String))
    → count c (run_all k runs empty_disk).accessed ≤ 1
unfolding count lookup
access_once k c runs = omega (
  arith,
  run_all-Room k c runs empty_disk (omega arith),
  has-bound (lookup c (run_all k runs empty_disk).folders),
)

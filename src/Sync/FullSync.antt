-- ===== src/Sync/FullSync.antt =====
-- A whole sync: preflight, every page, postflight.
use azd_santa.Base.{
  ℕ, suc, ◌≤◌, ◌<◌, ◌+◌, String, true, false, ◌≡◌, refl, ap, some, List, [], ◌∷◌, arith, ◌∙◌,
}
use azd_santa.Base.{string_eq, length, eq_self}
use azd_santa.Base.Int.{int_eq}
use azd_santa.Base.Dict.{lookup, insert, lookup-insert}
use azd_santa.Base.Text.{codes}
use azd_santa.Json.{Value, get_field}
use azd_santa.Platform.{Platform, Bytes}
use azd_santa.Raise.{ok}
use azd_santa.Sync.Snapshot.{Snapshot, is_text}
use azd_santa.Sync.State.{Session, State, session_seconds}
use azd_santa.Sync.Stages.{
  Inputs, empty_reply, lacks_approval, regresses, needs_session, new_session, preflight, served_all,
  acknowledged_of,
}
use azd_santa.Sync.Binding.{HasCursors, text_of}
use azd_santa.Sync.Handle.{handle}
use azd_santa.Sync.Client.{hello, report, download}
use azd_santa.Sync.Invariant.{acknowledged_of-insert}
use azd_santa.Sync.Paging.{text_self, Reads, cursor_at, dispatch_postflight}
use azd_santa.Sync.Completion.{Served, download_from, served_all_complete, postflight-report}

-- the server after a preflight that starts a session
abbrev pub begun : Inputs → String → State → State
begun i device s = record s { sessions = insert device (new_session i s.snapshot) s.sessions }

module _ (P : Platform) (i : Inputs) (device : String) (s : State) where
  preflight-begun :
      lacks_approval s.snapshot ≡ false
      → regresses device s ≡ false
      → needs_session (lookup device s.sessions) i.now ≡ true
      → (handle P i "preflight" device (hello device) s).1 ≡ begun i device s
  unfolding handle preflight is_text get_field
  preflight-begun approved newer fresh =
      rw (text_self "machine_id", eq_self device, text_self "preflight", approved, newer, fresh)

length-Reads :
    (P : Platform) (raws : List Bytes) (vs : List Value) → Reads P raws vs → length raws ≡ length vs
length-Reads P [] [] h = refl
length-Reads P (b ∷ raws) (v ∷ vs) h = ap suc (length-Reads P raws vs h.1)
length-Reads P [] (v ∷ vs) h = absurd h
length-Reads P (b ∷ raws) [] h = absurd h

not_empty : (snapshot : Snapshot) → lacks_approval snapshot ≡ false → 0 < length snapshot.rules
not_empty snapshot h = ground arith

module _ (P : Platform) (i j : Inputs) (device : String) (s : State) where
  -- the report of a client that was served everything is accepted, and its revision is acknowledged
  report-accepted :
      (x : Session) (t : State)
      → Served device s.key x 0 t
      → x.served ≡ []
      → j.now < x.expires
      → let u = handle P j "postflight" device (report device (length x.snapshot.rules)) t in
        (u.0 ≡ ok (empty_reply 200)) × (acknowledged_of device u.1 ≡ x.snapshot.revision)
  report-accepted x t d new live =
      let y : Session = record x { served = d.offsets } in
      let all_served : served_all (length x.snapshot.rules) d.offsets ≡ true =
        served_all_complete (length x.snapshot.rules) d.offsets
          (λ m low. d.marked m (omega arith) low) (d.within (rw new tt)) in
      let done =
        dispatch_postflight P j device (length x.snapshot.rules) t y d.there live
        ∙ postflight-report device y t all_served in
      (
        rw done,
        rw done (ground (arith, acknowledged_of-insert device device x.snapshot.revision t)),
      )

  after_begin :
      (h : HasCursors P s.key device i.fresh_id s.snapshot.revision)
      → ((n : ℕ) → n < length s.snapshot.rules → length (codes (text_of P s.key h n)) ≤ 512)
      → (raws : List Bytes) (vs : List Value) → s.snapshot.rules ≡ raws
      → Reads P raws vs
      → lacks_approval s.snapshot ≡ false
      → j.now < i.later + session_seconds
      → (t : State) × (download P j device (length vs) "" (begun i device s) ≡ some (vs, t))
        × Served device s.key (new_session i s.snapshot) 0 t
  unfolding cursor_at
  after_begin h short [] vs e reads approved live =
      absurd (omega (arith, not_empty s.snapshot approved, ap length e))
  after_begin h short (b ∷ raws) [] e reads approved live = absurd reads
  after_begin h short (b ∷ raws) (v ∷ vs) e reads approved live =
      download_from P j device s.key (new_session i s.snapshot) h short live vs v raws b 0 []
        (begun i device s) reads e refl
        (ground (arith, lookup-insert device device (new_session i s.snapshot) s.sessions))

  -- A device whose preflight starts a session, which follows the cursors from the empty one while
  -- the session lives and then reports what it got, receives exactly the rules of the snapshot in
  -- their order, its report is accepted, and the snapshot's revision is acknowledged.
  pub sync_completes :
      (h : HasCursors P s.key device i.fresh_id s.snapshot.revision)
      → ((n : ℕ) → n < length s.snapshot.rules → length (codes (text_of P s.key h n)) ≤ 512)
      → (vs : List Value) → Reads P s.snapshot.rules vs
      → lacks_approval s.snapshot ≡ false
      → regresses device s ≡ false
      → needs_session (lookup device s.sessions) i.now ≡ true
      → j.now < i.later + session_seconds
      → (t : State) × (download P j device
            (length vs)
            ""
            (handle P i "preflight" device (hello device) s).1
          ≡ some (vs, t))
        × (let u = handle P j "postflight" device (report device (length vs)) t in
            (u.0 ≡ ok (empty_reply 200)) × (acknowledged_of device u.1 ≡ s.snapshot.revision))
  sync_completes h short vs reads approved newer fresh live =
      let (t, run, served) = after_begin h short s.snapshot.rules vs refl reads approved live in
      let count : length s.snapshot.rules ≡ length vs = length-Reads P s.snapshot.rules vs reads in
      (
        t,
        rw (preflight-begun P i device s approved newer fresh) run,
        rw (← count) (report-accepted (new_session i s.snapshot) t served refl live),
      )

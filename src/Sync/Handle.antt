-- ===== src/Sync/Handle.antt =====
-- `Model.handle` of tools/sync_spike/model.py: the stages that call library code, and the dispatch.
use azd_santa.Base.{ℕ, ◌+◌, String, not, Option, none, some, List, [], ◌∷◌}
use azd_santa.Base.{◌==◌, string_eq, nat_eq, ltb, leb, length, get_elem?, add, union, if◌then◌else◌}
use azd_santa.Base.Int.{int_eq}
use azd_santa.Base.Dict.{lookup, insert}
use azd_santa.Json.{Value, Fields, get_field}
use azd_santa.Platform.{Platform, Bytes}
use azd_santa.Raise.{Result, ok, err, value_error, index_error, lookup_error}
use azd_santa.Raise.{◌>>=◌, or_raise}
use azd_santa.Sync.Snapshot.{canonical, is_text, max_event_digests}
use azd_santa.Sync.State.{Session, State}
use azd_santa.Sync.Cursor.{cursor, offset, loads}
use azd_santa.Sync.Stages.{
  Inputs, Outcome, answer, preflight, accepted_events, postflight, page_body, mark_served,
}

-- `except ValueError: return 400, {}`
abbrev pub as_request : Result ℕ → Result (Option ℕ)
as_request (ok n) = ok (some n)
as_request (err value_error) = ok none
as_request (err e) = err e

module _ (P : Platform) where
  -- `{hashlib.sha256(canonical(e)).hexdigest() for e in events}`
  unfoldable pub digests_of : List Value → Result (List String)
  digests_of [] = ok []
  digests_of (e ∷ es) = do b ← canonical P e; ds ← digests_of es; ok (add (P.sha256 b) ds)

  -- The `eventupload` branch behind its tests of the events.
  unfoldable pub record_digests : String → State → List String → List String → Outcome
  record_digests device s known digests =
      let combined = union known digests in
      if ltb max_event_digests (length combined)
      then answer 429 s
      else answer 200 (record s { event_digests = insert device combined s.event_digests })

  unfoldable pub upload_events : List Value → String → State → Outcome
  upload_events events device s = elim (digests_of events) [
    | err e ↦ (err e, s)
    | ok digests ↦ elim (lookup device s.event_digests) [
      | none ↦ (err lookup_error, s)
      | some known ↦ record_digests device s known digests
    ]
  ]

  unfoldable pub eventupload : String → Fields → State → Outcome
  eventupload device body s = elim (accepted_events body) [
    | none ↦ answer 400 s
    | some events ↦ upload_events events device s
  ]

  -- `body.get('cursor', '')` and the offset that it stands for; `none` is the answer 400.
  unfoldable pub requested_offset : Bytes → Fields → String → Session → Result (Option ℕ)
  requested_offset key body device session = elim (get_field "cursor" body) [
    | none ↦ ok (some 0)
    | some (Value.str c) ↦
        if c == "" then ok (some 0) else elim (offset P key (Value.str c) device session) [
          | ok n ↦ ok (some n)
          | err value_error ↦ ok none
          | err e ↦ err e
        ]
    | some _ ↦ ok none
  ]

  -- `self.cursor(...) if offset + 1 < len(snapshot.rules) else ''`
  unfoldable pub next_cursor : Bytes → String → Session → ℕ → Result String
  next_cursor key device session n =
      if ltb (n + 1) (length session.snapshot.rules)
      then cursor P key device session (n + 1)
      else ok ""

  -- One page. The offset is marked before the next cursor is made.
  unfoldable pub serve_page : ℕ → String → Session → State → Outcome
  serve_page n device session s =
      elim (or_raise (get_elem? session.snapshot.rules n) index_error >>= loads P) [
        | err e ↦ (err e, s)
        | ok rule ↦
            let t = mark_served device session n s in
            elim (next_cursor s.key device session n) [
              | err e ↦ (err e, t)
              | ok c ↦ (ok (record { status = 200; body = page_body rule c }), t)
            ]
      ]

  unfoldable pub ruledownload : String → Fields → Session → State → Outcome
  ruledownload device body session s = elim (requested_offset s.key body device session) [
    | err e ↦ (err e, s)
    | ok none ↦ answer 400 s
    | ok (some n) ↦ serve_page n device session s
  ]

  -- The stages that need a live session.
  unfoldable pub with_session : String → String → Fields → Session → State → Outcome
  with_session stage device body session s =
      if stage == "eventupload"
      then eventupload device body s
      else if stage == "ruledownload"
      then ruledownload device body session s
      else if stage == "postflight"
      then postflight device body session s
      else answer 404 s

  unfoldable pub handle : Inputs → String → String → Fields → State → Outcome
  handle i stage device body s =
      if not (is_text device (get_field "machine_id" body))
      then answer 403 s
      else if stage == "preflight"
      then preflight i device s
      else elim (lookup device s.sessions) [
        | none ↦ answer 409 s
        | some session ↦
            if leb session.expires i.now
            then answer 409 s
            else with_session stage device body session s
      ]

-- ===== src/Sync/Step.antt =====
-- The abstract protocol: the ways in which one request of a device may change the server. `handle`
-- makes no other change.
use azd_santa.Base.{ℕ, ◌≤◌, ◌<◌, String, true, ◌≡◌, none, some, List, arith}
use azd_santa.Base.{
  leb, not, ◌==◌, string_eq, nat_eq, length, get_elem?, union, get_elem?-lt, Option-cases, inl, inr,
  if_cases,
}
use azd_santa.Base.Int.{◌≤ℤ◌}
use azd_santa.Base.Dict.{lookup, insert}
use azd_santa.Json.{Value, Fields, get_field}
use azd_santa.Platform.{Platform}
use azd_santa.Raise.{Result-cases}
use azd_santa.Sync.Snapshot.{max_event_digests, is_text}
use azd_santa.Sync.State.{Session, State}
use azd_santa.Sync.Stages.{
  Inputs, acknowledged_of, new_session, mark_served, accepted_events, Outcome, lacks_approval,
  regresses, needs_session, is_incomplete, preflight, postflight, served_all,
}
use azd_santa.Sync.Cursor.{loads}
use azd_santa.Sync.Handle.{
  digests_of, next_cursor, requested_offset, record_digests, upload_events, eventupload, serve_page,
  ruledownload, with_session, handle,
}

pub data Step (i : Inputs) (device : String) (s : State) : State → Type 0 where
  stay : Step i device s s
  begin :
      0 < length s.snapshot.rules
      → acknowledged_of device s ≤ℤ s.snapshot.revision
      → Step i device s
          (record s { sessions = insert device (new_session i s.snapshot) s.sessions })
  note :
      (digests : List String)
      → length digests ≤ max_event_digests
      → Step i device s (record s { event_digests = insert device digests s.event_digests })
  serve :
      (x : Session) (n : ℕ)
      → lookup device s.sessions ≡ some x
      → i.now < x.expires
      → n < length x.snapshot.rules
      → Step i device s (mark_served device x n s)
  finish :
      (x : Session)
      → lookup device s.sessions ≡ some x
      → i.now < x.expires
      → served_all (length x.snapshot.rules) x.served ≡ true
      → Step i device s (record s {
        acknowledged = insert device x.snapshot.revision s.acknowledged;
        sessions = insert device (record x { acked = true }) s.sessions;
      })

module _ (i : Inputs) (device : String) where
  preflight-Step : (s : State) → Step i device s (preflight i device s).1
  unfolding preflight
  preflight-Step s =
      if_cases ends (lacks_approval s.snapshot) (λ _. stay)
        λ kept.
          if_cases ends (regresses device s) (λ _. stay)
            λ fresh.
              if_cases ends (needs_session (lookup device s.sessions) i.now)
                (λ _. begin (ground arith) (ground arith)) (λ _. stay)
    where
      ends : Outcome → Type 0
      ends o = Step i device s o.1

  postflight-Step :
      (body : Fields) (x : Session) (s : State)
      → lookup device s.sessions ≡ some x
      → i.now < x.expires
      → Step i device s (postflight device body x s).1
  unfolding postflight
  postflight-Step body x s found live =
      if_cases (λ (o : Outcome). Step i device s o.1) (is_incomplete body x) (λ _. stay)
        (λ h. finish x found live (ground arith))

module _ (P : Platform) (i : Inputs) (device : String) where
  record_digests-Step :
      (known digests : List String) (s : State)
      → Step i device s (record_digests P device s known digests).1
  unfolding record_digests
  record_digests-Step known digests s =
      if_cases (λ (o : Outcome). Step i device s o.1) _ (λ _. stay)
        (λ h. note (union known digests) (ground arith))

  upload_events-Step :
      (events : List Value) (s : State) → Step i device s (upload_events P events device s).1
  unfolding upload_events
  upload_events-Step events s = elim (Result-cases (digests_of P events)) [
    | inr (e, failed) ↦ rw (failed, upload_events) stay
    | inl (digests, made) ↦ elim (Option-cases (lookup device s.event_digests)) [
      | inl absent ↦ rw (made, absent, upload_events) stay
      | inr (known, there) ↦ rw (made, there, upload_events) (record_digests-Step known digests s)
    ]
  ]

  eventupload-Step : (body : Fields) (s : State) → Step i device s (eventupload P device body s).1
  unfolding eventupload
  eventupload-Step body s = elim (Option-cases (accepted_events body)) [
    | inl refused ↦ rw (refused, eventupload) stay
    | inr (events, taken) ↦ rw (taken, eventupload) (upload_events-Step events s)
  ]

  module _ (x : Session) (s : State) (found : lookup device s.sessions ≡ some x)
      (live : i.now < x.expires) where
    serve_page-Step : (n : ℕ) → Step i device s (serve_page P n device x s).1
    unfolding serve_page
    serve_page-Step n = elim (Option-cases (get_elem? x.snapshot.rules n)) [
      | inl absent ↦ rw (absent, serve_page) stay
      | inr (raw, there) ↦ elim (Result-cases (loads P raw)) [
        | inr (e, failed) ↦ rw (there, failed, serve_page) stay
        | inl (rule, read) ↦ elim (Result-cases (next_cursor P s.key device x n)) [
          | inr (e, failed) ↦
              rw (there, read, failed, serve_page)
                (serve x n found live (get_elem?-lt x.snapshot.rules n there))
          | inl (c, made) ↦
              rw (there, read, made, serve_page)
                (serve x n found live (get_elem?-lt x.snapshot.rules n there))
        ]
      ]
    ]

    ruledownload-Step : (body : Fields) → Step i device s (ruledownload P device body x s).1
    unfolding ruledownload
    ruledownload-Step body = elim (Result-cases (requested_offset P s.key body device x)) [
      | inr (e, failed) ↦ rw (failed, ruledownload) stay
      | inl (none, failed) ↦ rw (failed, ruledownload) stay
      | inl (some n, made) ↦ rw (made, ruledownload) (serve_page-Step n)
    ]

    with_session-Step :
        (stage : String) (body : Fields) → Step i device s (with_session P stage device body x s).1
    unfolding with_session
    with_session-Step stage body =
        if_cases ends (stage == "eventupload") (λ _. eventupload-Step body s)
          λ _.
            if_cases ends (stage == "ruledownload") (λ _. ruledownload-Step body)
              λ _.
                if_cases ends (stage == "postflight")
                  (λ _. postflight-Step i device body x s found live) (λ _. stay)
      where
        ends : Outcome → Type 0
        ends o = Step i device s o.1

  -- Whatever a request is, it changes the server by one step of the protocol or not at all.
  pub handle-Step :
      (stage : String) (body : Fields) (s : State)
      → Step i device s (handle P i stage device body s).1
  unfolding handle
  handle-Step stage body s =
      if_cases ends (not (is_text device (get_field "machine_id" body))) (λ _. stay)
        λ _.
          if_cases ends (stage == "preflight") (λ _. preflight-Step i device s)
            λ _. elim (Option-cases (lookup device s.sessions)) [
              | inl absent ↦ rw absent stay
              | inr (x, found) ↦ rw found (
                  if_cases ends (leb x.expires i.now) (λ _. stay)
                    (λ live. with_session-Step x s found (ground arith) stage body))
            ]
    where
      ends : Outcome → Type 0
      ends o = Step i device s o.1

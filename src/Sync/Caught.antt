-- ===== src/Sync/Caught.antt =====
-- On the exceptions that the stages of a request raise and `do_POST` answers.
use azd_santa.Base.{
  ℕ, String, Bool, true, false, ◌≡◌, refl, Option, none, some, List, [], ◌∷◌, arith, inl, inr, not,
}
use azd_santa.Base.Text.{codes}
use azd_santa.Base.{◌+◌, ltb, string_eq, ◌==◌, leb, length, get_elem?, Option-cases, if_cases}
use azd_santa.Base.Dict.{lookup}
use azd_santa.Json.{Value, Fields, get_field}
use azd_santa.Platform.{Platform, Bytes}
use azd_santa.Raise.{
  Result, ok, err, value_error, lookup_error, index_error, overflow_error, type_error, sqlite_error,
}
use azd_santa.Raise.{◌>>=◌, or_raise, raise_if, Result-cases}
use azd_santa.Sync.Snapshot.{canonical, is_text}
use azd_santa.Sync.State.{Session, State}
use azd_santa.Sync.Stages.{
  Inputs, Outcome, lacks_approval, regresses, needs_session, is_incomplete, preflight, postflight,
  accepted_events,
}
use azd_santa.Sync.Cursor.{cursor, offset, verified, loads, check_values, as_value_error}
use azd_santa.Sync.Handle.{
  as_request, digests_of, record_digests, upload_events, eventupload, requested_offset, next_cursor,
  serve_page, ruledownload, with_session, handle,
}
use azd_santa.Sync.Http.{expand, decode}

-- a value, or an exception that `do_POST` answers
abbrev pub is_caught {ℓ} : {A : Type ℓ} → Result A → Bool
is_caught (ok a) = true
is_caught (err type_error) = false
is_caught (err sqlite_error) = false
is_caught (err e) = true

abbrev pub Answers : Outcome → Type 0
Answers o = is_caught o.0 ≡ true

pub bind-caught {ℓ κ} :
    {A : Type ℓ} {B : Type κ} (m : Result A) (f : A → Result B)
    → is_caught m ≡ true
    → ((a : A) → is_caught (f a) ≡ true)
    → is_caught (m >>= f) ≡ true
bind-caught (ok a) f hm hf = hf a
bind-caught (err value_error) f hm hf = refl
bind-caught (err lookup_error) f hm hf = refl
bind-caught (err index_error) f hm hf = refl
bind-caught (err overflow_error) f hm hf = refl
bind-caught (err type_error) f hm hf = cc
bind-caught (err sqlite_error) f hm hf = cc

bind-softened {ℓ κ} :
    {A : Type ℓ} {B : Type κ} (m : Result A) (f : A → Result B)
    → is_caught (as_value_error m) ≡ true
    → ((a : A) → is_caught (as_value_error (f a)) ≡ true)
    → is_caught (as_value_error (m >>= f)) ≡ true
bind-softened (ok a) f hm hf = hf a
bind-softened (err value_error) f hm hf = refl
bind-softened (err lookup_error) f hm hf = refl
bind-softened (err index_error) f hm hf = refl
bind-softened (err overflow_error) f hm hf = refl
bind-softened (err type_error) f hm hf = refl
bind-softened (err sqlite_error) f hm hf = cc

module _ (P : Platform) where
  canonical-caught : (v : Value) → is_caught (canonical P v) ≡ true
  unfolding canonical
  canonical-caught v = ground arith

  loads-caught : (b : Bytes) → is_caught (loads P b) ≡ true
  unfolding loads
  loads-caught b = ground arith

  loads-softened : (b : Bytes) → is_caught (as_value_error (loads P b)) ≡ true
  unfolding loads
  loads-softened b = ground arith

  digests_of-caught : (es : List Value) → is_caught (digests_of P es) ≡ true
  unfolding digests_of
  digests_of-caught [] = refl
  digests_of-caught (e ∷ es) = ground (arith, canonical-caught e, digests_of-caught es)

  check_values-caught :
      (v : Value) (device : String) (x : Session)
      → is_caught (as_value_error (check_values P v device x)) ≡ true
  unfolding check_values
  check_values-caught (Value.arr vs) device x = ground arith
  check_values-caught v device x = ground arith

  verified-caught : (key raw : Bytes) → is_caught (as_value_error (verified P key raw)) ≡ true
  unfolding verified
  verified-caught key raw = ground arith

  offset-caught :
      (key : Bytes) (v : Value) (device : String) (x : Session)
      → is_caught (offset P key v device x) ≡ true
  unfolding offset
  offset-caught key (Value.str c) device x =
      bind-caught (raise_if (ltb 512 (length (codes c))) value_error) _ (ground arith) λ _.
        bind-softened (or_raise (P.b64decode c) value_error) _ (ground arith) λ raw.
          bind-softened (verified P key raw) _ (verified-caught key raw) λ payload.
            bind-softened (loads P payload) _ (loads-softened payload)
              λ v. check_values-caught v device x
  offset-caught key v device x = refl

  as_request-caught : (r : Result ℕ) → is_caught r ≡ true → is_caught (as_request r) ≡ true
  as_request-caught r h = ground arith

  requested_offset-caught :
      (key : Bytes) (body : Fields) (device : String) (x : Session)
      → is_caught (requested_offset P key body device x) ≡ true
  unfolding requested_offset
  requested_offset-caught key body device x = elim (Option-cases (get_field "cursor" body)) [
    | inl absent ↦ rw (absent, requested_offset)
    | inr (Value.str c, given) ↦
        rw (given, requested_offset)
          (if_cases (λ (r : Result (Option ℕ)). is_caught r ≡ true) (c == "") (λ _. refl)
            (λ _.
              as_request-caught (offset P key (Value.str c) device x)
                (offset-caught key (Value.str c) device x)))
    | inr (v, given) ↦ rw (given, requested_offset)
  ]

  cursor-caught :
      (key : Bytes) (device : String) (x : Session) (n : ℕ)
      → is_caught (cursor P key device x n) ≡ true
  unfolding cursor canonical
  cursor-caught key device x n = ground arith

  next_cursor-caught :
      (key : Bytes) (device : String) (x : Session) (n : ℕ)
      → is_caught (next_cursor P key device x n) ≡ true
  unfolding next_cursor
  next_cursor-caught key device x n = ground (arith, cursor-caught key device x (n + 1))

  module _ (device : String) (s : State) where
    eventupload-Answers : (body : Fields) → Answers (eventupload P device body s)
    unfolding eventupload upload_events record_digests
    eventupload-Answers body = elim (Option-cases (accepted_events body)) [
      | inl refused ↦ rw (refused, eventupload)
      | inr (events, taken) ↦ rw (taken, eventupload) (ground (arith, digests_of-caught events))
    ]

    serve_page-Answers : (n : ℕ) (x : Session) → Answers (serve_page P n device x s)
    unfolding serve_page
    serve_page-Answers n x =
        elim (Result-cases (or_raise (get_elem? x.snapshot.rules n) index_error >>= loads P)) [
          | inr (e, failed) ↦
              let soft =
                bind-caught (or_raise (get_elem? x.snapshot.rules n) index_error) (loads P)
                  (ground arith) loads-caught in
              rw (failed, serve_page) (rw failed at soft)
          | inl (v, read) ↦ elim (Result-cases (next_cursor P s.key device x n)) [
            | inr (e, failed) ↦
                rw (read, failed, serve_page) (rw failed at (next_cursor-caught s.key device x n))
            | inl (c, made) ↦ rw (read, made, serve_page)
          ]
        ]

    ruledownload-Answers : (body : Fields) (x : Session) → Answers (ruledownload P device body x s)
    unfolding ruledownload
    ruledownload-Answers body x = elim (Result-cases (requested_offset P s.key body device x)) [
      | inr (e, failed) ↦
          rw (failed, ruledownload) (rw failed at (requested_offset-caught s.key body device x))
      | inl (none, made) ↦ rw (made, ruledownload)
      | inl (some n, made) ↦ rw (made, ruledownload) (serve_page-Answers n x)
    ]

    preflight-Answers : (i : Inputs) → Answers (preflight i device s)
    unfolding preflight
    preflight-Answers i =
        if_cases Answers (lacks_approval s.snapshot) (λ _. refl)
          λ _.
            if_cases Answers (regresses device s) (λ _. refl)
              λ _.
                if_cases Answers (needs_session (lookup device s.sessions) i.now) (λ _. refl)
                  (λ _. refl)

    postflight-Answers : (body : Fields) (x : Session) → Answers (postflight device body x s)
    unfolding postflight
    postflight-Answers body x = if_cases Answers (is_incomplete body x) (λ _. refl) (λ _. refl)

    with_session-Answers :
        (stage : String) (body : Fields) (x : Session)
        → Answers (with_session P stage device body x s)
    unfolding with_session
    with_session-Answers stage body x =
        if_cases Answers (stage == "eventupload") (λ _. eventupload-Answers body)
          λ _.
            if_cases Answers (stage == "ruledownload") (λ _. ruledownload-Answers body x)
              λ _.
                if_cases Answers (stage == "postflight") (λ _. postflight-Answers body x)
                  (λ _. refl)

    pub handle-Answers :
        (i : Inputs) (stage : String) (body : Fields) → Answers (handle P i stage device body s)
    unfolding handle
    handle-Answers i stage body =
        if_cases Answers (not (is_text device (get_field "machine_id" body))) (λ _. refl)
          λ _.
            if_cases Answers (stage == "preflight") (λ _. preflight-Answers i)
              λ _. elim (Option-cases (lookup device s.sessions)) [
                | inl absent ↦ rw absent
                | inr (x, found) ↦ rw found (
                    if_cases Answers (leb x.expires i.now) (λ _. refl)
                      (λ _. with_session-Answers stage body x))
              ]

  pub decode-caught : (raw : Bytes) (encoding : String) → is_caught (decode P raw encoding) ≡ true
  unfolding decode expand
  decode-caught raw encoding = ground arith

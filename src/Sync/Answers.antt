-- ===== src/Sync/Answers.antt =====
-- On the replies of `do_POST`, whose handlers catch exceptions.
use azd_santa.Base.{ℕ, String, true, ◌≡◌, refl, Option, none, some, arith, inl, inr, not, ◌||◌}
use azd_santa.Base.{string_eq, ◌=?◌, length, Option-cases, Bool-cases}
use azd_santa.Base.Int.{ℤ, pos, negsuc}
use azd_santa.Base.Dict.{lookup}
use azd_santa.Json.{Value}
use azd_santa.Platform.{Platform, Bytes}
use azd_santa.Raise.{
  ok, err, value_error, lookup_error, index_error, overflow_error, type_error, sqlite_error,
}
use azd_santa.Raise.{◌>>=◌, Result-cases}
use azd_santa.Sync.State.{State}
use azd_santa.Sync.Stages.{Reply, empty_reply, Inputs, Outcome}
use azd_santa.Sync.Http.{
  Post, status, is_bound, bearer, finish_post, answered, authorized, outcome, do_post, route,
  stages, decode, read_body, or_empty, checked_length, is_json, present, first_header,
}
use azd_santa.Sync.Caught.{is_caught, Answers, bind-caught, handle-Answers, decode-caught}

read_body-caught : (stream : Option Bytes) (n : ℕ) → is_caught (read_body stream n) ≡ true
unfolding read_body
read_body-caught none n = refl
read_body-caught (some stream) n = ground arith

checked_length-caught : (n : Option ℤ) → is_caught (checked_length n) ≡ true
unfolding checked_length
checked_length-caught none = refl
checked_length-caught (some (pos n)) = ground arith
checked_length-caught (some (negsuc n)) = refl

abbrev Sent : Option Reply × State → Type 0
Sent o = (r : Reply) × (o.0 ≡ some r)

status-Sent : (o : Outcome) → Answers o → Sent (status o)
status-Sent (ok r, s) h = (r, refl)
status-Sent (err value_error, s) h = (empty_reply 400, refl)
status-Sent (err lookup_error, s) h = (empty_reply 415, refl)
status-Sent (err index_error, s) h = (empty_reply 415, refl)
status-Sent (err overflow_error, s) h = (empty_reply 413, refl)
status-Sent (err type_error, s) h = cc
status-Sent (err sqlite_error, s) h = cc

module _ (P : Platform) (i : Inputs) where
  answered-Answers :
      (stage device : String) (q : Post) (n : ℕ) (s : State)
      → Answers (answered P i stage device q n s)
  unfolding answered
  answered-Answers stage device q n s =
      elim (Result-cases
        (read_body q.stream n >>= λ raw. decode P raw (or_empty q.content_encoding))) [
          | inl (body, read) ↦ rw (read, answered) (handle-Answers P device s i stage body)
          | inr (e, failed) ↦
              let soft =
                bind-caught (read_body q.stream n)
                  (λ raw. decode P raw (or_empty q.content_encoding)) (read_body-caught q.stream n)
                  (λ raw. decode-caught P raw (or_empty q.content_encoding)) in
              rw (failed, answered) (rw failed at soft)
        ]

  authorized-Sent :
      (stage device : String) (q : Post) (s : State) → Sent (authorized P i stage device q s)
  unfolding authorized
  authorized-Sent stage device q s =
      elim (Bool-cases (present q.transfer_encoding || not (length q.content_length =? 1))) [
        | inl bad ↦ (empty_reply 400, rw bad)
        | inr good ↦
            elim (Result-cases (checked_length (P.to_int (first_header q.content_length)))) [
              | inr (e, failed) ↦
                  rw (good, failed, authorized)
                    (status-Sent (err e, s)
                      (rw failed at
                        (checked_length-caught (P.to_int (first_header q.content_length)))))
              | inl (n, fits) ↦ elim (Bool-cases (is_json q.content_type)) [
                | inr other ↦ (empty_reply 415, rw (good, fits, other, authorized))
                | inl json ↦
                    rw (good, fits, json, authorized)
                      (status-Sent (answered P i stage device q n s)
                        (answered-Answers stage device q n s))
              ]
            ]
      ]

  outcome-Sent : (q : Post) (s : State) → Sent (outcome P i q s)
  unfolding outcome
  outcome-Sent q s = elim (Option-cases (route q.path stages)) [
    | inl unknown ↦ (empty_reply 404, rw (unknown, outcome))
    | inr ((stage, device), known) ↦
        elim (Bool-cases (is_bound (lookup (bearer q.authorization) s.tokens) device)) [
          | inr refused ↦ (empty_reply 401, rw (known, refused, outcome))
          | inl bound ↦ rw (known, bound, outcome) (authorized-Sent stage device q s)
        ]
  ]

  -- Every POST, well-formed or not, comes to a reply, and the reply is sent with its status
  -- whenever its body can be written as JSON.
  pub do_post_answers :
      (request_id : String) (q : Post) (s : State)
      → (r : Reply) × ((outcome P i q s).0 ≡ some r)
        × ((do_post P i request_id q s).0
            ≡ (elim (P.dumps (Value.obj r.body)) [ none ↦ none | some raw ↦ some r.status ]))
  unfolding do_post finish_post
  do_post_answers request_id q s =
      let (r, given) = outcome-Sent q s in (r, given, rw (given, finish_post))

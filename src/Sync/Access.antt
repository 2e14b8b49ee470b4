-- ===== src/Sync/Access.antt =====
-- What a POST can do: only the holder of a device's token acts for the device, every POST is
-- answered, and revocation is final until a new token is drawn.
use azd_santa.Base.{
  ℕ, ◌≤◌, ◌-◌, String, not, ◌||◌, ◌≡◌, ◌≢◌, ◌⊎◌, inl, inr, refl, ap, Option, none, some, List, [],
  ◌∷◌, ◌++◌, arith,
}
use azd_santa.Base.{◌=?◌, string_eq, length, ◌∙◌, length-drop, Option-cases, Bool-cases}
use azd_santa.Base.Dict.{lookup}
use azd_santa.Platform.{Platform}
use azd_santa.Raise.{ok, err}
use azd_santa.Raise.{◌>>=◌, Result-cases}
use azd_santa.Sync.State.{State, without_device}
use azd_santa.Sync.Stages.{Reply, Inputs, Outcome}
use azd_santa.Sync.Step.{Step, stay, handle-Step}
use azd_santa.Sync.Invariant.{Step-constants}
use azd_santa.Sync.Http.{
  Post, status, is_bound, bearer, reply, finish_post, answered, authorized, outcome, do_post, route,
  stages, decode, read_body, or_empty, checked_length, is_json, present, first_header,
}

-- the state but for the audit
abbrev pub unaudited : State → State
unaudited s = record s { audit = [] }

module _ (P : Platform) (i : Inputs) where
  answered-Step :
      (stage device : String) (q : Post) (n : ℕ) (s : State)
      → Step i device s (answered P i stage device q n s).1
  unfolding answered
  answered-Step stage device q n s =
      elim (Result-cases
        (read_body q.stream n >>= λ raw. decode P raw (or_empty q.content_encoding))) [
          | inr (e, failed) ↦ rw (failed, answered) stay
          | inl (body, read) ↦ rw (read, answered) (handle-Step P i device stage body s)
        ]

  status-state : (o : Outcome) → (status o).1 ≡ o.1
  status-state (ok r, s) = refl
  status-state (err e, s) = refl

  authorized-Step :
      (stage device : String) (q : Post) (s : State)
      → Step i device s (authorized P i stage device q s).1
  unfolding authorized
  authorized-Step stage device q s =
      elim (Bool-cases (present q.transfer_encoding || not (length q.content_length =? 1))) [
        | inl bad ↦ rw bad stay
        | inr good ↦
            elim (Result-cases (checked_length (P.to_int (first_header q.content_length)))) [
              | inr (e, failed) ↦ rw (good, failed, authorized) stay
              | inl (n, fits) ↦ elim (Bool-cases (is_json q.content_type)) [
                | inr other ↦ rw (good, fits, other, authorized) stay
                | inl json ↦
                    rw
                      (good, fits, json, authorized, status-state (answered P i stage device q n s))
                      (answered-Step stage device q n s)
              ]
            ]
      ]

  -- the holder of a device's token, acting
  pub record ActsFor (device : String) (q : Post) (s t : State) : Type 0 where
    pub token : lookup (bearer q.authorization) s.tokens ≡ some device
    pub step : Step i device s t

  outcome-ActsFor :
      (q : Post) (s : State)
      → ((outcome P i q s).1 ≡ s) ⊎ ((device : String) × ActsFor device q s (outcome P i q s).1)
  unfolding outcome
  outcome-ActsFor q s = elim (Option-cases (route q.path stages)) [
    | inl unknown ↦ rw (unknown, outcome) (inl refl)
    | inr ((stage, device), known) ↦
        elim (Bool-cases (is_bound (lookup (bearer q.authorization) s.tokens) device)) [
          | inr refused ↦ rw (known, refused, outcome) (inl refl)
          | inl bound ↦
              rw (known, bound, outcome)
                (inr (
                  device,
                  record { token = ground arith; step = authorized-Step stage device q s },
                ))
        ]
  ]

  finish_post-unaudited :
      (request_id : String) (o : Option Reply × State)
      → unaudited (finish_post P i request_id o).1 ≡ unaudited o.1
  unfolding finish_post reply
  finish_post-unaudited request_id (none, s) = refl
  finish_post-unaudited request_id (some r, s) = refl

  -- A POST leaves everything but the audit as it is, unless it carries the token of a device; then
  -- it makes at most one step of the protocol for that device.
  pub do_post-ActsFor :
      (request_id : String) (q : Post) (s : State)
      → (unaudited (do_post P i request_id q s).1 ≡ unaudited s)
        ⊎ ((device : String) × (t : State) × ActsFor device q s t
            × (unaudited (do_post P i request_id q s).1 ≡ unaudited t))
  unfolding do_post
  do_post-ActsFor request_id q s = elim (outcome-ActsFor q s) [
    | inl same ↦ inl (finish_post-unaudited request_id (outcome P i q s) ∙ ap unaudited same)
    | inr (device, acts) ↦
        inr (device, (outcome P i q s).1, acts, finish_post-unaudited request_id (outcome P i q s))
  ]

  reply-audit :
      (request_id : String) (n : ℕ) (s : State) → length (reply request_id n s).audit ≤ 128
  unfolding reply
  reply-audit request_id n s = omega (
    arith,
    length-drop (length (s.audit ++ (request_id, n) ∷ []) - 128) (s.audit ++ (request_id, n) ∷ []),
  )

  outcome-audit : (q : Post) (s : State) → (outcome P i q s).1.audit ≡ s.audit
  outcome-audit q s = elim (outcome-ActsFor q s) [
    | inl same ↦ ap (λ (t : State). t.audit) same
    | inr (device, acts) ↦ (Step-constants acts.step).3
  ]

  -- The audit never holds more than 128 entries.
  pub do_post-audit :
      (request_id : String) (q : Post) (s : State)
      → length s.audit ≤ 128
      → length (do_post P i request_id q s).1.audit ≤ 128
  unfolding do_post finish_post
  do_post-audit request_id q s short = elim (Option-cases (outcome P i q s).0) [
    | inl escapes ↦ rw (escapes, finish_post) (rw (outcome-audit q s) short)
    | inr (r, given) ↦ rw (given, finish_post) (reply-audit request_id r.status (outcome P i q s).1)
  ]

pub without_device-lookup :
    (device token : String) (d : List (String × String))
    → lookup token (without_device device d) ≢ some device
unfolding lookup without_device
without_device-lookup device token [] h = cc
without_device-lookup device token ((t, bound) ∷ d) h =
    ground (arith, without_device-lookup device token d)

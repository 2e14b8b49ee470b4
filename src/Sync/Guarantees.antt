-- ===== src/Sync/Guarantees.antt =====
-- What the server guarantees for every request and every sequence of requests.
use azd_santa.Base.{ℕ, zero, suc, ◌<◌, String, true, ◌≡◌, ◌≢◌, refl, some, List, [], ◌∷◌, arith}
use azd_santa.Base.{
  string_eq, nat_eq, length, leb, contains, union, union-union, Option-cases, inl, inr,
}
use azd_santa.Base.Int.{int_eq, ◌≤ℤ◌}
use azd_santa.Base.Dict.{lookup, insert, lookup-insert, insert-insert}
use azd_santa.Json.{Value, Fields}
use azd_santa.Platform.{Platform}
use azd_santa.Raise.{Result-cases}
use azd_santa.Sync.State.{Session, State}
use azd_santa.Sync.Stages.{Inputs, answer, accepted_events, acknowledged_of, covers, served_all}
use azd_santa.Sync.Handle.{digests_of, record_digests, upload_events, eventupload, handle}
use azd_santa.Sync.Step.{Step, stay, begin, note, serve, finish, handle-Step}
use azd_santa.Sync.Invariant.{
  IsValid, Step-IsValid, Step-acknowledged, Step-elsewhere, acknowledged_of-insert,
}

pub record Request : Type 0 where
  pub inputs : Inputs
  pub stage : String
  pub device : String
  pub body : Fields

module _ (P : Platform) where
  -- the server after a sequence of requests
  unfoldable pub serve_all : List Request → State → State
  serve_all [] s = s
  serve_all (r ∷ rs) s = serve_all rs (handle P r.inputs r.stage r.device r.body s).1

  -- Every sequence of requests keeps the invariant.
  pub serve_all-IsValid : (rs : List Request) (s : State) → IsValid s → IsValid (serve_all rs s)
  unfolding serve_all
  serve_all-IsValid [] s v = v
  serve_all-IsValid (r ∷ rs) s v =
      serve_all-IsValid rs _ (Step-IsValid (handle-Step P r.inputs r.device r.stage r.body s) v)

  -- Over any sequence of requests no device's acknowledged revision falls.
  pub serve_all-acknowledged :
      (rs : List Request) (s : State) (e : String)
      → IsValid s
      → acknowledged_of e s ≤ℤ acknowledged_of e (serve_all rs s)
  unfolding serve_all
  serve_all-acknowledged [] s e v = omega arith
  serve_all-acknowledged (r ∷ rs) s e v =
      let step = handle-Step P r.inputs r.device r.stage r.body s in
      omega (arith, Step-acknowledged step v e, serve_all-acknowledged rs _ e (Step-IsValid step v))

  -- A request of one device leaves the session, the acknowledgement and the digests of every other.
  pub handle-elsewhere :
      (r : Request) (s : State) (e : String)
      → e ≢ r.device
      → let t = (handle P r.inputs r.stage r.device r.body s).1 in
        (lookup e t.sessions ≡ lookup e s.sessions)
        × (lookup e t.acknowledged ≡ lookup e s.acknowledged)
        × (lookup e t.event_digests ≡ lookup e s.event_digests)
  handle-elsewhere r s e other =
      Step-elsewhere (handle-Step P r.inputs r.device r.stage r.body s) e other

covers-contains :
    (k : ℕ) (served : List ℕ) → covers k served ≡ true → (m : ℕ) → m < k → contains served m ≡ true
unfolding covers
covers-contains (suc k) served h m low = elim (nat_eq.dec m k) [
  | yes e ↦ ground arith
  | no ne ↦ covers-contains k served (ground arith) m (omega arith)
]
covers-contains zero served h m low = absurd (omega arith)

served_all-contains :
    (k : ℕ) (served : List ℕ)
    → served_all k served ≡ true
    → (m : ℕ) → m < k
    → contains served m ≡ true
unfolding served_all
served_all-contains k served h = covers-contains k served (ground arith)

-- What stands behind an acknowledgement: a live session of the device, every page of it served.
pub record Earned (i : Inputs) (device : String) (s t : State) : Type 0 where
  pub session : Session
  pub there : lookup device s.sessions ≡ some session
  pub live : i.now < session.expires
  pub served : (m : ℕ) → m < length session.snapshot.rules → contains session.served m ≡ true
  pub revision : acknowledged_of device t ≡ session.snapshot.revision

module _ {i : Inputs} {device : String} where
  Step-Earned :
      {s t : State}
      → Step i device s t
      → (e : String) → acknowledged_of e t ≢ acknowledged_of e s
      → (e ≡ device) × Earned i device s t
  Step-Earned stay e changed = absurd (changed refl)
  Step-Earned (begin _ _) e changed = absurd (changed refl)
  Step-Earned (note _ _) e changed = absurd (changed refl)
  Step-Earned (serve _ _ _ _ _) e changed = absurd (changed refl)
  Step-Earned {s} (finish x there live all) e changed = elim (string_eq.dec e device) [
    | no other ↦
        absurd (changed (ground (arith, acknowledged_of-insert e device x.snapshot.revision s)))
    | yes same ↦ (
      same,
      record {
        session = x;
        there = there;
        live = live;
        served = served_all-contains (length x.snapshot.rules) x.served all;
        revision = ground (arith, acknowledged_of-insert device device x.snapshot.revision s);
      },
    )
  ]

module _ (P : Platform) where
  -- An acknowledged revision changes only by a request of the device itself, whose live session
  -- has been served every page, and then to the revision of that session.
  pub acknowledgement-Earned :
      (r : Request) (s : State) (e : String)
      → let t = (handle P r.inputs r.stage r.device r.body s).1 in
        acknowledged_of e t ≢ acknowledged_of e s → (e ≡ r.device) × Earned r.inputs r.device s t
  acknowledgement-Earned r s e changed =
      Step-Earned (handle-Step P r.inputs r.device r.stage r.body s) e changed

  module _ (device : String) (digests : List String) where
    abbrev noted : State → List String → State
    noted s known = record s { event_digests = insert device (union known digests) s.event_digests }

    record_digests-noted :
        (s t : State) (known : List String)
        → record_digests P device s known digests ≡ answer 200 t
        → (leb (length (union known digests)) 256 ≡ true) × (noted s known ≡ t)
    unfolding record_digests
    record_digests-noted s t known first = ground arith

    record_digests-again :
        (s : State) (known : List String)
        → leb (length (union known digests)) 256 ≡ true
        → record_digests P device (noted s known) (union known digests) digests
          ≡ answer 200 (noted s known)
    unfolding record_digests
    record_digests-again s known fits =
        rw (union-union known digests, insert-insert device (union known digests) s.event_digests)
          (ground arith)

  upload_events_twice :
      (events : List Value) (device : String) (s t : State)
      → upload_events P events device s ≡ answer 200 t
      → upload_events P events device t ≡ answer 200 t
  unfolding upload_events
  upload_events_twice events device s t first = elim (Result-cases (digests_of P events)) [
    | inr (e, failed) ↦ cc (failed, rw (failed, upload_events) at first)
    | inl (digests, made) ↦ elim (Option-cases (lookup device s.event_digests)) [
      | inl absent ↦ cc (rw (made, absent, upload_events) at first)
      | inr (known, there) ↦
          let ran : record_digests P device s known digests ≡ answer 200 t =
            rw (made, there, upload_events) at first in
          let (fits, is) = record_digests-noted device digests s t known ran in
          let now : lookup device (noted device digests s known).event_digests
              ≡ some (union known digests) =
            ground (arith, lookup-insert device device (union known digests) s.event_digests) in
          rw (← is)
            (rw (made, now, upload_events) (record_digests-again device digests s known fits))
    ]
  ]

  -- Uploading again the events of an accepted upload is accepted and changes nothing.
  pub eventupload_twice :
      (device : String) (body : Fields) (s t : State)
      → eventupload P device body s ≡ answer 200 t
      → eventupload P device body t ≡ answer 200 t
  unfolding eventupload
  eventupload_twice device body s t first = elim (Option-cases (accepted_events body)) [
    | inl refused ↦ cc (rw (refused, eventupload) at first)
    | inr (events, taken) ↦
        rw (taken, eventupload)
          (upload_events_twice events device s t (rw (taken, eventupload) at first))
  ]

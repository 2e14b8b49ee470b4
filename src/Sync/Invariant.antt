-- ===== src/Sync/Invariant.antt =====
-- What holds of the server between requests, and what no request undoes.
use azd_santa.Base.{ℕ, ◌≤◌, ◌<◌, String, true, ◌≡◌, ◌≢◌, refl, some, List, arith}
use azd_santa.Base.{
  string_eq, nat_eq, length, add, All, Distinct, All-add, Distinct-add, ◌==◌, if◌then◌else◌,
}
use azd_santa.Base.Int.{ℤ, ◌≤ℤ◌}
use azd_santa.Base.Dict.{lookup, insert, lookup-insert}
use azd_santa.Sync.Snapshot.{max_event_digests}
use azd_santa.Sync.State.{Session, State}
use azd_santa.Sync.Stages.{Inputs, acknowledged_of, new_session}
use azd_santa.Sync.Step.{Step, stay, begin, note, serve, finish}

-- The session of a device: its snapshot has rules, the offsets served are among them, each kept
-- once, and the device has acknowledged nothing newer.
pub record IsLive (acknowledged : ℤ) (x : Session) : Type 0 where
  pub has_rules : 0 < length x.snapshot.rules
  pub within : All (λ n. n < length x.snapshot.rules) x.served
  pub once : Distinct x.served
  pub not_stale : acknowledged ≤ℤ x.snapshot.revision

pub record IsValid (s : State) : Type 0 where
  pub live :
      (device : String) (x : Session)
      → lookup device s.sessions ≡ some x
      → IsLive (acknowledged_of device s) x
  pub bounded :
      (device : String) (digests : List String)
      → lookup device s.event_digests ≡ some digests
      → length digests ≤ max_event_digests

abbrev marked : Session → ℕ → Session
marked x n = record x { served = add n x.served }

abbrev closed : Session → Session
closed x = record x { acked = true }

pub acknowledged_of-insert :
    (e device : String) (r : ℤ) (s : State)
    → acknowledged_of e (record s { acknowledged = insert device r s.acknowledged })
      ≡ (if e == device then r else acknowledged_of e s)
acknowledged_of-insert e device r s = ground (arith, lookup-insert e device r s.acknowledged)

module _ {i : Inputs} {device : String} where
  Step-bounded :
      {s t : State}
      → Step i device s t
      → IsValid s
      → (e : String) (ds : List String) → lookup e t.event_digests ≡ some ds
      → length ds ≤ max_event_digests
  Step-bounded stay v e ds h = v.bounded e ds h
  Step-bounded (begin _ _) v e ds h = v.bounded e ds h
  Step-bounded {s} (note digests fits) v e ds h =
      ground (arith, lookup-insert e device digests s.event_digests, v.bounded e ds)
  Step-bounded (serve x n _ _ _) v e ds h = v.bounded e ds h
  Step-bounded (finish x _ _ _) v e ds h = v.bounded e ds h

  Step-IsLive :
      {s t : State}
      → Step i device s t
      → IsValid s
      → (e : String) (y : Session) → lookup e t.sessions ≡ some y
      → IsLive (acknowledged_of e t) y
  Step-IsLive stay v e y h = v.live e y h
  Step-IsLive {s} (begin some_rules newer) v e y h =
      ground (arith, lookup-insert e device (new_session i s.snapshot) s.sessions, v.live e y)
  Step-IsLive (note digests fits) v e y h = v.live e y h
  Step-IsLive {s} (serve x n found live fits) v e y h = elim (string_eq.dec e device) [
    | no other ↦ v.live e y (ground (arith, lookup-insert e device (marked x n) s.sessions))
    | yes same ↦
        let z : IsLive (acknowledged_of e s) x = v.live e x (rw same found) in
        let is : marked x n ≡ y = ground (arith, lookup-insert e device (marked x n) s.sessions) in
        rw (← is) (record {
          has_rules = z.has_rules;
          within = All-add (λ m. m < length x.snapshot.rules) n x.served fits z.within;
          once = Distinct-add n x.served z.once;
          not_stale = z.not_stale;
        })
  ]
  Step-IsLive {s} (finish x found live all) v e y h = elim (string_eq.dec e device) [
    | no other ↦
        let was : IsLive (acknowledged_of e s) y =
          v.live e y (ground (arith, lookup-insert e device (closed x) s.sessions)) in
        record {
          has_rules = was.has_rules;
          within = was.within;
          once = was.once;
          not_stale =
              ground (arith, acknowledged_of-insert e device x.snapshot.revision s, was.not_stale);
        }
    | yes same ↦
        let z : IsLive (acknowledged_of e s) x = v.live e x (rw same found) in
        let is : closed x ≡ y = ground (arith, lookup-insert e device (closed x) s.sessions) in
        rw (← is) (record {
          has_rules = z.has_rules;
          within = z.within;
          once = z.once;
          not_stale = ground (arith, acknowledged_of-insert e device x.snapshot.revision s);
        })
  ]

  pub Step-IsValid : {s t : State} → Step i device s t → IsValid s → IsValid t
  Step-IsValid step v = record { live = Step-IsLive step v; bounded = Step-bounded step v }

  -- what a device has acknowledged never falls
  pub Step-acknowledged :
      {s t : State}
      → Step i device s t
      → IsValid s
      → (e : String) → acknowledged_of e s ≤ℤ acknowledged_of e t
  Step-acknowledged stay v e = omega arith
  Step-acknowledged (begin _ _) v e = omega arith
  Step-acknowledged (note _ _) v e = omega arith
  Step-acknowledged (serve _ _ _ _ _) v e = omega arith
  Step-acknowledged {s} (finish x found _ _) v e = elim (string_eq.dec e device) [
    | no other ↦ ground (arith, acknowledged_of-insert e device x.snapshot.revision s)
    | yes same ↦
        let z : IsLive (acknowledged_of e s) x = v.live e x (rw same found) in
        ground (arith, acknowledged_of-insert e device x.snapshot.revision s, z.not_stale)
  ]

  -- a device's records change only by its own requests
  pub Step-elsewhere :
      {s t : State}
      → Step i device s t
      → (e : String) → e ≢ device
      → (lookup e t.sessions ≡ lookup e s.sessions)
        × (lookup e t.acknowledged ≡ lookup e s.acknowledged)
        × (lookup e t.event_digests ≡ lookup e s.event_digests)
  Step-elsewhere stay e other = (refl, refl, refl)
  Step-elsewhere {s} (begin _ _) e other =
      (ground (arith, lookup-insert e device (new_session i s.snapshot) s.sessions), refl, refl)
  Step-elsewhere {s} (note digests _) e other =
      (refl, refl, ground (arith, lookup-insert e device digests s.event_digests))
  Step-elsewhere {s} (serve x n _ _ _) e other =
      (ground (arith, lookup-insert e device (marked x n) s.sessions), refl, refl)
  Step-elsewhere {s} (finish x _ _ _) e other = (
    ground (arith, lookup-insert e device (closed x) s.sessions),
    ground (arith, lookup-insert e device x.snapshot.revision s.acknowledged),
    refl,
  )

  pub Step-constants :
      {s t : State}
      → Step i device s t
      → (t.snapshot ≡ s.snapshot) × (t.tokens ≡ s.tokens) × (t.key ≡ s.key) × (t.audit ≡ s.audit)
  Step-constants stay = (refl, refl, refl, refl)
  Step-constants (begin _ _) = (refl, refl, refl, refl)
  Step-constants (note _ _) = (refl, refl, refl, refl)
  Step-constants (serve _ _ _ _ _) = (refl, refl, refl, refl)
  Step-constants (finish _ _ _ _) = (refl, refl, refl, refl)

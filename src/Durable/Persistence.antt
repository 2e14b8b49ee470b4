-- ===== src/Durable/Persistence.antt =====
-- What the durable server has acknowledged is in the database, and a revocation stays.
use azd_santa.Base.{String, true, false, ◌≡◌, refl, subst, Option, some, arith}
use azd_santa.Base.{◌=?◌, string_eq, if_cases, inl, inr}
use azd_santa.Base.Int.{ℤ, int_eq}
use azd_santa.Json.{Fields}
use azd_santa.Platform.{Platform}
use azd_santa.Raise.{Exc, Result, ok, err, Result-cases}
use azd_santa.Sync.State.{State}
use azd_santa.Sync.Stages.{Reply, Inputs, empty_reply, acknowledged_of}
use azd_santa.Sync.Handle.{handle}
use azd_santa.Durable.Database.{Database, DatabaseLaws, revoked_of}
use azd_santa.Durable.Store.{device_state}
use azd_santa.Durable.Server.{
  is_handled, give_up, reported_to, persist, served, refreshed, durable_handle, revoked_to,
  durable_revoke,
}
use azd_santa.Durable.Reports.{device_state-row, report_fixture_effect, revoke_fixture_row}

module _ (D : Database) (laws : DatabaseLaws D) (device : String) where
  -- what an answer 200 promises
  unfoldable Kept : Result Reply × (State × D.Db) → Type 0
  Kept (err e, (s, d)) = Unit
  Kept (ok reply, (s, d)) =
      reply.status ≡ 200
      → (r : ℤ) × (D.device_row device d ≡ ok (some (r, acknowledged_of device s)))

  give_up-Kept : (e : Exc) (w : State × D.Db) → Kept (give_up D device e w)
  unfolding Kept
  give_up-Kept e w = if_cases Kept (is_handled e) (λ _ bad. absurd (omega arith)) (λ _. tt)

  persist-Kept :
      (previous s : State) (reply : Reply) (d : D.Db)
      → Kept (persist D device previous reply (s, d))
  unfolding Kept persist reported_to
  persist-Kept previous s reply d =
      elim (report_fixture_effect D device (acknowledged_of device s) d) [
        | inl (t, n, is, read, le, found, set) ↦
            let (named, (o, row, _, _)) = device_state-row D device d false n read in
            rw is (λ _. (revoked_of o, laws.row-set_reported device _ d t o row set))
        | inr (e, failed) ↦
            rw failed
              (if_cases Kept (is_handled e) (λ _ bad. absurd (omega arith)) (λ _. give_up-Kept e _))
      ]

  module _ (P : Platform) (i : Inputs) (body : Fields) where
    served-Kept : (s : State) (d : D.Db) → Kept (served D P i "postflight" device body (s, d))
    unfolding Kept string_eq served
    served-Kept s d = elim (Result-cases (handle P i "postflight" device body s).0) [
      | inr (e, raised) ↦ rw (raised, served) (give_up-Kept e _)
      | inl (reply, answered) ↦
          rw (answered, served)
            (if_cases Kept (reply.status =? 200) (λ _. persist-Kept s _ reply d)
              (λ other good. ground arith))
    ]

    refreshed-Kept :
        (n : ℤ) (s : State) (d : D.Db) → Kept (refreshed D P i "postflight" device body n (s, d))
    unfolding refreshed string_eq
    refreshed-Kept n s d = served-Kept _ d

    durable_handle-Kept :
        (w : State × D.Db) → Kept (durable_handle D P i "postflight" device body w)
    unfolding Kept durable_handle
    durable_handle-Kept w = elim (Result-cases (device_state D device w.1)) [
      | inr (e, failed) ↦ rw (failed, durable_handle) (give_up-Kept e w)
      | inl ((revoked, n), read) ↦
          rw (read, durable_handle)
            (if_cases Kept revoked (λ _ bad. absurd (omega arith)) (λ _. refreshed-Kept n w.0 w.1))
    ]

    -- Whenever a postflight is answered with 200, the revision that the server holds as
    -- acknowledged by the device is the one that the database has as its report.
    pub postflight_persisted :
        (w : State × D.Db) (reply : Reply) (s : State) (d : D.Db)
        → durable_handle D P i "postflight" device body w ≡ (ok reply, (s, d))
        → reply.status ≡ 200
        → (r : ℤ) × (D.device_row device d ≡ ok (some (r, acknowledged_of device s)))
    unfolding Kept
    postflight_persisted w reply s d h good = subst Kept h (durable_handle-Kept w) good

  refused_when_revoked :
      (P : Platform) (i : Inputs) (stage : String) (body : Fields) (s : State) (d : D.Db) (n : ℤ)
      → device_state D device d ≡ ok (true, n)
      → durable_handle D P i stage device body (s, d) ≡ (ok (empty_reply 403), (s, d))
  unfolding durable_handle
  refused_when_revoked P i stage body s d n read = rw (read, durable_handle) refl

  -- After a revocation that succeeded, every request of the device is answered with 403 and
  -- changes nothing, also by a server that was started anew on the database. The row of the device
  -- can be read before.
  pub revocation_lasts :
      (P : Platform) (i : Inputs) (stage : String) (body : Fields) (before after : State) (d : D.Db)
      → (o : Option (ℤ × ℤ)) → D.device_row device d ≡ ok o
      → (durable_revoke D device (before, d)).0 ≡ ok tt
      → let kept = (durable_revoke D device (before, d)).1.1 in
        durable_handle D P i stage device body (after, kept) ≡ (ok (empty_reply 403), (after, kept))
  unfolding durable_revoke revoked_to
  revocation_lasts P i stage body before after d o row h =
      elim (revoke_fixture_row D laws device d o row) [
        | inl (t, done, read) ↦ rw done (refused_when_revoked P i stage body after t _ read)
        | inr (e, failed) ↦ cc (rw failed at h)
      ]

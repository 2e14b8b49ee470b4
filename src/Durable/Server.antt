-- ===== src/Durable/Server.antt =====
-- `DurableModel` of tools/sync_spike/durable.py: the server of tools/sync_spike/model.py over a
-- database.
use azd_santa.Base.{String, Bool, true, false, ◌&&◌}
use azd_santa.Base.{◌==◌, ◌=?◌, string_eq, if◌then◌else◌}
use azd_santa.Base.Int.{ℤ}
use azd_santa.Base.Dict.{insert, erase}
use azd_santa.Json.{Fields}
use azd_santa.Platform.{Platform}
use azd_santa.Raise.{Exc, Result, ok, err, value_error, sqlite_error}
use azd_santa.Sync.State.{State, revoke_fixture_device}
use azd_santa.Sync.Stages.{Reply, Inputs, empty_reply, acknowledged_of}
use azd_santa.Sync.Handle.{handle}
use azd_santa.Durable.Database.{Database}
use azd_santa.Durable.Store.{device_state, snapshot, report_fixture, revoke_fixture}

-- `except (sqlite3.Error, ValueError)`
abbrev pub is_handled : Exc → Bool
is_handled value_error = true
is_handled sqlite_error = true
is_handled _ = false

-- `self.sessions.pop(device, None)`
abbrev pub drop_session : String → State → State
drop_session device s = record s { sessions = erase device s.sessions }

module _ (D : Database) where
  abbrev pub Durable : Type 0
  Durable = State × D.Db

  -- the outer handler
  abbrev pub give_up : String → Exc → Durable → Result Reply × Durable
  give_up device e w =
      if is_handled e then (ok (empty_reply 503), (drop_session device w.0, w.1)) else (err e, w)

  -- The end of `postflight`: what the server has acknowledged is written down, or taken back.
  -- `previous` is the server before the stage.
  unfoldable pub reported_to :
      String → State → Reply → State → Result (Unit {0}) × D.Db → Result Reply × Durable
  reported_to device previous reply s (ok _, t) = (ok reply, (s, t))
  reported_to device previous reply s (err e, t) =
      if is_handled e
      then (
        ok (empty_reply 503),
        (drop_session device (record s { acknowledged = previous.acknowledged }), t),
      )
      else give_up device e (s, t)

  unfoldable pub persist : String → State → Reply → Durable → Result Reply × Durable
  persist device previous reply w =
      reported_to device previous reply w.0
        (report_fixture D device (acknowledged_of device w.0) w.1)

  module _ (P : Platform) where
    -- `super().handle(...)` and what follows it
    unfoldable pub served : Inputs → String → String → Fields → Durable → Result Reply × Durable
    served i stage device body (s, d) =
        let o = handle P i stage device body s in
        elim o.0 [
          | err e ↦ give_up device e (o.1, d)
          | ok reply ↦
              if stage == "postflight" && reply.status =? 200
              then persist device s reply (o.1, d)
              else (ok reply, (o.1, d))
        ]

    -- with the record of the device and, in a preflight, the latest snapshot
    unfoldable pub refreshed :
        Inputs → String → String → Fields → ℤ → Durable → Result Reply × Durable
    refreshed i stage device body reported (s, d) =
        let t = record s { acknowledged = insert device reported s.acknowledged } in
        if stage == "preflight"
        then elim (snapshot D P d) [
          | err e ↦ give_up device e (t, d)
          | ok latest ↦ served i stage device body (record t { snapshot = latest }, d)
        ]
        else served i stage device body (t, d)

    -- `DurableModel.handle`
    unfoldable pub durable_handle :
        Inputs → String → String → Fields → Durable → Result Reply × Durable
    durable_handle i stage device body w = elim (device_state D device w.1) [
      | err e ↦ give_up device e w
      | ok (revoked, reported) ↦
          if revoked then (ok (empty_reply 403), w) else refreshed i stage device body reported w
    ]

  -- the commit comes before the change of the server
  unfoldable pub revoked_to :
      String → State → Result (Unit {0}) × D.Db → Result (Unit {0}) × Durable
  revoked_to device s (err e, t) = (err e, (s, t))
  revoked_to device s (ok _, t) = (ok tt, (revoke_fixture_device device s, t))

  -- `DurableModel.revoke_fixture_device`
  unfoldable pub durable_revoke : String → Durable → Result (Unit {0}) × Durable
  durable_revoke device w = revoked_to device w.0 (revoke_fixture D device w.1)

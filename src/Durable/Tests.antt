-- ===== src/Durable/Tests.antt =====
-- Runs over a concrete database, and the theorems at concrete data.
use azd_santa.Base.{String, true, false, ◌≡◌, ◌⊎◌, refl, none, some, [], ◌∷◌}
use azd_santa.Base.{◌==◌, string_eq, nat_eq, if◌then◌else◌, eq_self}
use azd_santa.Base.Int.{ℤ, int_eq, pos, ◌≤ℤ◌}
use azd_santa.Base.Dict.{Dict, lookup, insert, lookup-insert}
use azd_santa.Json.{Value, Fields, get_field}
use azd_santa.Json.{Syntax, Pairs, put_field, keys}
use azd_santa.Json.Hooks.{load, dict_onto}
use azd_santa.Sync.Cursor.{loads}
use azd_santa.Sync.Snapshot.{
  fixture, check_rules, check_rule, same_set, canonical, canonical_all, positive_int, truthy,
  max_bytes,
}
use azd_santa.Base.{ℕ, length, suc, ◌≤◌}
use azd_santa.Base.Int.{ltb_ℤ}
use azd_santa.Platform.{Bytes}
use azd_santa.Durable.Store.{publish_fixture, checked_row, load_rules, publish_body, history}
use azd_santa.Durable.Publishing.{publish_fixture_effect}
use azd_santa.Platform.{Platform}
use azd_santa.Raise.{Exc, ok, err}
use azd_santa.Sync.Snapshot.{Snapshot, is_text}
use azd_santa.Sync.State.{Session, State}
use azd_santa.Sync.Stages.{
  Inputs, empty_reply, acknowledged_of, postflight, is_count, served_all, covers,
}
use azd_santa.Sync.Handle.{handle, with_session}
use azd_santa.Sync.Client.{report}
use azd_santa.Durable.Database.{Database, DatabaseLaws, revoked_of, reported_of}
use azd_santa.Durable.Store.{
  device_id, transaction, device_state, report_body, report_fixture, revoke_body, revoke_fixture,
}
use azd_santa.Durable.Server.{
  durable_handle, refreshed, served, persist, reported_to, durable_revoke, revoked_to,
}
use azd_santa.Durable.Reports.{report_fixture_effect}
use azd_santa.Durable.Persistence.{postflight_persisted, revocation_lasts}

-- the devices; revision 3 is the one snapshot
abbrev Devices : Type 0
Devices = Dict String (ℤ × ℤ)

abbrev database : Database
database = record {
  Db = Devices;
  begin = λ d. ok tt;
  commit = λ d. ok tt;
  max_revision = λ d. ok (pos 3);
  count = λ d. ok 1;
  insert_snapshot = λ row d. ok d;
  latest = λ d. ok none;
  find_revision = λ n d. ok (if n == pos 3 then some tt else none);
  device_row = λ device d. ok (lookup device d);
  set_revoked = λ device d. ok (insert device (pos 1, reported_of (lookup device d)) d);
  set_reported = λ device n d. ok (insert device (revoked_of (lookup device d), n) d);
}

ok-injective {ℓ} : {A : Type ℓ} {a b : A} → ok a ≡ ok b → a ≡ b
ok-injective h = cc

lookup-inserted :
    (device : String) (row : ℤ × ℤ) (d : Devices) → lookup device (insert device row d) ≡ some row
lookup-inserted device row d = rw (lookup-insert device device row d) (rw (eq_self device) refl)

database_laws : DatabaseLaws database
database_laws = record {
  row-set_reported = λ device n d t o row set.
      rw (← ok-injective set, ← ok-injective row) (rw (lookup-inserted device _ d) refl);
  row-set_revoked = λ device d t o row set.
      rw (← ok-injective set, ← ok-injective row) (rw (lookup-inserted device _ d) refl);
}

abbrev platform : Platform
platform = record {
  dumps = λ v. none;
  parse = λ raw. none;
  sha256 = λ raw. "";
  hmac = λ key raw. [];
  b64encode = λ raw. "";
  b64decode = λ t. none;
  float_equals = λ bits n. false;
  inflate = λ wbits raw limit. none;
  utf8 = λ raw. none;
  parse_text = λ t. none;
  normalize = λ t. t;
  to_int = λ t. none;
}

abbrev rules : Snapshot
rules = record { revision = pos 3; rules = (1 ∷ []) ∷ []; approval = Value.str "ok" }

abbrev session : Session
session = record { id = "s"; snapshot = rules; expires = 100; served = 0 ∷ []; acked = false }

abbrev server : State
server = record {
  snapshot = rules;
  tokens = [];
  key = [];
  sessions = ("device-a", session) ∷ [];
  acknowledged = [];
  event_digests = [];
  audit = [];
}

abbrev inputs : Inputs
inputs = record { now = 10; later = 11; fresh_id = "t" }

abbrev after : State
after = record server {
  sessions = ("device-a", record session { acked = true }) ∷ [];
  acknowledged = ("device-a", pos 3) ∷ [];
}

abbrev reported : Devices
reported = ("device-a", (pos 0, pos 3)) ∷ []

ends :
    durable_handle database platform inputs "postflight" "device-a"
      (report "device-a" 1)
      (server, [])
    ≡ (ok (empty_reply 200), (after, reported))
unfolding durable_handle refreshed served persist reported_to handle with_session postflight
    is_count served_all covers is_text get_field device_state device_id report_fixture report_body
    transaction lookup insert string_eq nat_eq int_eq
ends = refl

postflight_persisted_example :
    (r : ℤ) × (database.device_row "device-a" reported
      ≡ ok (some (r, acknowledged_of "device-a" after)))
postflight_persisted_example =
    postflight_persisted database database_laws "device-a" platform inputs (report "device-a" 1)
      (server, []) (empty_reply 200) after reported ends refl

revokes : (durable_revoke database "device-a" (server, reported)).0 ≡ ok tt
unfolding durable_revoke revoked_to revoke_fixture revoke_body transaction device_id string_eq
revokes = refl

revocation_lasts_example :
    let kept = (durable_revoke database "device-a" (server, reported)).1.1 in
    durable_handle database platform inputs "preflight" "device-a" Fields.end (after, kept)
    ≡ (ok (empty_reply 403), (after, kept))
revocation_lasts_example =
    revocation_lasts database database_laws "device-a" platform inputs "preflight" Fields.end server
      after reported (lookup "device-a" reported) refl revokes

report_fixture_effect_example :
    ((t : Devices) × (n : ℤ) × (report_fixture database "device-a" (pos 3) reported ≡ (ok tt, t))
      × (device_state database "device-a" reported ≡ ok (false, n))
      × (n ≤ℤ pos 3)
      × (database.find_revision (pos 3) reported ≡ ok (some tt))
      × (database.set_reported "device-a" (pos 3) reported ≡ ok t))
    ⊎ ((e : Exc) × (report_fixture database "device-a" (pos 3) reported ≡ (err e, reported)))
report_fixture_effect_example = report_fixture_effect database "device-a" (pos 3) reported

-- a printer and a parser that know one rule
abbrev printing : Platform
printing = record platform {
  dumps = λ v. some (1 ∷ []);
  parse = λ raw. some (
      Syntax.obj (
        Pairs.pair "rule_type" (Syntax.str "BINARY") (
          Pairs.pair "identifier" (Syntax.str "x")
            (Pairs.pair "policy" (Syntax.str "BLOCKLIST") Pairs.end))));
}

abbrev newer : Snapshot
newer = record rules { revision = pos 4 }

published : (publish_fixture database printing newer []).0 ≡ ok tt
unfolding publish_fixture checked_row load_rules loads load dict_onto put_field fixture check_rules
    check_rule keys same_set is_text get_field canonical canonical_all positive_int truthy
    publish_body transaction string_eq int_eq
published = refl

publish_fixture_effect_example :
    ((t : Devices) × (m : ℤ) × (n : ℕ) × (payload : Bytes) × (publish_fixture database printing
          newer []
        ≡ (ok tt, t))
      × (database.max_revision [] ≡ ok m)
      × (ltb_ℤ m (pos 4) ≡ true)
      × (database.count [] ≡ ok n)
      × (suc n ≤ history)
      × (length payload ≤ max_bytes)
      × (database.insert_snapshot (pos 4, payload, "") [] ≡ ok t))
    ⊎ ((e : Exc) × (publish_fixture database printing newer [] ≡ (err e, [])))
publish_fixture_effect_example = publish_fixture_effect database printing newer []

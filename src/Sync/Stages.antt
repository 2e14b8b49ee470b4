-- ===== src/Sync/Stages.antt =====
-- The stages of `Model.handle` (tools/sync_spike/model.py) that call no library code.
use azd_santa.Base.{
  ℕ, zero, suc, ◌+◌, String, Bool, true, false, not, ◌&&◌, ◌||◌, Option, none, some, List, [],
}
use azd_santa.Base.{
  ◌==◌, ◌=?◌, string_eq, nat_eq, ltb, leb, length, any, contains, add, if◌then◌else◌,
}
use azd_santa.Base.Int.{ℤ, int_eq, pos, ltb_ℤ}
use azd_santa.Base.Dict.{lookup, insert}
use azd_santa.Base.Text.{is_hex, is_run}
use azd_santa.Json.{Value, Items, Fields, get_field, to_list}
use azd_santa.Raise.{Result, ok}
use azd_santa.Sync.Snapshot.{Snapshot, is_text, truthy, max_events}
use azd_santa.Sync.State.{Session, State, session_seconds}

-- A status and a body.
pub record Reply : Type 0 where
  pub status : ℕ
  pub body : Fields

abbrev pub empty_reply : ℕ → Reply
empty_reply n = record { status = n; body = Fields.end }

-- What a call reads from outside: the clock when it tests an expiry, the clock when it starts a
-- session, and the random session id.
pub record Inputs : Type 0 where
  pub now : ℕ
  pub later : ℕ
  pub fresh_id : String

abbrev pub Outcome : Type 0
Outcome = Result Reply × State

abbrev pub answer : ℕ → State → Outcome
answer n s = (ok (empty_reply n), s)

abbrev preflight_body : Fields
preflight_body = Fields.field "clientMode" (Value.str "MONITOR") (
    Fields.field "syncType" (Value.str "CLEAN")
      (Fields.field "batchSize" (Value.int (pos max_events)) Fields.end))

-- `self.acknowledged.get(device, 0)`
abbrev pub acknowledged_of : String → State → ℤ
acknowledged_of device s = elim (lookup device s.acknowledged) [ none ↦ pos 0 | some n ↦ n ]

-- no session, an expired one or an acknowledged one
unfoldable pub needs_session : Option Session → ℕ → Bool
needs_session none now = true
needs_session (some x) now = leb x.expires now || x.acked

abbrev pub new_session : Inputs → Snapshot → Session
new_session i snapshot = record {
  id = i.fresh_id;
  snapshot = snapshot;
  expires = i.later + session_seconds;
  served = [];
  acked = false;
}

-- `not snapshot.rules or not snapshot.approval`
abbrev pub lacks_approval : Snapshot → Bool
lacks_approval snapshot = length snapshot.rules =? 0 || not (truthy snapshot.approval)

-- `snapshot.revision < self.acknowledged.get(device, 0)`
abbrev pub regresses : String → State → Bool
regresses device s = ltb_ℤ s.snapshot.revision (acknowledged_of device s)

-- The `preflight` branch.
unfoldable pub preflight : Inputs → String → State → Outcome
preflight i device s =
    if lacks_approval s.snapshot
    then answer 503 s
    else if regresses device s
    then answer 409 s
    else if needs_session (lookup device s.sessions) i.now
    then (
      ok (record { status = 200; body = preflight_body }),
      record s { sessions = insert device (new_session i s.snapshot) s.sessions },
    )
    else (ok (record { status = 200; body = preflight_body }), s)

-- the test of one event of `eventupload`
unfoldable pub is_bad_event : Value → Bool
unfolding get_field is_text
is_bad_event (Value.obj fs) =
    not (elim (get_field "file_sha256" fs) [ some (Value.str h) ↦ is_run is_hex 64 h | _ ↦ false ])
    || not (
        is_text "BLOCK_BINARY" (get_field "decision" fs)
        || is_text "BLOCK_UNKNOWN" (get_field "decision" fs)
        || is_text "ALLOW_UNKNOWN" (get_field "decision" fs))
is_bad_event _ = true

-- the events of a request, if they are a list of 1 to 50 events of the accepted form
unfoldable pub accepted_events : Fields → Option (List Value)
unfolding get_field to_list is_bad_event
accepted_events body = elim (get_field "events" body) [
  | some (Value.arr vs) ↦
      let events = to_list vs in
      if ltb (length events) 1 || ltb max_events (length events) || any is_bad_event events
      then none
      else some events
  | _ ↦ none
]

abbrev pub page_body : Value → String → Fields
page_body rule c =
    Fields.field "rules" (Value.arr (Items.cons rule Items.nil))
      (Fields.field "cursor" (Value.str c) Fields.end)

abbrev pub mark_served : String → Session → ℕ → State → State
mark_served device session n s = record s {
  sessions = insert device (record session { served = add n session.served }) s.sessions;
}

-- `type(value) is int and value == count`
unfoldable pub is_count : ℕ → Option Value → Bool
is_count count (some (Value.int n)) = n == pos count
is_count count _ = false

-- `served == set(range(count))`
unfoldable pub covers : ℕ → List ℕ → Bool
covers zero served = true
covers (suc n) served = contains served n && covers n served

unfoldable pub served_all : ℕ → List ℕ → Bool
unfolding covers
served_all count served = covers count served && not (any (λ n. leb count n) served)

-- the test of `postflight`, as the code writes it
abbrev pub is_incomplete : Fields → Session → Bool
is_incomplete body session =
    not (is_count (length session.snapshot.rules) (get_field "rules_received" body))
    || not (is_count (length session.snapshot.rules) (get_field "rules_processed" body))
    || not (served_all (length session.snapshot.rules) session.served)
    || not (is_text "CLEAN" (get_field "syncType" body))

-- The `postflight` branch.
unfoldable pub postflight : String → Fields → Session → State → Outcome
postflight device body session s =
    if is_incomplete body session
    then answer 409 s
    else answer 200 (record s {
      acknowledged = insert device session.snapshot.revision s.acknowledged;
      sessions = insert device (record session { acked = true }) s.sessions;
    })

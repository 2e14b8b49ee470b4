-- ===== src/Sync/Tests.antt =====
-- Runs of the server over a concrete platform, and the theorems at concrete data.
use Prim.Native.Char.{code}
use native.Mathlib.Nat.{add-zero, add-suc, suc-add, zero-add}
use azd_santa.Base.{
  ℕ, zero, suc, ◌+◌, ◌≤◌, ◌<◌, String, false, ◌≡◌, ◌≢◌, refl, Option, none, some, List, [], ◌∷◌,
  arith,
}
use azd_santa.Base.{
  string_eq, nat_eq, bytes_eq, ◌==◌, ◌=?◌, length, replicate, length-replicate, add, union,
  if◌then◌else◌,
}
use azd_santa.Base.Int.{ℤ, int_eq, pos}
use azd_santa.Base.Dict.{lookup, insert}
use azd_santa.Base.Text.{codes}
use azd_santa.Json.{Value, Items, Fields, Syntax, Pairs, get_field, to_list}
use azd_santa.Json.Hooks.{load}
use azd_santa.Platform.{Platform, Bytes}
use azd_santa.Raise.{ok}
use azd_santa.Sync.Snapshot.{Snapshot, truthy, is_text, canonical}
use azd_santa.Sync.State.{Session, State}
use azd_santa.Sync.Cursor.{row, cursor, offset}
use azd_santa.Sync.Binding.{HasCursors, text_of, row_syntax}
use azd_santa.Sync.Cursor.{loads}
use azd_santa.Sync.Stages.{Reply, Inputs, empty_reply, needs_session, acknowledged_of}
use azd_santa.Sync.Handle.{handle}
use azd_santa.Sync.Client.{hello, report, download}
use azd_santa.Sync.FullSync.{sync_completes}
use text.Mathlib.TextEquality.{eq_iff}
use azd_santa.Json.Hooks.{unique_object}
use azd_santa.Base.{◌⊎◌}
use azd_santa.Sync.State.{revoke_fixture_device, rotate_fixture_device}
use azd_santa.Sync.Stages.{
  preflight, postflight, answer, accepted_events, is_bad_event, is_count, served_all, covers,
}
use azd_santa.Sync.Handle.{with_session, eventupload, upload_events, digests_of, record_digests}
use azd_santa.Sync.Client.{ask_page}
use azd_santa.Sync.Step.{Step, handle-Step}
use azd_santa.Sync.Invariant.{IsValid}
use azd_santa.Sync.Binding.{cursor-text_of, offset-cursor, cursor_binding}
use azd_santa.Sync.Guarantees.{
  Request, serve_all, serve_all-IsValid, handle-elsewhere, Earned, acknowledgement-Earned,
}
use azd_santa.Sync.Http.{
  Post, do_post, outcome, authorized, answered, finish_post, reply, route, bearer, checked_length,
  read_body, decode, expand,
}
use azd_santa.Sync.Access.{unaudited, ActsFor, do_post-ActsFor}
use azd_santa.Sync.Answers.{do_post_answers}
use azd_santa.Sync.Revocation.{
  Arrival, post_all, IsRevoked, SameRecords, revocation_final, rotation_exclusive,
}

-- base64 by runs: each byte as so many letters a and a letter b
letters : ℕ → String → String
letters zero s = String.◌∷◌ "b" s
letters (suc n) s = String.◌∷◌ "a" (letters n s)

runs : Bytes → String
runs [] = ""
runs (n ∷ ns) = letters n (runs ns)

push : ℕ → Option Bytes → Option Bytes
push n none = none
push n (some ns) = some (n ∷ ns)

read_runs : ℕ → String → Option Bytes
read_runs n String.[] = if n =? 0 then some [] else none
read_runs n (String.◌∷◌ c s) =
    let longer = read_runs (suc n) s in
    let ended = push n (read_runs 0 s) in if code c =? b'a' then longer else ended

read_runs-letters :
    (k n : ℕ) (s : String) → read_runs k (letters n s) ≡ push (k + n) (read_runs 0 s)
unfolding read_runs letters
read_runs-letters k zero s = rw add-zero
read_runs-letters k (suc n) s = rw (read_runs-letters (suc k) n s, suc-add, add-suc)

read_runs-runs : (b : Bytes) → read_runs 0 (runs b) ≡ some b
unfolding runs
read_runs-runs [] = unfold read_runs in refl
read_runs-runs (n ∷ ns) =
    rw (read_runs-letters 0 n (runs ns), read_runs-runs ns, zero-add) (unfold push in refl)

-- A text of three bytes is the body of a preflight, one of two a cursor's row, one of one a rule.
read_text : Bytes → Option Syntax
read_text (k ∷ []) = some (Syntax.int (pos k))
read_text (r ∷ n ∷ []) = some (row_syntax "device-a" "s1" (pos r) n)
read_text (_ ∷ _ ∷ _ ∷ []) =
    some (Syntax.obj (Pairs.pair "machine_id" (Syntax.str "device-a") Pairs.end))
read_text _ = none

write_row : List Value → Option Bytes
write_row (Value.str _ ∷ Value.str _ ∷ Value.int (pos r) ∷ Value.int (pos n) ∷ []) =
    some (r ∷ n ∷ [])
write_row _ = some []

write_value : Value → Option Bytes
unfolding write_row to_list
write_value (Value.arr vs) = write_row (to_list vs)
write_value v = some (8 ∷ [])

abbrev platform : Platform
platform = record {
  dumps = write_value;
  parse = read_text;
  sha256 = runs;
  hmac = λ key b. replicate 32 0;
  b64encode = runs;
  b64decode = read_runs 0;
  float_equals = λ bits n. false;
  inflate = λ wbits raw limit. none;
  utf8 = λ raw. some raw;
  parse_text = read_text;
  normalize = λ t. t;
  to_int = λ t. if t == "3" then some (pos 3) else none;
}

abbrev snapshot : Snapshot
snapshot = record { revision = pos 3; rules = (1 ∷ []) ∷ (2 ∷ []) ∷ []; approval = Value.str "ok" }

abbrev fresh : State
fresh = record {
  snapshot = snapshot;
  tokens = ("ta", "device-a") ∷ ("tb", "device-b") ∷ [];
  key = 5 ∷ [];
  sessions = [];
  acknowledged = [];
  event_digests = ("device-a", []) ∷ ("device-b", []) ∷ [];
  audit = [];
}

abbrev inputs : Inputs
inputs = record { now = 10; later = 11; fresh_id = "s1" }

-- the laws of cursors hold of the platform, for the session that `inputs` starts
cursors : HasCursors platform (5 ∷ []) "device-a" "s1" (pos 3)
unfolding write_value read_text row runs
cursors = record {
  payload = λ n. 3 ∷ n ∷ [];
  dumped = λ n. refl;
  parsed = λ n. refl;
  decoded = read_runs-runs;
  decoded_empty = read_runs-runs [];
  mac_size = λ b. length-replicate {A = ℕ} 32 0;
}

text_lengths : (n : ℕ) → n < 2 → length (codes (text_of platform (5 ∷ []) cursors n)) ≤ 512
unfolding cursors text_of runs letters
text_lengths zero h = omega arith
text_lengths (suc zero) h = omega arith
text_lengths (suc (suc n)) h = absurd (omega arith)

sync_completes_example :
    (t : State) × (download platform inputs "device-a" 2 ""
        (handle platform inputs "preflight" "device-a" (hello "device-a") fresh).1
      ≡ some (Value.int (pos 1) ∷ Value.int (pos 2) ∷ [], t))
    × (let u = handle platform inputs "postflight" "device-a" (report "device-a" 2) t in
        (u.0 ≡ ok (empty_reply 200)) × (acknowledged_of "device-a" u.1 ≡ pos 3))
unfolding loads read_text load truthy lookup needs_session string_eq
sync_completes_example =
    sync_completes platform inputs inputs "device-a" fresh cursors text_lengths
      (Value.int (pos 1) ∷ Value.int (pos 2) ∷ []) (refl, (refl, tt)) refl refl refl (omega arith)

fresh-IsValid : IsValid fresh
unfolding lookup
fresh-IsValid = record { live = λ device x h. cc; bounded = λ device digests h. ground arith }

abbrev requests : List Request
requests =
    record { inputs = inputs; stage = "preflight"; device = "device-a"; body = hello "device-a" }
    ∷ record {
      inputs = inputs;
      stage = "ruledownload";
      device = "device-a";
      body = ask_page "device-a" "";
    }
    ∷ record {
      inputs = inputs;
      stage = "postflight";
      device = "device-a";
      body = report "device-a" 2;
    }
    ∷ []

serve_all-IsValid_example : IsValid (serve_all platform requests fresh)
serve_all-IsValid_example = serve_all-IsValid platform requests fresh fresh-IsValid

-- a session that has been served both pages
abbrev served : Session
served = record { id = "s1"; snapshot = snapshot; expires = 99; served = 1 ∷ 0 ∷ []; acked = false }

abbrev reporting : State
reporting = record fresh { sessions = ("device-a", served) ∷ [] }

abbrev final_request : Request
final_request = record {
  inputs = inputs;
  stage = "postflight";
  device = "device-a";
  body = report "device-a" 2;
}

final_revision :
    acknowledged_of "device-a"
      (handle platform inputs "postflight" "device-a" (report "device-a" 2) reporting).1
    ≡ pos 3
unfolding handle with_session postflight get_field is_text is_count served_all covers lookup insert
    string_eq int_eq nat_eq
final_revision = refl

none_yet : acknowledged_of "device-a" reporting ≡ pos 0
unfolding lookup
none_yet = refl

acknowledgement-Earned_example :
    ◌≡◌ {A = String} "device-a" "device-a"
    × Earned inputs "device-a" reporting
        (handle platform inputs "postflight" "device-a" (report "device-a" 2) reporting).1
acknowledgement-Earned_example =
    acknowledgement-Earned platform final_request reporting "device-a"
      (λ e. ground (arith, final_revision, none_yet, e))

a_not_b : ◌≢◌ {A = String} "device-b" "device-a"
a_not_b = ground (arith, eq_iff "device-b" "device-a")

handle-elsewhere_example :
    let t = (handle platform inputs "postflight" "device-a" (report "device-a" 2) reporting).1 in
    (lookup "device-b" t.sessions ≡ lookup "device-b" reporting.sessions)
    × (lookup "device-b" t.acknowledged ≡ lookup "device-b" reporting.acknowledged)
    × (lookup "device-b" t.event_digests ≡ lookup "device-b" reporting.event_digests)
handle-elsewhere_example = handle-elsewhere platform final_request reporting "device-b" a_not_b

handle-Step_example :
    Step inputs "device-a" reporting
      (handle platform inputs "postflight" "device-a" (report "device-a" 2) reporting).1
handle-Step_example =
    handle-Step platform inputs "device-a" "postflight" (report "device-a" 2) reporting

made : cursor platform (5 ∷ []) "device-a" served 1 ≡ ok (text_of platform (5 ∷ []) cursors 1)
made = cursor-text_of platform (5 ∷ []) "device-a" served cursors 1

offset-cursor_example :
    offset platform (5 ∷ []) (Value.str (text_of platform (5 ∷ []) cursors 1)) "device-a" served
    ≡ ok 1
offset-cursor_example =
    offset-cursor platform (5 ∷ []) "device-a" served cursors 1 _ (omega arith) (omega arith) made
      (text_lengths 1 (omega arith))

cursor_binding_example :
    ◌≡◌ {A = String} "device-a" "device-a"
    × ◌≡◌ {A = String} "s1" "s1"
    × ◌≡◌ {A = ℤ} (pos 3) (pos 3)
    × ◌≡◌ {A = ℕ} 1 1
    × (1 ≤ 1)
    × (1 < 2)
cursor_binding_example =
    cursor_binding platform (5 ∷ []) "device-a" "device-a" served served cursors 1 1 _ made
      offset-cursor_example

abbrev post : Post
post = record {
  path = "/preflight/device-a";
  authorization = "Bearer ta" ∷ [];
  transfer_encoding = none;
  content_length = "3" ∷ [];
  content_type = some "application/json";
  content_encoding = none;
  stream = some (9 ∷ 9 ∷ 9 ∷ []);
}

post_accepted : (do_post platform inputs "r1" post fresh).0 ≡ some 200
unfolding write_value do_post outcome authorized answered finish_post reply route bearer
    checked_length read_body decode expand read_text load unique_object handle preflight truthy
    needs_session get_field is_text lookup insert string_eq
post_accepted = refl

do_post-ActsFor_example :
    (unaudited (do_post platform inputs "r1" post fresh).1 ≡ unaudited fresh)
    ⊎ ((device : String) × (t : State) × ActsFor platform inputs device post fresh t
        × (unaudited (do_post platform inputs "r1" post fresh).1 ≡ unaudited t))
do_post-ActsFor_example = do_post-ActsFor platform inputs "r1" post fresh

do_post_answers_example :
    (r : Reply) × ((outcome platform inputs post fresh).0 ≡ some r)
    × ((do_post platform inputs "r1" post fresh).0
        ≡ (elim (platform.dumps (Value.obj r.body)) [ none ↦ none | some raw ↦ some r.status ]))
do_post_answers_example = do_post_answers platform inputs "r1" post fresh

abbrev arrivals : List Arrival
arrivals = record { inputs = inputs; request_id = "r1"; post = post } ∷ []

revocation_final_example :
    let t = revoke_fixture_device "device-a" reporting in
    IsRevoked "device-a" (post_all platform arrivals t)
    × SameRecords "device-a" t (post_all platform arrivals t)
revocation_final_example = revocation_final platform "device-a" arrivals reporting

rotation_exclusive_example :
    let (drawn, t) = rotate_fixture_device "device-a" "tc" reporting in
    (lookup drawn t.tokens ≡ some "device-a")
    × (lookup "ta" t.tokens ≡ some "device-a" → "ta" ≡ drawn)
    × (lookup "device-a" t.sessions ≡ none)
rotation_exclusive_example = rotation_exclusive "device-a" "tc" "ta" reporting

abbrev upload : Fields
upload =
    Fields.field "events"
      (Value.arr (
        Items.cons
          (Value.obj (
            Fields.field "file_sha256"
              (Value.str "0000000000000000000000000000000000000000000000000000000000000000")
              (Fields.field "decision" (Value.str "BLOCK_UNKNOWN") Fields.end)))
          Items.nil))
      Fields.end

abbrev uploaded : State
uploaded = record fresh { event_digests = ("device-a", runs (8 ∷ []) ∷ []) ∷ ("device-b", []) ∷ [] }

first_upload : eventupload platform "device-a" upload fresh ≡ answer 200 uploaded
unfolding eventupload accepted_events get_field to_list is_bad_event is_text upload_events
    digests_of canonical write_value record_digests union add lookup insert string_eq
first_upload = refl

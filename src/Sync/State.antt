-- ===== src/Sync/State.antt =====
-- The attributes of `Model` (tools/sync_spike/model.py) and its credential operations. Time is in
-- nanoseconds of the monotonic clock.
use azd_santa.Base.{ℕ, String, Bool, List, [], ◌∷◌, ◌*◌, ◌==◌, string_eq, if◌then◌else◌}
use azd_santa.Base.Int.{ℤ}
use azd_santa.Base.Dict.{Dict, insert, erase}
use azd_santa.Platform.{Bytes}
use azd_santa.Sync.Snapshot.{Snapshot}

pub record Session : Type 0 where
  pub id : String
  pub snapshot : Snapshot
  pub expires : ℕ
  pub served : List ℕ
  pub acked : Bool

pub record State : Type 0 where
  pub snapshot : Snapshot
  pub tokens : Dict String String
  pub key : Bytes
  pub sessions : Dict String Session
  pub acknowledged : Dict String ℤ
  pub event_digests : Dict String (List String)
  -- newest last: request id and status
  pub audit : List (String × ℕ)

abbrev pub session_seconds : ℕ
session_seconds = 300 * 1_000_000_000

-- `Model(snapshot)`, given the random values that it draws
unfoldable pub init : Snapshot → String → String → Bytes → State
unfolding insert
init snapshot token_a token_b key = record {
  snapshot = snapshot;
  tokens = insert token_b "device-b" (insert token_a "device-a" []);
  key = key;
  sessions = [];
  acknowledged = [];
  event_digests = ("device-a", []) ∷ ("device-b", []) ∷ [];
  audit = [];
}

-- `{token: bound for token, bound in self.tokens.items() if bound != device}`
unfoldable pub without_device : String → Dict String String → Dict String String
without_device device [] = []
without_device device ((token, bound) ∷ rest) =
    let kept = without_device device rest in if bound == device then kept else (token, bound) ∷ kept

unfoldable pub revoke_fixture_device : String → State → State
unfolding without_device
revoke_fixture_device device s = record s {
  tokens = without_device device s.tokens;
  sessions = erase device s.sessions;
}

-- `token` is the random value drawn.
unfoldable pub rotate_fixture_device : String → String → State → String × State
unfolding revoke_fixture_device
rotate_fixture_device device token s =
    let t = revoke_fixture_device device s in
    (token, record t { tokens = insert token device t.tokens })

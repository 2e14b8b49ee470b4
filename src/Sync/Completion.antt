-- ===== src/Sync/Completion.antt =====
-- A client that follows the cursors gets every rule in order, and its report is accepted.
use azd_santa.Base.{
  ℕ, zero, suc, ◌≤◌, ◌<◌, ◌+◌, String, true, false, ◌≡◌, refl, some, List, [], ◌∷◌, arith,
}
use azd_santa.Base.{
  any, string_eq, nat_eq, ◌==◌, length, leb, eq_self, contains, add, All, All-add, contains-add,
  drop, drop-cons,
}
use azd_santa.Base.Int.{ℤ, int_eq, pos}
use azd_santa.Base.Dict.{lookup, insert, lookup-insert}
use azd_santa.Base.Text.{codes}
use azd_santa.Json.{Value, get_field}
use azd_santa.Platform.{Platform, Bytes}
use azd_santa.Sync.Snapshot.{is_text}
use azd_santa.Sync.State.{Session, State}
use azd_santa.Sync.Stages.{Inputs, is_count, answer, mark_served, covers, served_all, postflight}
use azd_santa.Sync.Binding.{HasCursors, text_of, text_of-ne-empty}
use azd_santa.Sync.Client.{report, download, download-last, download-more}
use azd_santa.Sync.Paging.{postflight_names, text_self, Reads, cursor_at, cursor_after, page}

-- The session `x` after the offsets from `n` on have been served: nothing but `served` differs.
pub record Served (device : String) (key : Bytes) (x : Session) (n : ℕ) (t : State) : Type 0 where
  pub same_key : t.key ≡ key
  pub offsets : List ℕ
  pub there : lookup device t.sessions ≡ some (record x { served = offsets })
  pub kept : (m : ℕ) → contains x.served m ≡ true → contains offsets m ≡ true
  pub marked : (m : ℕ) → n ≤ m → m < length x.snapshot.rules → contains offsets m ≡ true
  pub within :
      All (λ m. m < length x.snapshot.rules) x.served
      → All (λ m. m < length x.snapshot.rules) offsets

module _ (P : Platform) (i : Inputs) (device : String) (key : Bytes) where
  module _ {id : String} {revision : ℤ} (h : HasCursors P key device id revision) where
    cursor_after-last : (n count : ℕ) → count ≤ n + 1 → cursor_after P key h count n ≡ ""
    unfolding cursor_after
    cursor_after-last n count last = ground arith

    cursor_after-more :
        (n count : ℕ) → n + 1 < count → cursor_after P key h count n ≡ cursor_at P key h (suc n)
    unfolding cursor_after
    cursor_after-more n count more = ground arith

    cursor_at-test : (n : ℕ) → (cursor_at P key h (suc n) == "") ≡ false
    unfolding cursor_at
    cursor_at-test n = ground (arith, text_of-ne-empty P key h (suc n))

  abbrev mark : Session → ℕ → Session
  mark x n = record x { served = add n x.served }

  Served-one :
      (x : Session) (n : ℕ) (s : State)
      → s.key ≡ key
      → length x.snapshot.rules ≡ n + 1
      → Served device key x n (mark_served device x n s)
  Served-one x n s same count = record {
    same_key = same;
    offsets = add n x.served;
    there = ground (arith, lookup-insert device device (mark x n) s.sessions);
    kept = λ m had. ground (arith, contains-add n m x.served);
    marked = λ m low high. ground (arith, contains-add n m x.served);
    within = λ old. All-add (λ m. m < length x.snapshot.rules) n x.served (omega arith) old;
  }

  Served-more :
      (x : Session) (n : ℕ) (t : State)
      → n < length x.snapshot.rules
      → Served device key (mark x n) (suc n) t
      → Served device key x n t
  Served-more x n t fits d = record {
    same_key = d.same_key;
    offsets = d.offsets;
    there = d.there;
    kept = λ m had. d.kept m (ground (arith, contains-add n m x.served));
    marked = λ m low high. elim (nat_eq.dec m n) [
      | yes e ↦ d.kept m (ground (arith, contains-add n m x.served))
      | no ne ↦ d.marked m (omega arith) high
    ];
    within = λ old. d.within (All-add (λ m. m < length x.snapshot.rules) n x.served fits old);
  }

  module _ (x : Session) (h : HasCursors P key device x.id x.snapshot.revision)
      (short : (n : ℕ) → n < length x.snapshot.rules → length (codes (text_of P key h n)) ≤ 512)
      (live : i.now < x.expires) where
    -- The pages from offset `n` on are the rules from there on, in order.
    pub download_from :
        (vs : List Value) (v : Value) (raws : List Bytes) (raw : Bytes) (n : ℕ) (sv : List ℕ)
        (s : State)
        → Reads P (raw ∷ raws) (v ∷ vs)
        → drop n x.snapshot.rules ≡ raw ∷ raws
        → s.key ≡ key
        → lookup device s.sessions ≡ some (record x { served = sv })
        → (t : State) × (download P i device (suc (length vs)) (cursor_at P key h n) s
            ≡ some (v ∷ vs, t))
          × Served device key (record x { served = sv }) n t
    download_from [] v [] raw n sv s reads at same found =
        let y : Session = record x { served = sv } in
        let (there, _, count) = drop-cons x.snapshot.rules n at in
        let last : cursor_after P key h (length x.snapshot.rules) n ≡ "" =
          cursor_after-last h n (length x.snapshot.rules) (omega arith) in
        (
          mark_served device y n s,
          download-last P i device 0 (cursor_at P key h n) s v _ _
              (page P i device y key h short n s raw v same found live there reads.0)
              (rw last (eq_self {A = String} "")),
          Served-one y n s same (omega arith),
        )
    download_from [] v (b ∷ raws) raw n sv s reads at same found = absurd reads.1
    download_from (w ∷ vs) v [] raw n sv s reads at same found = absurd reads.1
    download_from (w ∷ vs) v (b ∷ raws) raw n sv s reads at same found =
        let y : Session = record x { served = sv } in
        let (there, rest, count) = drop-cons x.snapshot.rules n at in
        let more : cursor_after P key h (length x.snapshot.rules) n ≡ cursor_at P key h (suc n) =
          cursor_after-more h n (length x.snapshot.rules) (omega arith) in
        let (t, run, served) =
          download_from vs w raws b (suc n) (add n sv) (mark_served device y n s) reads.1 rest same
            (ground (arith, lookup-insert device device (mark y n) s.sessions)) in
        (
          t,
          download-more P i device (suc (length vs)) (cursor_at P key h n) s v _ _
              (page P i device y key h short n s raw v same found live there reads.0) (w ∷ vs) t
              (rw more (cursor_at-test h n)) (rw more run),
          Served-more y n t (omega arith) served,
        )

covers-marked :
    (k : ℕ) (offsets : List ℕ)
    → ((m : ℕ) → m < k → contains offsets m ≡ true)
    → covers k offsets ≡ true
unfolding covers
covers-marked zero offsets h = refl
covers-marked (suc k) offsets h =
    rw (h k (omega arith), covers-marked k offsets (λ m low. h m (omega arith)))

none_beyond :
    (k : ℕ) (offsets : List ℕ) → All (λ m. m < k) offsets → any (λ m. leb k m) offsets ≡ false
none_beyond k [] h = refl
none_beyond k (m ∷ offsets) h = ground (arith, none_beyond k offsets h.1)

pub served_all_complete :
    (k : ℕ) (offsets : List ℕ)
    → ((m : ℕ) → m < k → contains offsets m ≡ true)
    → All (λ m. m < k) offsets
    → served_all k offsets ≡ true
unfolding served_all
served_all_complete k offsets all_marked within =
    rw (covers-marked k offsets all_marked, none_beyond k offsets within)

-- the counts and the sync type of a client's report
pub postflight-report :
    (device : String) (x : Session) (s : State)
    → served_all (length x.snapshot.rules) x.served ≡ true
    → postflight device (report device (length x.snapshot.rules)) x s
      ≡ answer 200 (record s {
        acknowledged = insert device x.snapshot.revision s.acknowledged;
        sessions = insert device (record x { acked = true }) s.sessions;
      })
unfolding postflight get_field is_text is_count
postflight-report device x s h =
    let names = postflight_names in
    rw (
      names.3,
      names.4,
      names.5,
      names.6,
      names.7,
      names.8,
      text_self "rules_received",
      text_self "rules_processed",
      text_self "syncType",
      text_self "CLEAN",
      eq_self (pos (length x.snapshot.rules)),
      h,
    )

-- ===== src/Sync/Paging.antt =====
-- Following the cursors yields every rule, in order, and lets the client finish.
use azd_santa.Base.{
  ℕ, zero, suc, ◌≤◌, ◌<◌, ◌+◌, String, true, false, ◌≡◌, refl, some, List, [], ◌∷◌, arith,
}
use native.Mathlib.Numerals.{add-one}
use azd_santa.Base.{
  get_elem?-lt, string_eq, nat_eq, ◌==◌, length, ltb, leb, eq_self, get_elem?, if◌then◌else◌,
}
use azd_santa.Base.Int.{ℤ, int_eq}
use azd_santa.Base.Dict.{lookup}
use azd_santa.Base.Text.{codes}
use azd_santa.Json.{Value, Fields, get_field}
use azd_santa.Platform.{Platform, Bytes}
use azd_santa.Raise.{ok}
use azd_santa.Sync.Snapshot.{is_text}
use azd_santa.Sync.State.{Session, State}
use azd_santa.Sync.Stages.{Inputs, page_body, mark_served, postflight}
use azd_santa.Sync.Cursor.{offset, loads}
use azd_santa.Sync.Binding.{HasCursors, text_of, cursor-text_of, text_of-ne-empty, offset-cursor}
use azd_santa.Sync.Handle.{
  as_request, requested_offset, next_cursor, serve_page, ruledownload, with_session, handle,
}
use azd_santa.Sync.Client.{ask_page, report}

-- every rule of the snapshot parses, to the value beside it
abbrev pub Reads : Platform → List Bytes → List Value → Type 0
Reads P [] [] = Unit
Reads P (b ∷ bs) (v ∷ vs) = (loads P b ≡ ok v) × Reads P bs vs
Reads P _ _ = ⊥

abbrev pub Differ : String → String → Type 0
Differ a b = (a == b) ≡ false

ruledownload_names :
    Differ "ruledownload" "preflight"
    × Differ "ruledownload" "eventupload"
    × Differ "cursor" "machine_id"
unfolding string_eq
ruledownload_names = (refl, refl, refl)

pub postflight_names :
    Differ "postflight" "preflight"
    × Differ "postflight" "eventupload"
    × Differ "postflight" "ruledownload"
    × Differ "rules_received" "machine_id"
    × Differ "rules_processed" "machine_id"
    × Differ "rules_processed" "rules_received"
    × Differ "syncType" "machine_id"
    × Differ "syncType" "rules_received"
    × Differ "syncType" "rules_processed"
unfolding string_eq
postflight_names = (refl, refl, refl, refl, refl, refl, refl, refl, refl)

pub text_self : (t : String) → (t == t) ≡ true
text_self t = eq_self t

get_field-second :
    (k j : String) (v w : Value)
    → Differ k j
    → get_field k (Fields.field j v (Fields.field k w Fields.end)) ≡ some w
unfolding get_field
get_field-second k j v w h = rw (h, text_self k)

module _ (P : Platform) (key : Bytes) {device id : String} {revision : ℤ}
    (h : HasCursors P key device id revision) where
  -- the cursor that a client holds before the page of an offset
  unfoldable pub cursor_at : ℕ → String
  cursor_at zero = ""
  cursor_at (suc n) = text_of P key h (suc n)

  -- the cursor that the answer with a page carries, of so many
  unfoldable pub cursor_after : ℕ → ℕ → String
  cursor_after count n = if ltb (n + 1) count then cursor_at (suc n) else ""

module _ (P : Platform) (i : Inputs) (device : String) where
  dispatch_ruledownload :
      (c : String) (s : State) (x : Session)
      → lookup device s.sessions ≡ some x
      → i.now < x.expires
      → handle P i "ruledownload" device (ask_page device c) s
        ≡ ruledownload P device (ask_page device c) x s
  unfolding handle with_session is_text get_field
  dispatch_ruledownload c s x found live =
      let names = ruledownload_names in
      let alive : leb x.expires i.now ≡ false = ground arith in
      rw (
        text_self "machine_id",
        eq_self device,
        names.0,
        found,
        alive,
        names.1,
        text_self "ruledownload",
      )

  pub dispatch_postflight :
      (n : ℕ) (s : State) (x : Session)
      → lookup device s.sessions ≡ some x
      → i.now < x.expires
      → handle P i "postflight" device (report device n) s ≡ postflight device (report device n) x s
  unfolding handle with_session is_text get_field
  dispatch_postflight n s x found live =
      let names = postflight_names in
      let alive : leb x.expires i.now ≡ false = ground arith in
      rw (
        text_self "machine_id",
        eq_self device,
        names.0,
        found,
        alive,
        names.1,
        names.2,
        text_self "postflight",
      )

  requested_offset-cursor :
      (key : Bytes) (c : String) (x : Session)
      → requested_offset P key (ask_page device c) device x
        ≡ (if c == "" then ok (some 0) else as_request (offset P key (Value.str c) device x))
  unfolding requested_offset
  requested_offset-cursor key c x =
      let asked : get_field "cursor" (ask_page device c) ≡ some (Value.str c) =
        get_field-second "cursor" "machine_id" _ _ ruledownload_names.2 in
      rw (asked, requested_offset)

  module _ (x : Session) (key : Bytes) (h : HasCursors P key device x.id x.snapshot.revision)
      (short : (n : ℕ)
        → n < length x.snapshot.rules
        → length (codes (text_of P key h n)) ≤ 512) where
    text_of-test : (n : ℕ) → (text_of P key h n == "") ≡ false
    text_of-test n = ground (arith, text_of-ne-empty P key h n)

    requested_offset-cursor_at :
        (n : ℕ)
        → n < length x.snapshot.rules
        → requested_offset P key (ask_page device (cursor_at P key h n)) device x ≡ ok (some n)
    unfolding cursor_at
    requested_offset-cursor_at zero fits = rw (requested_offset-cursor, text_self "")
    requested_offset-cursor_at (suc n) fits = rw (
      requested_offset-cursor,
      text_of-test (suc n),
      offset-cursor P key device x h (suc n) _ (omega arith) fits
          (cursor-text_of P key device x h (suc n)) (short (suc n) fits),
    )

    next_cursor-cursor_after :
        (n : ℕ)
        → next_cursor P key device x n ≡ ok (cursor_after P key h (length x.snapshot.rules) n)
    unfolding next_cursor cursor_after cursor_at
    next_cursor-cursor_after n =
        rw add-one (ground (arith, cursor-text_of P key device x h (suc n)))

    -- One page: the rule at the offset, the next cursor, and the offset marked.
    pub page :
        (n : ℕ) (s : State) (raw : Bytes) (v : Value)
        → s.key ≡ key
        → lookup device s.sessions ≡ some x
        → i.now < x.expires
        → get_elem? x.snapshot.rules n ≡ some raw
        → loads P raw ≡ ok v
        → handle P i "ruledownload" device (ask_page device (cursor_at P key h n)) s ≡ (
          ok (record {
            status = 200;
            body = page_body v (cursor_after P key h (length x.snapshot.rules) n);
          }),
          mark_served device x n s,
        )
    unfolding ruledownload serve_page
    page n s raw v same found live there read =
        let asked : requested_offset P s.key (ask_page device (cursor_at P key h n)) device x
            ≡ ok (some n) =
          rw same (requested_offset-cursor_at n (get_elem?-lt x.snapshot.rules n there)) in
        let given : next_cursor P s.key device x n
            ≡ ok (cursor_after P key h (length x.snapshot.rules) n) =
          rw same (next_cursor-cursor_after n) in
        rw (
          dispatch_ruledownload (cursor_at P key h n) s x found live,
          asked,
          there,
          read,
          given,
          ruledownload,
          serve_page,
        )

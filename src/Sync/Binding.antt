-- ===== src/Sync/Binding.antt =====
-- Cursors: what `offset` accepts of what `cursor` makes, and of anything else.
use azd_santa.Base.{ap, ◌&&◌, ℕ, ◌≤◌, ◌<◌, String, false, ◌≡◌, ◌≢◌, refl, some, [], ◌++◌, arith}
use azd_santa.Base.{string_eq, bytes_eq, ◌==◌, length, ltb, not, eq_self}
use azd_santa.Base.{take-append_suffix, drop-append_suffix, length-append}
use azd_santa.Base.Int.{ℤ, int_eq, pos}
use azd_santa.Base.Text.{codes}
use azd_santa.Json.{Value, Syntax, Elements}
use azd_santa.Json.Hooks.{load}
use azd_santa.Platform.{Platform, Bytes}
use azd_santa.Raise.{ok, value_error, ◌>>◌, raise_if, or_raise}
use azd_santa.Sync.Snapshot.{canonical}
use azd_santa.Sync.State.{Session}
use azd_santa.Sync.Cursor.{
  row, cursor, offset, verified, loads, check_values, names_session, in_range, as_value_error,
  equals_int,
}

-- the text of a row, as the parser reads it
abbrev pub row_syntax : String → String → ℤ → ℕ → Syntax
row_syntax device id revision n = Syntax.arr (
    Elements.cons (Syntax.str device) (
      Elements.cons (Syntax.str id)
        (Elements.cons (Syntax.int revision) (Elements.cons (Syntax.int (pos n)) Elements.nil))))

-- What the program relies on of the library, for the cursors of one session: a row is written and
-- read back, base64 is decoded to what was encoded, and a digest has 32 bytes.
pub record HasCursors (P : Platform) (key : Bytes) (device id : String) (revision : ℤ)
    : Type 0 where
  pub payload : ℕ → Bytes
  pub dumped : (n : ℕ) → P.dumps (row device id revision n) ≡ some (payload n)
  pub parsed : (n : ℕ) → P.parse (payload n) ≡ some (row_syntax device id revision n)
  pub decoded : (b : Bytes) → P.b64decode (P.b64encode b) ≡ some b
  pub decoded_empty : P.b64decode "" ≡ some []
  pub mac_size : (b : Bytes) → length (P.hmac key b) ≡ 32

module _ (P : Platform) (key : Bytes) where
  -- The cursor, as the call returns it.
  unfoldable pub text_of :
      {device id : String} {revision : ℤ} → HasCursors P key device id revision → ℕ → String
  text_of h n = P.b64encode (h.payload n ++ P.hmac key (h.payload n))

  pub cursor-text_of :
      (device : String) (x : Session) (h : HasCursors P key device x.id x.snapshot.revision) (n : ℕ)
      → cursor P key device x n ≡ ok (text_of h n)
  unfolding cursor canonical text_of
  cursor-text_of device x h n = rw h.dumped

  pub text_of-ne-empty :
      {device id : String} {revision : ℤ} (h : HasCursors P key device id revision) (n : ℕ)
      → text_of h n ≢ ""
  unfolding text_of
  text_of-ne-empty h n e =
      let payload : Bytes = h.payload n in
      let nothing : payload ++ P.hmac key payload ≡ [] =
        cc (h.decoded_empty, e, h.decoded (payload ++ P.hmac key payload)) in
      omega
        (arith, ap length nothing, length-append payload (P.hmac key payload), h.mac_size payload)

  verified-mac :
      (b : Bytes) → length (P.hmac key b) ≡ 32 → verified P key (b ++ P.hmac key b) ≡ ok b
  unfolding verified
  verified-mac b h =
      rw (
        take-append_suffix b (P.hmac key b) 32 h,
        drop-append_suffix b (P.hmac key b) 32 h,
        eq_self,
      )

  module _ {device' id' : String} {revision' : ℤ} (h : HasCursors P key device' id' revision')
      (n : ℕ) where
    decoded-text_of : P.b64decode (text_of h n) ≡ some (h.payload n ++ P.hmac key (h.payload n))
    unfolding text_of
    decoded-text_of = h.decoded _

    loads-payload : loads P (h.payload n) ≡ ok (row device' id' revision' n)
    unfolding loads load row
    loads-payload = rw h.parsed

    -- `offset` reads the row of the cursor, whosoever it is, and checks it for the session at hand.
    offset-text_of :
        length (codes (text_of h n)) ≤ 512
        → (device : String) (x : Session)
        → offset P key (Value.str (text_of h n)) device x
          ≡ as_value_error (check_values P (row device' id' revision' n) device x)
    unfolding offset
    offset-text_of short device x =
        let fits : ltb 512 (length (codes (text_of h n))) ≡ false = ground arith in
        rw (fits, decoded-text_of, verified-mac (h.payload n) (h.mac_size _), loads-payload)

  check_values-row :
      (device device' id' : String) (x : Session) (revision' : ℤ) (n : ℕ)
      → check_values P (row device' id' revision' n) device x ≡ (
          raise_if
            (not (device' == device && id' == x.id && revision' == x.snapshot.revision))
            value_error
          >> or_raise (in_range (length x.snapshot.rules) (Value.int (pos n))) value_error)
  unfolding check_values names_session equals_int row
  check_values-row device device' id' x revision' n = refl

  check_values-own :
      (device : String) (x : Session) (n : ℕ)
      → 1 ≤ n
      → n < length x.snapshot.rules
      → check_values P (row device x.id x.snapshot.revision n) device x ≡ ok n
  unfolding in_range
  check_values-own device x n low high =
      rw (check_values-row, eq_self device, eq_self x.id, eq_self x.snapshot.revision)
        (ground arith)

  check_values-other :
      (device device' id' : String) (x : Session) (revision' : ℤ) (n m : ℕ)
      → as_value_error (check_values P (row device' id' revision' n) device x) ≡ ok m
      → (device' ≡ device)
        × (id' ≡ x.id)
        × (revision' ≡ x.snapshot.revision)
        × (m ≡ n)
        × (1 ≤ m)
        × (m < length x.snapshot.rules)
  unfolding in_range
  check_values-other device device' id' x revision' n m read =
      ground (arith, check_values-row device device' id' x revision' n)

  offset-short :
      (c : String) (device : String) (x : Session) (m : ℕ)
      → offset P key (Value.str c) device x ≡ ok m
      → length (codes c) ≤ 512
  unfolding offset
  offset-short c device x m read = ground arith

  -- A cursor of a session, for an offset past the first rule, is read back as that offset.
  pub offset-cursor :
      (device : String) (x : Session) (h : HasCursors P key device x.id x.snapshot.revision) (n : ℕ)
      (c : String)
      → 1 ≤ n
      → n < length x.snapshot.rules
      → cursor P key device x n ≡ ok c
      → length (codes c) ≤ 512
      → offset P key (Value.str c) device x ≡ ok n
  offset-cursor device x h n c low high made short =
      let is : text_of h n ≡ c = cc (made, cursor-text_of device x h n) in
      rw (← is)
        (rw (offset-text_of h n (rw is short) device x, check_values-own device x n low high))

  -- A cursor that was made for one session is accepted for another only if device, session id and
  -- revision are the same, and then it stands for the offset that it was made for.
  pub cursor_binding :
      (device device' : String) (x x' : Session)
      (h : HasCursors P key device' x'.id x'.snapshot.revision) (n m : ℕ) (c : String)
      → cursor P key device' x' n ≡ ok c
      → offset P key (Value.str c) device x ≡ ok m
      → (device' ≡ device)
        × (x'.id ≡ x.id)
        × (x'.snapshot.revision ≡ x.snapshot.revision)
        × (m ≡ n)
        × (1 ≤ m)
        × (m < length x.snapshot.rules)
  cursor_binding device device' x x' h n m c made read =
      let is : text_of h n ≡ c = cc (made, cursor-text_of device' x' h n) in
      let short : length (codes (text_of h n)) ≤ 512 = rw is (offset-short c device x m read) in
      check_values-other device device' x'.id x x'.snapshot.revision n m
        (cc (is, read, offset-text_of h n short device x))

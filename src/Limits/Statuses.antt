-- ===== src/Limits/Statuses.antt =====
-- The statuses of a rejected request and their causes.
use azd_santa.Base.{
  ℕ, ◌+◌, ◌<◌, String, Bool, true, false, ◌≡◌, ◌⊎◌, inl, inr, refl, Option, none, some, List, [],
  ◌∷◌, subst, arith,
}
use azd_santa.Base.{not, ◌||◌, ltb, length, take, ◌==◌, string_eq, if_cases, if◌then◌else◌}
use azd_santa.Base.Text.{codes, decimal}
use azd_santa.Json.{Value, Fields, Syntax, get_field}
use azd_santa.Json.Hooks.{bounded, load}
use azd_santa.Limits.Depth.{check_depth}
use azd_santa.Platform.{Platform, Bytes, Inflated}
use azd_santa.Limits.Config.{Limits, is_decimal}
use azd_santa.Limits.Decode.{
  Verdict, accept, reject, ◌>>=◌, ◌>>◌, reject_if, or_reject, collection, count_events, Request,
  event_collections, as_object, or_empty, check_length, expand, parse_body, decode_bytes,
  decode_request,
}
use azd_santa.Limits.Bounds.{IsExpanded, expand-accept, total, AreLists, count_events-total}

-- a rejection has a status that a predicate explains
unfoldable Rejects {ℓ} : (ℕ → Type 0) → {A : Type ℓ} → Verdict A → Type 0
Rejects R (accept a) = Unit
Rejects R (reject status detail) = R status

module _ (R : ℕ → Type 0) where
  accepts {ℓ} : {A : Type ℓ} (a : A) → Rejects R (accept a)
  unfolding Rejects
  accepts a = tt

  after {ℓ κ} :
      {A : Type ℓ} {B : Type κ} (v : Verdict A) (f : A → Verdict B)
      → Rejects R v
      → ((a : A) → v ≡ accept a → Rejects R (f a))
      → Rejects R (v >>= f)
  unfolding Rejects
  after (accept a) f hv hf = hf a refl
  after (reject status detail) f hv hf = hv

  after_test {κ} :
      {B : Type κ} (b : Bool) (status : ℕ) (detail : String) (rest : Verdict B)
      → (b ≡ true → R status)
      → (b ≡ false → Rejects R rest)
      → Rejects R (reject_if b status detail >> rest)
  unfolding Rejects
  after_test true status detail rest h k = h refl
  after_test false status detail rest h k = k refl

  after_read {ℓ κ} :
      {A : Type ℓ} {B : Type κ} (o : Option A) (status : ℕ) (detail : String) (f : A → Verdict B)
      → (o ≡ none → R status)
      → ((a : A) → o ≡ some a → Rejects R (f a))
      → Rejects R (or_reject o status detail >>= f)
  unfolding Rejects
  after_read none status detail f h k = h refl
  after_read (some a) status detail f h k = k a refl

  read_last {ℓ} :
      {A : Type ℓ} (o : Option A) (status : ℕ) (detail : String)
      → (o ≡ none → R status)
      → Rejects R (or_reject o status detail)
  unfolding Rejects
  read_last none status detail h = h refl
  read_last (some a) status detail h = tt

ltb-true : (a b : ℕ) → ltb a b ≡ true → a < b
ltb-true a b h = ground arith

over : (n t m : ℕ) → n ≡ 0 + t → ltb m n ≡ true → m < t
over n t m is h = ground arith

or-cases : (a b : Bool) → (a || b) ≡ true → (a ≡ true) ⊎ (b ≡ true)
or-cases true b h = inl refl
or-cases false b h = inr h

not-false : (b : Bool) → not b ≡ true → b ≡ false
not-false true h = cc
not-false false h = refl

module _ (P : Platform) (limits : Limits) (request : Request) where
  -- the part of the body that is read, and its encoding
  abbrev pub body : Bytes
  body = take (limits.compressed + 1) request.stream

  abbrev pub coding : String
  coding = P.normalize (or_empty request.content_encoding)

  abbrev pub is_compressed : Bool
  is_compressed = coding == "deflate" || coding == "zlib" || coding == "gzip"

  -- what zlib makes of the body
  abbrev pub inflated : Option Inflated
  inflated = P.inflate (if coding == "gzip" then 31 else 15) body (limits.expanded + 1)

  -- the text of the expanded body, and its document
  abbrev pub HasText : List ℕ → Type 0
  HasText text =
      (bytes : Bytes) × IsExpanded P limits body coding bytes × (P.utf8 bytes ≡ some text)

  abbrev pub HasDocument : Fields → Type 0
  HasDocument fs =
      (bytes : Bytes) × IsExpanded P limits body coding bytes
      × (parse_body P limits bytes ≡ accept fs)

  -- what is too large: the declared length, the body, the expanded body or the number of events
  pub data TooLarge : Type 0 where
    long_header :
        (text : String)
        → request.content_length ≡ some text
        → (12 < length (codes text)) ⊎ (limits.compressed < decimal text)
        → TooLarge
    long_body : limits.compressed < length body → TooLarge
    long_expansion :
        (r : Inflated)
        → is_compressed ≡ true
        → inflated ≡ some r
        → (limits.expanded < length r.output) ⊎ (r.unconsumed ≡ true)
        → TooLarge
    long_text :
        (bytes : Bytes)
        → IsExpanded P limits body coding bytes
        → limits.expanded < length bytes
        → TooLarge
    many_events :
        (fs : Fields)
        → HasDocument fs
        → AreLists fs event_collections
        → limits.events < total fs event_collections
        → TooLarge

  -- what is malformed: the declared length, the compressed data, the text, its nesting, its JSON or
  -- an event collection
  pub data Malformed : Type 0 where
    bad_header :
        (text : String) → request.content_length ≡ some text → is_decimal text ≡ false → Malformed
    corrupt : is_compressed ≡ true → inflated ≡ none → Malformed
    incomplete :
        (r : Inflated)
        → is_compressed ≡ true
        → inflated ≡ some r
        → (r.eof ≡ false) ⊎ (r.unused ≡ true)
        → Malformed
    no_text :
        (bytes : Bytes) → IsExpanded P limits body coding bytes → P.utf8 bytes ≡ none → Malformed
    deep : (text : List ℕ) → HasText text → check_depth text limits.depth ≡ false → Malformed
    no_json : (text : List ℕ) → HasText text → P.parse_text text ≡ none → Malformed
    no_value :
        (text : List ℕ) (syntax : Syntax)
        → HasText text
        → P.parse_text text ≡ some syntax
        → load bounded syntax ≡ none
        → Malformed
    no_object :
        (text : List ℕ) (syntax : Syntax) (value : Value)
        → HasText text
        → P.parse_text text ≡ some syntax
        → load bounded syntax ≡ some value
        → as_object value ≡ none
        → Malformed
    bad_collection :
        (fs : Fields) (name : String)
        → HasDocument fs
        → collection (get_field name fs) ≡ none
        → Malformed

  -- an encoding that is none of the five
  abbrev pub IsUnsupported : Type 0
  IsUnsupported = (is_compressed ≡ false) × ((coding == "" || coding == "identity") ≡ false)

  -- what a status says of the request
  abbrev pub Explains : ℕ → Type 0
  Explains status =
      (status ≡ 413) × TooLarge ⊎ (status ≡ 415) × IsUnsupported ⊎ (status ≡ 400) × Malformed

  large : TooLarge → Explains 413
  large h = inl (refl, h)

  malformed : Malformed → Explains 400
  malformed h = inr (inr (refl, h))

  long_number :
      (text : String)
      → (ltb 12 (length (codes text)) || ltb limits.compressed (decimal text)) ≡ true
      → (12 < length (codes text)) ⊎ (limits.compressed < decimal text)
  long_number text h =
      elim (or-cases (ltb 12 (length (codes text))) (ltb limits.compressed (decimal text)) h) [
        | inl p ↦ inl (ltb-true 12 (length (codes text)) p)
        | inr p ↦ inr (ltb-true limits.compressed (decimal text) p)
      ]

  long_output :
      (r : Inflated)
      → (ltb limits.expanded (length r.output) || r.unconsumed) ≡ true
      → (limits.expanded < length r.output) ⊎ (r.unconsumed ≡ true)
  long_output r h = elim (or-cases (ltb limits.expanded (length r.output)) r.unconsumed h) [
    | inl p ↦ inl (ltb-true limits.expanded (length r.output) p)
    | inr p ↦ inr p
  ]

  cut_short : (r : Inflated) → (not r.eof || r.unused) ≡ true → (r.eof ≡ false) ⊎ (r.unused ≡ true)
  cut_short r h = elim (or-cases (not r.eof) r.unused h) [
    | inl p ↦ inl (not-false r.eof p)
    | inr p ↦ inr p
  ]

  unsupported :
      is_compressed ≡ false → (coding == "" || coding == "identity") ≡ false → Explains 415
  unsupported p q = inr (inl (refl, (p, q)))

  check_length-Explained :
      (header : Option String)
      → request.content_length ≡ header
      → Rejects Explains (check_length header limits)
  unfolding check_length Rejects
  check_length-Explained none h = tt
  check_length-Explained (some text) h =
      let Q : Verdict (Unit {0}) → Type 0 = λ v. Rejects Explains v in
      if_cases Q (text == "") (λ _. tt)
        (λ _.
          if_cases Q (not (is_decimal text))
            (λ bad. malformed (Malformed.bad_header text h (not-false _ bad)))
            (λ _.
              if_cases Q (ltb 12 (length (codes text)) || ltb limits.compressed (decimal text))
                (λ long. large (TooLarge.long_header text h (long_number text long))) (λ _. tt)))

  expand-Explained : Rejects Explains (expand P limits body coding)
  unfolding expand Rejects
  expand-Explained =
      let Q : Verdict Bytes → Type 0 = λ v. Rejects Explains v in
      if_cases Q is_compressed
        (λ packed.
          after_read Explains inflated 400 _ _ (λ bad. malformed (Malformed.corrupt packed bad))
            λ r there.
              after_test Explains (ltb limits.expanded (length r.output) || r.unconsumed) 413 _ _
                (λ long. large (TooLarge.long_expansion r packed there (long_output r long)))
                λ _.
                  after_test Explains (not r.eof || r.unused) 400 _ _
                    (λ cut. malformed (Malformed.incomplete r packed there (cut_short r cut)))
                    λ _. accepts Explains r.output)
        (λ plain.
          if_cases Q (not (coding == "" || coding == "identity"))
            (λ other. unsupported plain (not-false _ other)) (λ _. accepts Explains body))

  parse_body-Explained :
      (bytes : Bytes)
      → IsExpanded P limits body coding bytes
      → Rejects Explains (parse_body P limits bytes)
  unfolding parse_body
  parse_body-Explained bytes expanded =
      after_read Explains (P.utf8 bytes) 400 _ _
        (λ bad. malformed (Malformed.no_text bytes expanded bad))
        λ text read.
          let has : HasText text = (bytes, expanded, read) in
          after_test Explains (not (check_depth text limits.depth)) 400 _ _
            (λ deep. malformed (Malformed.deep text has (not-false _ deep)))
            λ _.
              after_read Explains (P.parse_text text) 400 _ _
                (λ bad. malformed (Malformed.no_json text has bad))
                λ syntax parsed.
                  after_read Explains (load bounded syntax) 400 _ _
                    (λ bad. malformed (Malformed.no_value text syntax has parsed bad))
                    λ value loaded. read_last Explains (as_object value) 400 _ (λ bad.
                      malformed (Malformed.no_object text syntax value has parsed loaded bad))

  count_events-Explained :
      (fs : Fields) (names : List String) (count : ℕ)
      → HasDocument fs
      → Rejects Explains (count_events fs names count)
  unfolding count_events
  count_events-Explained fs [] count document = accepts Explains count
  count_events-Explained fs (name ∷ names) count document =
      after_read Explains (collection (get_field name fs)) 400 _ _
        (λ bad. malformed (Malformed.bad_collection fs name document bad))
        λ n _. count_events-Explained fs names (count + n) document

  decode_bytes-Explained : Rejects Explains (decode_bytes P limits body request.content_encoding)
  unfolding decode_bytes
  decode_bytes-Explained =
      after_test Explains (ltb limits.compressed (length body)) 413 _ _
        (λ long. large (TooLarge.long_body (ltb-true limits.compressed (length body) long)))
        λ _. after Explains (expand P limits body coding) _ expand-Explained λ bytes opened.
          let expanded = expand-accept P limits body coding bytes opened in
          after_test Explains (ltb limits.expanded (length bytes)) 413 _ _
            (λ long.
              large
                (TooLarge.long_text bytes expanded (ltb-true limits.expanded (length bytes) long)))
            λ _.
              after Explains (parse_body P limits bytes) _ (parse_body-Explained bytes expanded)
                λ fs parsed.
                  after Explains (count_events fs event_collections 0) _
                    (count_events-Explained fs event_collections 0 (bytes, expanded, parsed))
                    λ count counted.
                      let (sum, lists) = count_events-total fs event_collections 0 count counted in
                      after_test Explains (ltb limits.events count) 413 _ _
                        (λ many. large (
                          TooLarge.many_events fs (bytes, expanded, parsed) lists
                            (over count (total fs event_collections) limits.events sum many)))
                        λ _. accepts Explains fs

  decode_request-Explained : Rejects Explains (decode_request P limits request)
  unfolding decode_request
  decode_request-Explained =
      after Explains (check_length request.content_length limits) _
        (check_length-Explained request.content_length refl) λ _ _. decode_bytes-Explained

Rejects-status :
    (R : ℕ → Type 0) {A : Type 0} (v : Verdict A) (status : ℕ) (detail : String)
    → v ≡ reject status detail
    → Rejects R v
    → R status
unfolding Rejects
Rejects-status R v status detail e h = subst (Rejects R) e h

-- A rejection carries the status of its cause: 413 where the declared length, the body, what it
-- expands to or the number of events is over its limit, 415 where the encoding is none of the five,
-- and 400 where the declared length is no number, the compressed data are corrupt, incomplete or
-- followed by more, or what they hold is no text, nests too deep, is no JSON object without repeated
-- keys and infinite numbers, or has an event collection that is no list of objects.
pub rejection-Explained :
    (P : Platform) (limits : Limits) (request : Request) (status : ℕ) (detail : String)
    → decode_request P limits request ≡ reject status detail
    → Explains P limits request status
rejection-Explained P limits request status detail h =
    Rejects-status (Explains P limits request) (decode_request P limits request) status detail h
      (decode_request-Explained P limits request)

-- ===== src/Limits/Bounds.antt =====
-- What an accepted request is bounded by, and the statuses of the others.
use azd_santa.Base.{
  ℕ, zero, suc, ◌+◌, ◌≤◌, ◌<◌, String, Bool, true, false, not, ◌≡◌, ◌⊎◌, inl, inr, refl, sym, subst,
  ap, ◌∙◌, ◌||◌, Option, Option-cases, none, some, List, [], ◌∷◌, arith,
}
use azd_santa.Base.{ltb, length, take, ◌==◌, string_eq, if_cases, if◌then◌else◌}
use azd_santa.Json.{Value, Fields, get_field, spell}
use azd_santa.Json.Hooks.{bounded, load}
use azd_santa.Json.Strict.{IsStrict, load-IsStrict}
use azd_santa.Limits.Depth.{check_depth}
use azd_santa.Platform.{Platform, Bytes, Inflated}
use azd_santa.Limits.Config.{Limits}
use azd_santa.Limits.Decode.{
  Verdict, accept, reject, ◌>>=◌, ◌>>◌, reject_if, or_reject, event_collections, collection,
  count_events, Request, check_length, as_object, or_empty, expand, parse_body, decode_bytes,
  decode_request,
}

-- the events that the collections of a document hold together
abbrev pub total : Fields → List String → ℕ
total fs [] = 0
total fs (name ∷ names) =
    elim (collection (get_field name fs)) [ none ↦ 0 | some n ↦ n ] + total fs names

-- every collection that is there is a list of objects
abbrev pub AreLists : Fields → List String → Type 0
AreLists fs [] = Unit
AreLists fs (name ∷ names) =
    ((n : ℕ) × (collection (get_field name fs) ≡ some n)) × AreLists fs names

pub count_events-total :
    (fs : Fields) (names : List String) (count n : ℕ)
    → count_events fs names count ≡ accept n
    → (n ≡ count + total fs names) × AreLists fs names
unfolding count_events
count_events-total fs [] count n h = (ground arith, tt)
count_events-total fs (name ∷ names) count n h =
    elim (Option-cases (collection (get_field name fs))) [
      | inl bad ↦ cc (rw bad at h)
      | inr (m, is) ↦
          let (sum, lists) = count_events-total fs names (count + m) n (rw is at h) in
          (rw is (ground (arith, sum)), ((m, is), lists))
    ]

-- A test that fails is an order.
ltb-false : (a b : ℕ) → ltb a b ≡ false → b ≤ a
ltb-false a b h = ground arith

within : (n t m : ℕ) → n ≡ 0 + t → ltb m n ≡ false → t ≤ m
within n t m is h = ground arith

pub not-true : (b : Bool) → not b ≡ false → b ≡ true
not-true true h = refl
not-true false h = cc

>>=-eq-accept {ℓ κ} :
    {A : Type ℓ} {B : Type κ} (v : Verdict A) (f : A → Verdict B) {b : B}
    → (v >>= f) ≡ accept b
    → (a : A) × (v ≡ accept a) × (f a ≡ accept b)
>>=-eq-accept (reject status detail) f h = cc
>>=-eq-accept (accept a) f h = (a, refl, h)

reject_if-accept {κ} :
    {B : Type κ} (c : Bool) (status : ℕ) (detail : String) (rest : Verdict B) {b : B}
    → (reject_if c status detail >> rest) ≡ accept b
    → (c ≡ false) × (rest ≡ accept b)
reject_if-accept true status detail rest h = cc
reject_if-accept false status detail rest h = (refl, h)

or_reject-accept {ℓ κ} :
    {A : Type ℓ} {B : Type κ} (o : Option A) (status : ℕ) (detail : String) (f : A → Verdict B)
    {b : B}
    → (or_reject o status detail >>= f) ≡ accept b
    → (a : A) × (o ≡ some a) × (f a ≡ accept b)
or_reject-accept none status detail f h = cc
or_reject-accept (some a) status detail f h = (a, refl, h)

accept-injective {ℓ} : {A : Type ℓ} {a b : A} → accept a ≡ accept b → a ≡ b
accept-injective h = cc

as_object-some :
    (v : Value) (fs : Fields)
    → or_reject (as_object v) 400 "JSON object required" ≡ accept fs
    → v ≡ Value.obj fs
as_object-some (Value.obj gs) fs h = ap Value.obj (accept-injective h)
as_object-some (Value.arr vs) fs h = cc
as_object-some (Value.str s) fs h = cc
as_object-some (Value.int n) fs h = cc
as_object-some (Value.float b) fs h = cc
as_object-some (Value.bool b) fs h = cc
as_object-some Value.null fs h = cc

-- The document is what the text of some bytes says, and the text nests within the limit.
abbrev pub IsRead : Platform → Limits → Bytes → Fields → Type 0
IsRead P limits bytes fs =
    (text : List ℕ) × (P.utf8 bytes ≡ some text)
    × (check_depth text limits.depth ≡ true)
    × (P.parse_text text ≡ some (spell (Value.obj fs)))

-- The bytes are those of the body: as they came, or as zlib expands all of them.
abbrev pub IsExpanded : Platform → Limits → Bytes → String → Bytes → Type 0
IsExpanded P limits raw encoding bytes =
    ((encoding == "" || encoding == "identity") ≡ true) × (bytes ≡ raw)
    ⊎ ((r : Inflated) × (P.inflate (if encoding == "gzip" then 31 else 15) raw (limits.expanded + 1)
          ≡ some r)
        × (r.output ≡ bytes)
        × (r.eof ≡ true)
        × (r.unused ≡ false)
        × (r.unconsumed ≡ false))

parse_body-accept :
    (P : Platform) (limits : Limits) (raw : Bytes) (fs : Fields)
    → parse_body P limits raw ≡ accept fs
    → IsRead P limits raw fs × IsStrict (Value.obj fs)
unfolding parse_body
parse_body-accept P limits raw fs h =
    let (text, read, h₁) = or_reject-accept (P.utf8 raw) _ _ _ h in
    let (deep, h₂) = reject_if-accept (not (check_depth text limits.depth)) _ _ _ h₁ in
    let (syntax, parsed, h₃) = or_reject-accept (P.parse_text text) _ _ _ h₂ in
    let (value, loaded, h₄) = or_reject-accept (load bounded syntax) _ _ _ h₃ in
    let (same, strict) = load-IsStrict syntax value loaded in
    let is : value ≡ Value.obj fs = as_object-some value fs h₄ in
    (
      (text, read, not-true _ deep, parsed ∙ ap some (sym same ∙ ap spell is)),
      subst IsStrict is strict,
    )

pub expand-accept :
    (P : Platform) (limits : Limits) (raw : Bytes) (encoding : String) (bytes : Bytes)
    → expand P limits raw encoding ≡ accept bytes
    → IsExpanded P limits raw encoding bytes
unfolding expand
expand-accept P limits raw encoding bytes =
    let Q : Verdict Bytes → Type 0 =
      λ v. v ≡ accept bytes → IsExpanded P limits raw encoding bytes in
    if_cases Q (encoding == "deflate" || encoding == "zlib" || encoding == "gzip")
      (λ _ h.
        let (r, inflated, h₁) = or_reject-accept (P.inflate _ raw (limits.expanded + 1)) _ _ _ h in
        let (fits, h₂) =
          reject_if-accept (ltb limits.expanded (length r.output) || r.unconsumed) _ _ _ h₁ in
        let (whole, h₃) = reject_if-accept (not r.eof || r.unused) _ _ _ h₂ in
        inr (
          r,
          inflated,
          accept-injective h₃,
          ground (arith, whole),
          ground (arith, whole),
          ground (arith, fits),
        ))
      (λ _.
        if_cases Q (not (encoding == "" || encoding == "identity")) (λ _ h. cc)
          (λ plain h. inl (not-true _ plain, sym (accept-injective h))))

-- An accepted body has at most `compressed` bytes. What it expands to, in whole and with nothing
-- behind it, has at most `expanded` bytes; the text of these passes the depth scan, and the document
-- is what this text says, member for member. In the document no key stands twice and no float is
-- infinite or NaN, each event collection that is there is a list of objects, and all of them together
-- hold at most `events` events.
pub decode_bytes_bounds :
    (P : Platform) (limits : Limits) (raw : Bytes) (encoding : Option String) (fs : Fields)
    → decode_bytes P limits raw encoding ≡ accept fs
    → (length raw ≤ limits.compressed)
      × ((bytes : Bytes) × IsExpanded P limits raw (P.normalize (or_empty encoding)) bytes
          × (length bytes ≤ limits.expanded)
          × IsRead P limits bytes fs)
      × IsStrict (Value.obj fs)
      × AreLists fs event_collections
      × (total fs event_collections ≤ limits.events)
unfolding decode_bytes
decode_bytes_bounds P limits raw encoding fs h =
    let (small, h₁) = reject_if-accept (ltb limits.compressed (length raw)) _ _ _ h in
    let (bytes, expanded, h₂) = >>=-eq-accept (expand P limits raw _) _ h₁ in
    let (bounded, h₃) = reject_if-accept (ltb limits.expanded (length bytes)) _ _ _ h₂ in
    let (gs, parsed, h₄) = >>=-eq-accept (parse_body P limits bytes) _ h₃ in
    let (count, counted, h₅) = >>=-eq-accept (count_events gs event_collections 0) _ h₄ in
    let (few, h₆) = reject_if-accept (ltb limits.events count) _ _ _ h₅ in
    let (read, strict) = parse_body-accept P limits bytes gs parsed in
    let (sum, lists) = count_events-total gs event_collections 0 count counted in
    rw (← accept-injective h₆) (
      ltb-false _ _ small,
      (bytes, expand-accept P limits raw _ bytes expanded, ltb-false _ _ bounded, read),
      strict,
      lists,
      within count _ limits.events sum few,
    )

-- Reading one byte more than the limit shows whether there is more.
take_whole {ℓ} : {A : Type ℓ} (k : ℕ) (xs : List A) → length (take k xs) < k → take k xs ≡ xs
take_whole zero xs h = ground arith
take_whole (suc k) [] h = refl
take_whole (suc k) (x ∷ xs) h = ap (λ ys. x ∷ ys) (take_whole k xs (ground arith))

-- An accepted request was read to its end: the document is that of the whole stream, which has
-- at most `compressed` bytes, whatever length the request declares.
pub decode_request_whole :
    (P : Platform) (limits : Limits) (request : Request) (fs : Fields)
    → decode_request P limits request ≡ accept fs
    → (length request.stream ≤ limits.compressed)
      × (decode_bytes P limits request.stream request.content_encoding ≡ accept fs)
unfolding decode_request
decode_request_whole P limits request fs h =
    let (checked, declared, h₁) = >>=-eq-accept (check_length request.content_length limits) _ h in
    let prefix : Bytes = take (limits.compressed + 1) request.stream in
    let (small, _, _, _, _) = decode_bytes_bounds P limits prefix request.content_encoding fs h₁ in
    let whole : prefix ≡ request.stream =
      take_whole (limits.compressed + 1) request.stream (ground (arith, small)) in
    (
      subst (λ xs. length xs ≤ limits.compressed) whole small,
      subst (λ xs. decode_bytes P limits xs request.content_encoding ≡ accept fs) whole h₁,
    )

-- ===== src/Json/Strict.antt =====
-- On the hooks of the request limits: what `load` returns and what it keeps out.
use azd_santa.Base.{
  ℕ, String, true, ◌≡◌, refl, sym, ap, ◌∙◌, Option, none, some, arith, Option-cases, Bool-cases,
  inl, inr, if_cases, string_eq, ◌==◌, if◌then◌else◌,
}
use azd_santa.Json.{
  Value, Items, Fields, Syntax, Elements, Pairs, get_field, put_field, is_finite, spell,
  spell_items, spell_fields,
}
use azd_santa.Json.Hooks.{
  bounded, unique_onto, unique_object, load, load_elements, load_pairs, ◌>>=◌,
}

abbrev pub DistinctKeys : Fields → Type 0
DistinctKeys Fields.end = Unit
DistinctKeys (Fields.field k v fs) = (get_field k fs ≡ none) × DistinctKeys fs

unfoldable mutual
  pub IsStrict : Value → Type 0
  IsStrict (Value.obj fs) = DistinctKeys fs × AreStrict fs
  IsStrict (Value.arr vs) = AllStrict vs
  IsStrict (Value.float b) = is_finite b ≡ true
  IsStrict _ = Unit

  pub AreStrict : Fields → Type 0
  AreStrict Fields.end = Unit
  AreStrict (Fields.field k v fs) = IsStrict v × AreStrict fs

  pub AllStrict : Items → Type 0
  AllStrict Items.nil = Unit
  AllStrict (Items.cons v vs) = IsStrict v × AllStrict vs

pub get_field-put_field :
    (j k : String) (v : Value) (fs : Fields)
    → get_field j (put_field k v fs) ≡ (if j == k then some v else get_field j fs)
unfolding get_field put_field
get_field-put_field j k v Fields.end = ground arith
get_field-put_field j k v (Fields.field i w fs) = ground (arith, get_field-put_field j k v fs)

put_field-DistinctKeys :
    (k : String) (v : Value) (fs : Fields) → DistinctKeys fs → DistinctKeys (put_field k v fs)
unfolding put_field get_field
put_field-DistinctKeys k v Fields.end d = (refl, tt)
put_field-DistinctKeys k v (Fields.field j w fs) d =
    ground (arith, put_field-DistinctKeys k v fs, get_field-put_field j k v fs)

put_field-AreStrict :
    (k : String) (v : Value) (fs : Fields)
    → IsStrict v
    → AreStrict fs
    → AreStrict (put_field k v fs)
unfolding put_field IsStrict
put_field-AreStrict k v Fields.end hv h = (hv, tt)
put_field-AreStrict k v (Fields.field j w fs) hv h =
    if_cases AreStrict (k == j) (λ _. (hv, h.1)) (λ _. (h.0, put_field-AreStrict k v fs hv h.1))

-- `unique_object` passes the pairs on, in a dict where no key stands twice.
unique_onto-IsStrict :
    (result pairs gs : Fields)
    → unique_onto result pairs ≡ some gs
    → DistinctKeys result
    → AreStrict result
    → AreStrict pairs
    → DistinctKeys gs × AreStrict gs
unfolding unique_onto IsStrict
unique_onto-IsStrict result Fields.end gs h d a b =
    let is : result ≡ gs = ground arith in (rw (← is) d, rw (← is) a)
unique_onto-IsStrict result (Fields.field k v rest) gs h d a b =
    elim (Option-cases (get_field k result)) [
      | inr (w, there) ↦ cc (rw (there, unique_onto) at h)
      | inl absent ↦
          unique_onto-IsStrict (put_field k v result) rest gs (rw (absent, unique_onto) at h)
            (put_field-DistinctKeys k v result d) (put_field-AreStrict k v result b.0 a) b.1
    ]

unique_object-IsStrict :
    (pairs gs : Fields)
    → unique_object pairs ≡ some gs
    → AreStrict pairs
    → DistinctKeys gs × AreStrict gs
unfolding unique_object IsStrict
unique_object-IsStrict pairs gs h b = unique_onto-IsStrict Fields.end pairs gs h tt tt b

>>=-eq-some {ℓ κ} :
    {A : Type ℓ} {B : Type κ} (o : Option A) (f : A → Option B) {b : B}
    → (o >>= f) ≡ some b
    → (a : A) × (o ≡ some a) × (f a ≡ some b)
>>=-eq-some none f h = cc
>>=-eq-some (some a) f h = (a, refl, h)

-- A scalar is what its own pattern says.
some-injective {ℓ} : {A : Type ℓ} {a b : A} → some a ≡ some b → a ≡ b
some-injective h = cc

bounded-float : (b : ℕ) (v : Value) → bounded.float b ≡ some v → IsStrict v
unfolding IsStrict
bounded-float b v h = elim (Bool-cases (is_finite b)) [
  | inl fin ↦ let is : Value.float b ≡ v = ground arith in rw (← is) fin
  | inr inf ↦ ground arith
]

mutual
  unfolding load IsStrict

  load-Strict : (e : Syntax) (v : Value) → load bounded e ≡ some v → IsStrict v
  load-Strict Syntax.null v h = rw (← some-injective h) tt
  load-Strict (Syntax.bool b) v h = rw (← some-injective h) tt
  load-Strict (Syntax.int n) v h = rw (← some-injective h) tt
  load-Strict (Syntax.str s) v h = rw (← some-injective h) tt
  load-Strict (Syntax.constant b) v h = cc
  load-Strict (Syntax.float b) v h = bounded-float b v h
  load-Strict (Syntax.arr es) v h =
      let (vs, read, made) = >>=-eq-some (load_elements bounded es) _ h in
      rw (← some-injective made) (load_elements-Strict es vs read)
  load-Strict (Syntax.obj ps) v h =
      let (fs, read, rest) = >>=-eq-some (load_pairs bounded ps) _ h in
      let (gs, unique, made) = >>=-eq-some (unique_object fs) _ rest in
      rw (← some-injective made)
        (unique_object-IsStrict fs gs unique (load_pairs-Strict ps fs read))

  load_elements-Strict :
      (es : Elements) (vs : Items) → load_elements bounded es ≡ some vs → AllStrict vs
  load_elements-Strict Elements.nil vs h = rw (← some-injective h) tt
  load_elements-Strict (Elements.cons e es) vs h =
      let (w, first, rest) = >>=-eq-some (load bounded e) _ h in
      let (ws, others, made) = >>=-eq-some (load_elements bounded es) _ rest in
      rw (← some-injective made) (load-Strict e w first, load_elements-Strict es ws others)

  load_pairs-Strict : (ps : Pairs) (fs : Fields) → load_pairs bounded ps ≡ some fs → AreStrict fs
  load_pairs-Strict Pairs.end fs h = rw (← some-injective h) tt
  load_pairs-Strict (Pairs.pair k e ps) fs h =
      let (w, first, rest) = >>=-eq-some (load bounded e) _ h in
      let (gs, others, made) = >>=-eq-some (load_pairs bounded ps) _ rest in
      rw (← some-injective made) (load-Strict e w first, load_pairs-Strict ps gs others)

-- two runs of members
unfoldable attach : Fields → Fields → Fields
attach Fields.end gs = gs
attach (Fields.field k v fs) gs = Fields.field k v (attach fs gs)

attach-member :
    (fs gs : Fields) (k : String) (v : Value)
    → attach (attach fs (Fields.field k v Fields.end)) gs ≡ attach fs (Fields.field k v gs)
unfolding attach
attach-member Fields.end gs k v = refl
attach-member (Fields.field j w fs) gs k v = ap (Fields.field j w) (attach-member fs gs k v)

attach-end : (fs : Fields) → attach fs Fields.end ≡ fs
unfolding attach
attach-end Fields.end = refl
attach-end (Fields.field k v fs) = ap (Fields.field k v) (attach-end fs)

-- a key that is not there is put at the end
put_field-absent :
    (k : String) (v : Value) (fs : Fields)
    → get_field k fs ≡ none
    → put_field k v fs ≡ attach fs (Fields.field k v Fields.end)
unfolding put_field get_field attach
put_field-absent k v Fields.end h = refl
put_field-absent k v (Fields.field j w fs) h = ground (arith, put_field-absent k v fs, h)

unique_onto-attach :
    (result pairs gs : Fields) → unique_onto result pairs ≡ some gs → gs ≡ attach result pairs
unfolding unique_onto
unique_onto-attach result Fields.end gs h = sym (some-injective h) ∙ sym (attach-end result)
unique_onto-attach result (Fields.field k v rest) gs h = elim (Option-cases (get_field k result)) [
  | inr (w, there) ↦ cc (rw (there, unique_onto) at h)
  | inl absent ↦
      unique_onto-attach (put_field k v result) rest gs (rw (absent, unique_onto) at h)
      ∙ ap (λ fs. attach fs rest) (put_field-absent k v result absent)
      ∙ attach-member result rest k v
]

unique_object-same : (pairs gs : Fields) → unique_object pairs ≡ some gs → gs ≡ pairs
unfolding unique_object attach
unique_object-same pairs gs h = unique_onto-attach Fields.end pairs gs h

bounded-spelled : (b : ℕ) (v : Value) → bounded.float b ≡ some v → spell v ≡ Syntax.float b
unfolding spell
bounded-spelled b v h = elim (Bool-cases (is_finite b)) [
  | inl fin ↦ let is : Value.float b ≡ v = ground arith in rw (← is) refl
  | inr inf ↦ ground arith
]

mutual
  unfolding load spell

  load-spelled : (e : Syntax) (v : Value) → load bounded e ≡ some v → spell v ≡ e
  load-spelled Syntax.null v h = rw (← some-injective h) refl
  load-spelled (Syntax.bool b) v h = rw (← some-injective h) refl
  load-spelled (Syntax.int n) v h = rw (← some-injective h) refl
  load-spelled (Syntax.str s) v h = rw (← some-injective h) refl
  load-spelled (Syntax.constant b) v h = cc
  load-spelled (Syntax.float b) v h = bounded-spelled b v h
  load-spelled (Syntax.arr es) v h =
      let (vs, read, made) = >>=-eq-some (load_elements bounded es) _ h in
      rw (← some-injective made) (ap Syntax.arr (load_elements-spelled es vs read))
  load-spelled (Syntax.obj ps) v h =
      let (fs, read, rest) = >>=-eq-some (load_pairs bounded ps) _ h in
      let (gs, unique, made) = >>=-eq-some (unique_object fs) _ rest in
      rw (← some-injective made, unique_object-same fs gs unique)
        (ap Syntax.obj (load_pairs-spelled ps fs read))

  load_elements-spelled :
      (es : Elements) (vs : Items) → load_elements bounded es ≡ some vs → spell_items vs ≡ es
  load_elements-spelled Elements.nil vs h = rw (← some-injective h) refl
  load_elements-spelled (Elements.cons e es) vs h =
      let (w, first, rest) = >>=-eq-some (load bounded e) _ h in
      let (ws, others, made) = >>=-eq-some (load_elements bounded es) _ rest in
      rw (← some-injective made, load-spelled e w first, load_elements-spelled es ws others) refl

  load_pairs-spelled :
      (ps : Pairs) (fs : Fields) → load_pairs bounded ps ≡ some fs → spell_fields fs ≡ ps
  load_pairs-spelled Pairs.end fs h = rw (← some-injective h) refl
  load_pairs-spelled (Pairs.pair k e ps) fs h =
      let (w, first, rest) = >>=-eq-some (load bounded e) _ h in
      let (gs, others, made) = >>=-eq-some (load_pairs bounded ps) _ rest in
      rw (← some-injective made, load-spelled e w first, load_pairs-spelled ps gs others) refl

-- A value that `json.loads` returns under the hooks of `decode_bytes` is the JSON that was parsed,
-- member for member and in its order, so that no member was dropped or overwritten. In it, and
-- so in the JSON, no object has a key twice, however deep, and no float is an infinity or a NaN.
pub load-IsStrict : (e : Syntax) (v : Value) → load bounded e ≡ some v → (spell v ≡ e) × IsStrict v
load-IsStrict e v h = (load-spelled e v h, load-Strict e v h)

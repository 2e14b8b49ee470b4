-- ===== src/Base/Lists.antt =====
-- Lists measured and indexed by native numbers, and Python's sets as lists without repetition.
use Prim.Native.Nat.{ℕ, zero, suc, ◌+◌, ◌-◌, ◌<◌}
use mathlib.Core.Path.{◌≡◌, refl, ap}
use mathlib.Core.Bool.{Bool, true, false, ◌||◌}
use mathlib.Core.List.{List, [], ◌∷◌, ◌++◌}
use mathlib.Core.Option.{Option, none, some}
use native.Mathlib.Omega.{arith}
use azd_santa.Base.Tests.{if◌then◌else◌, if_cases}
use azd_santa.Base.Equality.{Eq, ◌==◌, contains}

module _ {ℓ} {A : Type ℓ} where
  abbrev pub length : List A → ℕ
  length [] = 0
  length (x ∷ xs) = suc (length xs)

  abbrev pub get_elem? : List A → ℕ → Option A
  get_elem? [] i = none
  get_elem? (x ∷ xs) zero = some x
  get_elem? (x ∷ xs) (suc i) = get_elem? xs i

  abbrev pub take : ℕ → List A → List A
  take zero xs = []
  take (suc n) [] = []
  take (suc n) (x ∷ xs) = x ∷ take n xs

  abbrev pub drop : ℕ → List A → List A
  drop zero xs = xs
  drop (suc n) [] = []
  drop (suc n) (x ∷ xs) = drop n xs

  abbrev pub replicate : ℕ → A → List A
  replicate zero a = []
  replicate (suc n) a = a ∷ replicate n a

  abbrev pub any : (A → Bool) → List A → Bool
  any p [] = false
  any p (x ∷ xs) = p x || any p xs

  abbrev pub All : (A → Type 0) → List A → Type 0
  All P [] = Unit
  All P (x ∷ xs) = P x × All P xs

  pub length-append : (xs ys : List A) → length (xs ++ ys) ≡ length xs + length ys
  length-append [] ys = omega arith
  length-append (x ∷ xs) ys = omega (arith, length-append xs ys)

  pub take-append : (xs ys : List A) → take (length xs) (xs ++ ys) ≡ xs
  take-append [] ys = refl
  take-append (x ∷ xs) ys = ap (◌∷◌ x) (take-append xs ys)

  pub drop-append : (xs ys : List A) → drop (length xs) (xs ++ ys) ≡ ys
  drop-append [] ys = refl
  drop-append (x ∷ xs) ys = drop-append xs ys

  pub length-drop : (n : ℕ) (xs : List A) → length (drop n xs) ≡ length xs - n
  length-drop zero xs = omega arith
  length-drop (suc n) [] = omega arith
  length-drop (suc n) (x ∷ xs) = omega (arith, length-drop n xs)

  -- `raw[:-k]` and `raw[-k:]` take off a suffix of length k.
  pub take-append_suffix :
      (xs ys : List A) (k : ℕ) → length ys ≡ k → take (length (xs ++ ys) - k) (xs ++ ys) ≡ xs
  take-append_suffix xs ys k h =
      let e : length (xs ++ ys) - k ≡ length xs = omega (arith, length-append xs ys) in
      rw e (take-append xs ys)

  pub drop-append_suffix :
      (xs ys : List A) (k : ℕ) → length ys ≡ k → drop (length (xs ++ ys) - k) (xs ++ ys) ≡ ys
  drop-append_suffix xs ys k h =
      let e : length (xs ++ ys) - k ≡ length xs = omega (arith, length-append xs ys) in
      rw e (drop-append xs ys)

  pub length-replicate : (n : ℕ) (a : A) → length (replicate n a) ≡ n
  length-replicate zero a = refl
  length-replicate (suc n) a = ap suc (length-replicate n a)

module _ {ℓ} {A : Type ℓ} where
  pub get_elem?-some : (xs : List A) (i : ℕ) → i < length xs → (x : A) × (get_elem? xs i ≡ some x)
  get_elem?-some [] i h = elim h [ ]
  get_elem?-some (x ∷ xs) zero h = (x, refl)
  get_elem?-some (x ∷ xs) (suc i) h = get_elem?-some xs i (omega arith)

module _ {ℓ} {A : Type ℓ} where
  pub get_elem?-lt : (xs : List A) (i : ℕ) {x : A} → get_elem? xs i ≡ some x → i < length xs
  get_elem?-lt [] i h = cc
  get_elem?-lt (x ∷ xs) zero h = omega arith
  get_elem?-lt (x ∷ xs) (suc i) h = omega (arith, get_elem?-lt xs i h)

  -- What a non-empty remainder says of the place where it starts.
  pub drop-cons :
      (xs : List A) (n : ℕ) {y : A} {ys : List A}
      → drop n xs ≡ y ∷ ys
      → (get_elem? xs n ≡ some y) × (drop (suc n) xs ≡ ys) × (length xs ≡ n + suc (length ys))
  drop-cons [] zero h = cc
  drop-cons [] (suc n) h = cc
  drop-cons (x ∷ xs) zero h = (cc, cc, omega (arith, ap length h))
  drop-cons (x ∷ xs) (suc n) h =
      let (there, rest, count) = drop-cons xs n h in (there, rest, omega arith)

module _ {ℓ} {A : Type ℓ} ⦃e : Eq A⦄ where
  -- `s.add(x)`
  unfoldable pub add : A → List A → List A
  add x s = if contains s x then s else x ∷ s

  -- `s | t`
  unfoldable pub union : List A → List A → List A
  unfolding add
  union s [] = s
  union s (x ∷ t) = add x (union s t)

  abbrev pub Distinct : List A → Type 0
  Distinct [] = Unit
  Distinct (x ∷ xs) = (contains xs x ≡ false) × Distinct xs

  pub contains-add : (x y : A) (s : List A) → contains (add x s) y ≡ (y == x || contains s y)
  unfolding add
  contains-add x y s = ground arith

  pub Distinct-add : (x : A) (s : List A) → Distinct s → Distinct (add x s)
  unfolding add
  Distinct-add x s d = ground arith

  pub All-add : (P : A → Type 0) (x : A) (s : List A) → P x → All P s → All P (add x s)
  unfolding add
  All-add P x s px h = if_cases (All P) (contains s x) (λ _. h) (λ _. (px, h))

  pub contains-union :
      (y : A) (s t : List A) → contains (union s t) y ≡ (contains s y || contains t y)
  unfolding union
  contains-union y s [] = ground arith
  contains-union y s (x ∷ t) = rw contains-add (ground (arith, contains-union y s t))

  pub Distinct-union : (s t : List A) → Distinct s → Distinct (union s t)
  unfolding union
  Distinct-union s [] d = d
  Distinct-union s (x ∷ t) d = Distinct-add x (union s t) (Distinct-union s t d)

  -- A set that holds already all of another stays as it is.
  pub union-absorb : (s t : List A) → All (λ x. contains s x ≡ true) t → union s t ≡ s
  unfolding union
  union-absorb s [] h = refl
  union-absorb s (x ∷ t) (hx, h) = rw (union-absorb s t h) (unfold add in rw hx)

  All-contains_mono :
      (s t : List A)
      → ((x : A) → contains s x ≡ true → contains t x ≡ true)
      → (u : List A) → All (λ x. contains s x ≡ true) u
      → All (λ x. contains t x ≡ true) u
  All-contains_mono s t h [] m = tt
  All-contains_mono s t h (x ∷ u) (m, ms) = (h x m, All-contains_mono s t h u ms)

  pub All-contains_self : (s : List A) → All (λ x. contains s x ≡ true) s
  All-contains_self [] = tt
  All-contains_self (x ∷ s) =
      (ground arith, All-contains_mono s (x ∷ s) (λ y m. ground arith) s (All-contains_self s))

  pub union-union : (s t : List A) → union (union s t) t ≡ union s t
  union-union s t = union-absorb (union s t) t (
      All-contains_mono t (union s t) (λ x m. rw contains-union (ground arith)) t
        (All-contains_self t))

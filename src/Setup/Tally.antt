-- ===== src/Setup/Tally.antt =====
-- How many calls of `operator_access` the folders of the store leave room for.
use azd_santa.Base.{ℕ, ◌+◌, ◌≤◌, String, Bool, false, Option, none, some, List, [], ◌∷◌, ◌≡◌, arith}
use azd_santa.Base.{◌==◌, string_eq, bytes_eq, if_cases, if◌then◌else◌}
use azd_santa.Base.Dict.{Dict, lookup, insert, lookup-insert}
use azd_santa.Base.Faulty
use azd_santa.Base.Faulty.{◌>>=◌, pure, need, or_fail, Ends-bind}
use azd_santa.Platform.{Bytes}
use azd_santa.Setup.Host.{Disk, Action, files_of, put_file, put_torn}

pub differs : (s t : String) → ¬ (s ≡ t) → (s == t) ≡ false
differs s t h = ground arith

-- how often a context stands in a list
unfoldable pub count : String → List String → ℕ
count c [] = 0
count c (x ∷ xs) = (if x == c then 1 else 0) + count c xs

abbrev pub has : {A : Type 0} → Option A → ℕ
has none = 0
has (some a) = 1

pub has-bound : {A : Type 0} (o : Option A) → has o ≤ 1
has-bound none = omega arith
has-bound (some a) = omega arith

-- the folders leave room for so many more calls
abbrev pub Room : String → ℕ → Disk → Type 0
Room c n d = count c d.accessed + n ≤ has (lookup c d.folders)

-- a result with some room, or none with as much room as nothing
abbrev pub Ends {ℓ} : {A : Type ℓ} → String → ℕ → Option A × Disk → Type 0
Ends c n o = Faulty.Ends (λ _ d. Room c n d) (λ d. Room c 0 d) o

abbrev pub Moves {ℓ} : {A : Type ℓ} → String → ℕ → Action A → ℕ → Type 0
Moves c n m k = (d : Disk) → Room c n d → Ends c k (m d)

module _ (c : String) where
  pub bind {ℓ κ} :
      {A : Type ℓ} {B : Type κ} (l n k : ℕ) (m : Action A) (f : A → Action B)
      → Moves c l m n
      → ((a : A) → Moves c n (f a) k)
      → Moves c l (m >>= f) k
  bind l n k m f =
      Ends-bind m f (λ d. Room c l d) (λ _ d. Room c n d) (λ _ d. Room c k d) (λ d. Room c 0 d)

  module _ (n : ℕ) where
    pub less : (d : Disk) → Room c n d → Room c 0 d
    less d h = omega arith

    pub need-Moves : (b : Bool) → Moves c n (need b) n
    need-Moves b d h =
        if_cases (λ (o : Option (Unit {0})). Ends c n (o, d)) b (λ _. h) (λ _. less d h)

    pub or_fail-Moves {ℓ} : {A : Type ℓ} (o : Option A) → Moves c n (or_fail o) n
    or_fail-Moves none d h = less d h
    or_fail-Moves (some a) d h = h

    pub Room-put_file :
        (context name : String) (raw : Bytes) (d : Disk)
        → Room c n d
        → Room c n (put_file context name raw d)
    Room-put_file context name raw d h =
        let files = insert name raw (files_of context d) in
        rw (lookup-insert c context files d.folders) (
          if_cases (λ (o : Option (Dict String Bytes)). count c d.accessed + n ≤ has o)
            (c == context) (λ _. omega (arith, has-bound (lookup c d.folders))) (λ _. h))

    pub Room-put_torn :
        (context name : String) (o : Option Bytes) (d : Disk)
        → Room c n d
        → Room c n (put_torn context name o d)
    Room-put_torn context name none d h = h
    Room-put_torn context name (some raw) d h = Room-put_file context name raw d h

-- ===== src/Base/Faulty.antt =====
-- Steps on a state that may raise, and what they keep: an exception keeps the changes before it.
use mathlib.Core.Bool.{Bool}
use mathlib.Core.Option.{Option, none, some}
use azd_santa.Base.Tests.{if◌then◌else◌}

abbrev pub Faulty {ℓ κ} : Type ℓ → Type κ → Type (ℓ ⊔ κ)
Faulty S A = S → Option A × S

module _ {ℓ κ μ} {S : Type ℓ} {A : Type κ} {B : Type μ} where
  abbrev pub and_then : (A → Faulty S B) → Option A × S → Option B × S
  and_then f (none, s) = (none, s)
  and_then f (some a, s) = f a s

  infixl 5 ◌>>=◌ ◌>>◌
  abbrev pub ◌>>=◌ : Faulty S A → (A → Faulty S B) → Faulty S B
  ◌>>=◌ m f s = and_then f (m s)

  abbrev pub ◌>>◌ : Faulty S A → Faulty S B → Faulty S B
  m >> k = m >>= λ _. k

module _ {ℓ κ} {S : Type ℓ} {A : Type κ} where
  abbrev pub pure : A → Faulty S A
  pure a s = (some a, s)

  abbrev pub or_fail : Option A → Faulty S A
  or_fail o s = (o, s)

-- `need`
abbrev pub need {ℓ} : {S : Type ℓ} → Bool → Faulty S (Unit {0})
need b s = (if b then some tt else none, s)

-- the outcome of a step: `Q` holds of its result, or `R` where it raised
abbrev pub Ends {ℓ κ μ} :
    {S : Type ℓ} {A : Type κ} → (A → S → Type μ) → (S → Type μ) → Option A × S → Type μ
Ends Q R (some a, s) = Q a s
Ends Q R (none, s) = R s

module _ {ℓ κ μ ν} {S : Type ℓ} {A : Type κ} {B : Type μ} where
  and_then-Ends :
      (f : A → Faulty S B) (Q : A → S → Type ν) (T : B → S → Type ν) (R : S → Type ν)
      → ((a : A) (s : S) → Q a s → Ends T R (f a s))
      → (o : Option A × S) → Ends Q R o
      → Ends T R (and_then f o)
  and_then-Ends f Q T R hf (none, s) h = h
  and_then-Ends f Q T R hf (some a, s) h = hf a s h

  pub Ends-bind :
      (m : Faulty S A) (f : A → Faulty S B) (P : S → Type ν) (Q : A → S → Type ν)
      (T : B → S → Type ν) (R : S → Type ν)
      → ((s : S) → P s → Ends Q R (m s))
      → ((a : A) (s : S) → Q a s → Ends T R (f a s))
      → (s : S) → P s
      → Ends T R ((m >>= f) s)
  Ends-bind m f P Q T R hm hf s h = and_then-Ends f Q T R hf (m s) (hm s h)

-- a relation that every step keeps
module _ {ℓ μ} {S : Type ℓ} (L : S → S → Type μ) where
  abbrev pub Steps {κ} : {A : Type κ} → Faulty S A → Type (ℓ ⊔ μ)
  Steps m = (s : S) → L s (m s).1

  module _ (refl_L : (s : S) → L s s) where
    pub need-Steps : (b : Bool) → Steps (need b)
    need-Steps b s = refl_L s

    pub or_fail-Steps {κ} : {A : Type κ} (o : Option A) → Steps (or_fail o)
    or_fail-Steps o s = refl_L s

  module _ (trans_L : (s t u : S) → L s t → L t u → L s u) where
    and_then-Steps {κ ν} :
        {A : Type κ} {B : Type ν} (s : S) (f : A → Faulty S B)
        → ((a : A) → Steps (f a))
        → (o : Option A × S) → L s o.1
        → L s (and_then f o).1
    and_then-Steps s f hf (none, t) h = h
    and_then-Steps s f hf (some a, t) h = trans_L s t (f a t).1 h (hf a t)

    pub bind-Steps {κ ν} :
        {A : Type κ} {B : Type ν} (m : Faulty S A) (f : A → Faulty S B)
        → Steps m
        → ((a : A) → Steps (f a))
        → Steps (m >>= f)
    bind-Steps m f hm hf s = and_then-Steps s f hf (m s) (hm s)

-- ===== src/Raise.antt =====
-- Python's exceptions as values, by the classes that the program's handlers tell apart.
use azd_santa.Base.{Bool, true, false, Option, none, some, ◌≡◌, refl, ◌⊎◌, inl, inr}

pub data Exc : Type 0 where
  -- `ValueError`, with `UnicodeError`, `zlib.error`, `RecursionError` and `TimeoutError`, which every
  -- handler of the program treats alike
  value_error : Exc
  -- `LookupError`, with `KeyError`
  lookup_error : Exc
  index_error : Exc
  overflow_error : Exc
  type_error : Exc
  -- `sqlite3.Error`
  sqlite_error : Exc

-- a value, or the exception that was raised in its place
pub data Result {ℓ} (A : Type ℓ) : Type ℓ where
  err : Exc → Result A
  ok : A → Result A

-- statements in sequence: a raise skips the rest
infixl 6 ◌>>=◌ ◌>>◌
abbrev pub ◌>>=◌ {ℓ κ} : {V : Type ℓ} {W : Type κ} → Result V → (V → Result W) → Result W
err raised >>= rest = err raised
ok value >>= rest = rest value

abbrev pub ◌>>◌ {κ} : {W : Type κ} → Result (Unit {0}) → Result W → Result W
first >> rest = first >>= λ _. rest

-- `if b: raise e`
abbrev pub raise_if : Bool → Exc → Result (Unit {0})
raise_if true e = err e
raise_if false e = ok tt

-- a library call that raises `e` where it returns `none`
abbrev pub or_raise {ℓ} : {A : Type ℓ} → Option A → Exc → Result A
or_raise none e = err e
or_raise (some a) e = ok a

-- To split on the result of a call and keep the equation.
pub Result-cases {ℓ} :
    {A : Type ℓ} (r : Result A) → ((a : A) × (r ≡ ok a)) ⊎ ((e : Exc) × (r ≡ err e))
Result-cases (ok a) = inl (a, refl)
Result-cases (err e) = inr (e, refl)

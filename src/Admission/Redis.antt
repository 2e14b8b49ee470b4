-- ===== src/Admission/Redis.antt =====
-- The Redis commands that the scripts of experiments/server/santa_admission.py call, and the laws
-- of its documentation that proofs use. Redis runs a script alone and at one time.
use azd_santa.Base.{
  ◌+◌, true, ◌⊎◌, inl, inr, refl, Bool, ℕ, String, Option, none, some, List, false, ◌≡◌, ◌==◌,
  string_eq, if◌then◌else◌,
}
use azd_santa.Base.Int.{ℤ}
use azd_santa.Base.Text.{codes, all, is_digit, decimal}

-- what `GET` finds: nothing, a value that is no string (an error), or a string
pub data Reading : Type 0 where
  missing : Reading
  wrong_type : Reading
  text : String → Reading

pub record Redis : Type 1 where
  pub Store : Type 0
  -- the seconds of `TIME`
  pub time : Store → ℕ
  pub type_of : String → Store → String
  pub ttl : String → Store → ℤ
  pub get : String → Store → Reading
  pub hget : String → String → Store → Option String
  pub hkeys : String → Store → List String
  -- `SET key value EX seconds`
  pub set_ex : String → String → ℕ → Store → Store
  pub incr : String → Store → Store
  -- `SET key value NX EX seconds`: whether it was set
  pub set_nx : String → String → ℕ → Store → Bool × Store
  -- `SET key value`
  pub set : String → String → Store → Store
  -- `CONFIG GET` of one setting, and `aof_last_write_status` of `INFO persistence`
  pub setting : String → Store → Option String
  pub aof_status : Store → Option String
  pub hset : String → String → String → Store → Store
  pub hdel : String → String → Store → Store
  -- Lua's `tostring` of an integer
  pub tostring : ℕ → String

-- A write of one key leaves the fields of every other, a write of one field the other fields.
pub record RedisLaws (R : Redis) : Type 0 where
  pub hget-set_ex :
      (k j f v : String) (n : ℕ) (s : R.Store)
      → (k == j) ≡ false
      → R.hget k f (R.set_ex j v n s) ≡ R.hget k f s
  pub hget-incr :
      (k j f : String) (s : R.Store) → (k == j) ≡ false → R.hget k f (R.incr j s) ≡ R.hget k f s
  pub hget-hset :
      (k f g v : String) (s : R.Store)
      → R.hget k f (R.hset k g v s) ≡ (if f == g then some v else R.hget k f s)
  pub hget-hdel :
      (k f g : String) (s : R.Store)
      → R.hget k f (R.hdel k g s) ≡ (if f == g then none else R.hget k f s)

-- What the scripts that count rely on, for one key.
pub record CounterLaws (R : Redis) (k : String) : Type 0 where
  pub get-set_ex : (n : ℕ) (s : R.Store) → R.get k (R.set_ex k "1" n s) ≡ text "1"
  pub get-incr :
      (v : String) (s : R.Store)
      → R.get k s ≡ text v
      → all is_digit (codes v) ≡ true
      → (t : String) × (R.get k (R.incr k s) ≡ text t) × (decimal t ≡ decimal v + 1)

abbrev pub is_present : Reading → Bool
is_present missing = false
is_present r = true

-- What the scripts that claim rely on.
pub record ClaimLaws (R : Redis) : Type 0 where
  pub set_nx-taken :
      (k v : String) (n : ℕ) (s : R.Store)
      → is_present (R.get k s) ≡ true
      → (R.set_nx k v n s).0 ≡ false
  pub set_nx-present :
      (k v : String) (n : ℕ) (s : R.Store) → is_present (R.get k (R.set_nx k v n s).1) ≡ true
  pub set_nx-keeps :
      (j k v : String) (n : ℕ) (s : R.Store)
      → is_present (R.get j s) ≡ true
      → is_present (R.get j (R.set_nx k v n s).1) ≡ true

pub Reading-cases : (r : Reading) → (r ≡ missing) ⊎ (r ≡ wrong_type) ⊎ ((v : String) × (r ≡ text v))
Reading-cases missing = inl refl
Reading-cases wrong_type = inr (inl refl)
Reading-cases (text v) = inr (inr (v, refl))

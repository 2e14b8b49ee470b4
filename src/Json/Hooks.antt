-- ===== src/Json/Hooks.antt =====
-- `json.loads` with hooks. The parser calls them bottom up; a rejection is a `ValueError`, here
-- `none`. `unique_object` of tools/sync_spike/model.py and `_unique`, `_constant`, `_float` of
-- experiments/server/santa_request_limits.py are the hooks that the program passes.
use azd_santa.Base.{ℕ, Option, none, some, string_eq, if◌then◌else◌}
use azd_santa.Json.{Value, Items, Fields, Syntax, Elements, Pairs, get_field, put_field, is_finite}

infixl 5 ◌>>=◌
abbrev pub ◌>>=◌ {ℓ κ} : {A : Type ℓ} {B : Type κ} → Option A → (A → Option B) → Option B
none >>= f = none
some a >>= f = f a

pub record Hooks : Type 0 where
  pub pairs : Fields → Option Fields
  pub constant : ℕ → Option Value
  pub float : ℕ → Option Value

-- The pairs go into `result` one by one; a key that is there already is a `ValueError`.
unfoldable pub unique_onto : Fields → Fields → Option Fields
unfolding get_field put_field
unique_onto result Fields.end = some result
unique_onto result (Fields.field k v rest) =
    let tail = unique_onto (put_field k v result) rest in
    elim (get_field k result) [ none ↦ tail | some _ ↦ none ]

unfoldable pub unique_object : Fields → Option Fields
unfolding unique_onto
unique_object pairs = unique_onto Fields.end pairs

-- `dict(pairs)`: the last value of a key stays.
unfoldable pub dict_onto : Fields → Fields → Fields
unfolding put_field
dict_onto result Fields.end = result
dict_onto result (Fields.field k v rest) = dict_onto (put_field k v result) rest

-- hooks of `json.loads(payload)` with no keyword
abbrev pub plain : Hooks
plain = record {
  pairs = λ fs. some (dict_onto Fields.end fs);
  constant = λ b. some (Value.float b);
  float = λ b. some (Value.float b);
}

-- hooks of `loads` in operator_setup_host.py
abbrev pub repeat_free : Hooks
repeat_free = record {
  pairs = unique_object;
  constant = λ b. some (Value.float b);
  float = λ b. some (Value.float b);
}

-- hooks of `decode` in model.py
abbrev pub strict : Hooks
strict = record { pairs = unique_object; constant = λ _. none; float = λ b. some (Value.float b) }

-- hooks of `decode_bytes` in santa_request_limits.py
abbrev pub bounded : Hooks
bounded = record {
  pairs = unique_object;
  constant = λ _. none;
  float = λ b. if is_finite b then some (Value.float b) else none;
}

module _ (h : Hooks) where
  unfoldable mutual
    pub load : Syntax → Option Value
    load Syntax.null = some Value.null
    load (Syntax.bool b) = some (Value.bool b)
    load (Syntax.int n) = some (Value.int n)
    load (Syntax.float b) = h.float b
    load (Syntax.constant b) = h.constant b
    load (Syntax.str s) = some (Value.str s)
    load (Syntax.arr es) = load_elements es >>= λ vs. some (Value.arr vs)
    load (Syntax.obj ps) = load_pairs ps >>= λ fs. h.pairs fs >>= λ gs. some (Value.obj gs)

    pub load_elements : Elements → Option Items
    load_elements Elements.nil = some Items.nil
    load_elements (Elements.cons e es) =
        load e >>= λ v. load_elements es >>= λ vs. some (Items.cons v vs)

    pub load_pairs : Pairs → Option Fields
    load_pairs Pairs.end = some Fields.end
    load_pairs (Pairs.pair k e ps) =
        load e >>= λ v. load_pairs ps >>= λ fs. some (Fields.field k v fs)

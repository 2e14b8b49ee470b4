-- ===== src/Json.antt =====
-- JSON as Python reads it: the syntax that the standard parser hands to its hooks, the values that
-- the program works on, and the hooks of tools/sync_spike/model.py and
-- experiments/server/santa_request_limits.py. A float is the 64-bit pattern of the IEEE double.
pub mod Hooks
pub mod Strict
use azd_santa.Base.{ℕ, String, Bool, true, false, Option, none, some, ◌==◌, if◌then◌else◌}
use azd_santa.Base.{string_eq, ◌/◌, ◌%◌, ◌^◌, not, List, [], ◌∷◌, ◌=?◌}
use azd_santa.Base.Int.{ℤ}

mutual
  -- a `dict` in insertion order
  pub data Fields : Type 0 where
    field : String → Value → Fields → Fields
    end : Fields

  pub data Value : Type 0 where
    obj : Fields → Value
    str : String → Value
    int : ℤ → Value
    bool : Bool → Value
    float : ℕ → Value
    arr : Items → Value
    null : Value

  pub data Items : Type 0 where
    cons : Value → Items → Items
    nil : Items

-- What the parser has read, before a hook has run. `constant` is NaN, Infinity or -Infinity.
mutual
  pub data Pairs : Type 0 where
    pair : String → Syntax → Pairs → Pairs
    end : Pairs

  pub data Syntax : Type 0 where
    obj : Pairs → Syntax
    str : String → Syntax
    int : ℤ → Syntax
    constant : ℕ → Syntax
    bool : Bool → Syntax
    float : ℕ → Syntax
    arr : Elements → Syntax
    null : Syntax

  pub data Elements : Type 0 where
    cons : Syntax → Elements → Elements
    nil : Elements

-- the syntax of a value, in the order of the value
unfoldable mutual
  pub spell : Value → Syntax
  spell Value.null = Syntax.null
  spell (Value.bool b) = Syntax.bool b
  spell (Value.int n) = Syntax.int n
  spell (Value.float b) = Syntax.float b
  spell (Value.str s) = Syntax.str s
  spell (Value.arr vs) = Syntax.arr (spell_items vs)
  spell (Value.obj fs) = Syntax.obj (spell_fields fs)

  pub spell_items : Items → Elements
  spell_items Items.nil = Elements.nil
  spell_items (Items.cons v vs) = Elements.cons (spell v) (spell_items vs)

  pub spell_fields : Fields → Pairs
  spell_fields Fields.end = Pairs.end
  spell_fields (Fields.field key v fs) = Pairs.pair key (spell v) (spell_fields fs)

-- `body.get(key)`
unfoldable pub get_field : String → Fields → Option Value
get_field k end = none
get_field k (field j v fs) = if k == j then some v else get_field k fs

-- `result[key] = value`
unfoldable pub put_field : String → Value → Fields → Fields
put_field k v end = field k v end
put_field k v (field j w fs) = if k == j then field k v fs else field j w (put_field k v fs)

unfoldable pub keys : Fields → List String
keys end = []
keys (field k v fs) = k ∷ keys fs

unfoldable pub to_list : Items → List Value
to_list nil = []
to_list (cons v vs) = v ∷ to_list vs

unfoldable pub of_list : List Value → Items
of_list [] = nil
of_list (v ∷ vs) = cons v (of_list vs)

-- `math.isfinite`: the exponent of the pattern is not all ones.
unfoldable pub is_finite : ℕ → Bool
is_finite bits = not (bits / 2 ^ 52 % 2048 =? 2047)

-- ===== src/Sync/Snapshot.antt =====
-- `Snapshot` and `canonical` of tools/sync_spike/model.py.
use azd_santa.Base.{
  ℕ, ◌^◌, ◌=?◌, any, String, Bool, true, false, Option, none, some, List, [], ◌∷◌, not, ◌&&◌, ◌||◌,
}
use azd_santa.Base.{string_eq, ◌==◌, ltb, length, if◌then◌else◌, contains}
use azd_santa.Base.Int.{ℤ, int_eq, pos, ltb_ℤ}
use azd_santa.Json.{Value, Fields, Items, get_field, keys, to_list}
use azd_santa.Platform.{Platform, Bytes}
use azd_santa.Raise.{Exc, Result, ok, err, value_error, type_error, ◌>>=◌, ◌>>◌, raise_if, or_raise}

abbrev pub max_events : ℕ
max_events = 50

abbrev pub max_event_digests : ℕ
max_event_digests = 256

abbrev pub max_bytes : ℕ
max_bytes = 65536

-- `rules` holds the canonical JSON bytes of each rule. `approval` is any value that is true.
pub record Snapshot : Type 0 where
  pub revision : ℤ
  pub rules : List Bytes
  pub approval : Value

-- Python's `bool(value)`
unfoldable pub truthy : Value → Bool
truthy Value.null = false
truthy (Value.bool b) = b
truthy (Value.int n) = not (n == pos 0)
truthy (Value.float bits) = not (bits =? 0) && not (bits =? 2 ^ 63)
truthy (Value.str s) = not (s == "")
truthy (Value.arr Items.nil) = false
truthy (Value.arr vs) = true
truthy (Value.obj Fields.end) = false
truthy (Value.obj fs) = true

-- `value == 'text'`, for a text
unfoldable pub is_text : String → Option Value → Bool
is_text t (some (Value.str s)) = s == t
is_text t _ = false

abbrev pub rule_keys : List String
rule_keys = "identifier" ∷ "policy" ∷ "rule_type" ∷ []

-- `set(xs) == {...}`
unfoldable pub same_set : List String → List String → Bool
same_set xs ys = not (any (λ x. not (contains ys x)) xs) && not (any (λ y. not (contains xs y)) ys)

unhashable : Value → Bool
unhashable (Value.arr vs) = true
unhashable (Value.obj fs) = true
unhashable _ = false

texts : List Value → Option (List String)
texts [] = some []
texts (Value.str s ∷ vs) = elim (texts vs) [ none ↦ none | some ts ↦ some (s ∷ ts) ]
texts (_ ∷ vs) = none

-- `set(rule)` of a list that holds a list or a dict is a `TypeError`, and so is indexing a list by
-- a text.
list_error : List Value → Exc
unfolding unhashable texts same_set
list_error vs = if any unhashable vs then type_error else elim (texts vs) [
  | none ↦ value_error
  | some ts ↦ if same_set ts rule_keys then type_error else value_error
]

-- The body of the loop of `fixture`. A text is iterated into its characters, never the three keys.
unfoldable pub check_rule : Value → Result (Unit {0})
unfolding get_field keys to_list is_text same_set list_error
check_rule (Value.obj fs) = do
  raise_if (not (same_set (keys fs) rule_keys)) value_error
  raise_if
      (not (
          is_text "BINARY" (get_field "rule_type" fs)
          || is_text "SIGNINGID" (get_field "rule_type" fs))
        || not (
            is_text "BLOCKLIST" (get_field "policy" fs)
            || is_text "ALLOWLIST" (get_field "policy" fs)))
      value_error
check_rule (Value.str s) = err value_error
check_rule (Value.arr vs) = err (list_error (to_list vs))
check_rule _ = err type_error

unfoldable pub check_rules : List Value → Result (Unit {0})
check_rules [] = ok tt
check_rules (r ∷ rs) = do check_rule r; check_rules rs

-- `type(value) is int` and `value >= 1`
unfoldable pub positive_int : Value → Option ℤ
positive_int (Value.int n) = if ltb_ℤ n (pos 1) then none else some n
positive_int _ = none

module _ (P : Platform) where
  unfoldable pub canonical : Value → Result Bytes
  canonical v = or_raise (P.dumps v) value_error

  unfoldable pub canonical_all : List Value → Result (List Bytes)
  canonical_all [] = ok []
  canonical_all (v ∷ vs) = do b ← canonical v; bs ← canonical_all vs; ok (b ∷ bs)

  unfoldable pub fixture : Value → List Value → Value → Result Snapshot
  fixture revision rules approval = do
    n ← or_raise (positive_int revision) value_error
    raise_if (ltb 100 (length rules) || not (truthy approval)) value_error
    check_rules rules
    bs ← canonical_all rules
    ok (record { revision = n; rules = bs; approval = approval })

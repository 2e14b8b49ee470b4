-- ===== src/Runtime/Picking.antt =====
-- What holds of every identity that is picked of a selection.
use azd_santa.Base.{String, Bool, true, Option, none, some, List, [], ◌∷◌, ◌≡◌, refl, subst, arith}
use azd_santa.Base.{◌==◌, contains, All, if_cases, string_eq}
use azd_santa.Base.Dict.{Dict, lookup}
use azd_santa.Runtime.Rows.{every, has_item}
use azd_santa.Runtime.Containers.{values, cons_found, pick}

some-injective : {A : Type 0} {a b : A} → some a ≡ some b → a ≡ b
some-injective h = cc

pub has_item-contains :
    (e : Dict String String) (k v : String)
    → has_item ◌==◌ e (k, v) ≡ true
    → contains (values e) v ≡ true
unfolding lookup
has_item-contains [] k v h = cc
has_item-contains ((j, w) ∷ e) k v h = ground (arith, has_item-contains e k v)

pub lookup-every :
    (p : String × String → Bool) (P : String → Type 0)
    → ((k v : String) → p (k, v) ≡ true → P v)
    → (d : Dict String String) → every p d ≡ true
    → (n : String) {v : String} → lookup n d ≡ some v
    → P v
unfolding lookup
lookup-every p P hp [] h n found = cc
lookup-every p P hp ((j, w) ∷ d) h n {v} found =
    if_cases (λ (o : Option String). o ≡ some v → P v) (n == j)
      (λ _ (same : some w ≡ some v). subst P (some-injective same) (hp j w (ground arith)))
      (λ _. lookup-every p P hp d (ground arith) n) found

pub cons_found-All :
    (P : String → Type 0) (o : Option String) (p : Option (List String)) {ids : List String}
    → ((v : String) → o ≡ some v → P v)
    → ((vs : List String) → p ≡ some vs → All P vs)
    → cons_found o p ≡ some ids
    → All P ids
cons_found-All P none p hv hvs h = cc
cons_found-All P (some v) none hv hvs h = cc
cons_found-All P (some v) (some vs) hv hvs h =
    subst (All P) (some-injective h) (hv v refl, hvs vs refl)

pub pick-All :
    (P : String → Type 0) (d : Dict String String)
    → ((n v : String) → lookup n d ≡ some v → P v)
    → (ns : List String) {ids : List String} → pick d ns ≡ some ids
    → All P ids
pick-All P d hp [] h = subst (All P) (some-injective h) tt
pick-All P d hp (n ∷ ns) h =
    cons_found-All P (lookup n d) (pick d ns) (hp n) (λ vs. pick-All P d hp ns) h

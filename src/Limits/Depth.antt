-- ===== src/Limits/Depth.antt =====
-- `_check_depth`: a scan of the text that follows quotes and escapes, against the nesting of a
-- document.
use azd_santa.Base.{ℕ, Bool, true, false, not, ◌||◌, List, [], ◌∷◌}
use azd_santa.Base.{◌=?◌, if◌then◌else◌}
use azd_santa.Base.Int.{ℤ, pos, ◌+ℤ◌, ◌-ℤ◌, ltb_ℤ}

abbrev pub is_open : ℕ → Bool
is_open c = c =? b'[' || c =? b'{'

abbrev pub is_close : ℕ → Bool
is_close c = c =? b']' || c =? b'}'

-- The loop of `_check_depth` over the code points left. `false` is the rejection.
unfoldable pub scan : ℕ → ℤ → Bool → Bool → List ℕ → Bool
scan maximum depth quoted escaped [] = true
scan maximum depth true true (c ∷ text) = scan maximum depth true false text
scan maximum depth true false (c ∷ text) =
    if c =? 92
    then scan maximum depth true true text
    else scan maximum depth (not (c =? 34)) false text
scan maximum depth false escaped (c ∷ text) =
    let opened = scan maximum (depth +ℤ pos 1) false escaped text in
    let closed = scan maximum (depth -ℤ pos 1) false escaped text in
    let other = scan maximum depth (c =? 34) escaped text in
    if c =? 34
    then other
    else if is_open c
    then (if ltb_ℤ (pos maximum) (depth +ℤ pos 1) then false else opened)
    else if is_close c
    then closed
    else other

unfoldable pub check_depth : List ℕ → ℕ → Bool
unfolding scan
check_depth text maximum = scan maximum (pos 0) false false text

-- ===== src/Base/Text.antt =====
-- Texts as lists of code points, and the character classes that the program's patterns use.
use Prim.Native.Nat.{ℕ, ◌+◌, ◌-◌, ◌*◌}
use Prim.Native.Char.{Char, code}
use Prim.Native.String.{String, ◌++◌}
use mathlib.Core.Bool.{Bool, true, false, ◌&&◌, ◌||◌}
use mathlib.Core.List.{List, [], ◌∷◌}
use mathlib.Core.Option.{Option, none, some}
use azd_santa.Base.Tests.{leb, ◌=?◌, if◌then◌else◌}
use azd_santa.Base.Lists.{length}

abbrev pub codes : String → List ℕ
codes String.[] = []
codes (String.◌∷◌ c s) = code c ∷ codes s

abbrev pub all : (ℕ → Bool) → List ℕ → Bool
all p [] = true
all p (c ∷ s) = p c && all p s

abbrev pub is_digit : ℕ → Bool
is_digit c = leb b'0' c && leb c b'9'

-- `[a-f0-9]`
abbrev pub is_hex : ℕ → Bool
is_hex c = is_digit c || leb b'a' c && leb c b'f'

-- `[A-Za-z0-9_-]`
abbrev pub is_token_char : ℕ → Bool
is_token_char c =
    is_digit c || leb b'A' c && leb c b'Z' || leb b'a' c && leb c b'z' || c =? b'_' || c =? b'-'

-- `re.fullmatch('[class]{n}', s)`
abbrev pub is_run : (ℕ → Bool) → ℕ → String → Bool
is_run p n s = length (codes s) =? n && all p (codes s)

-- `int(s)` of a text of ASCII digits
unfoldable pub decimal_from : ℕ → List ℕ → ℕ
decimal_from n [] = n
decimal_from n (c ∷ s) = decimal_from (n * 10 + (c - 48)) s

unfoldable pub decimal : String → ℕ
unfolding decimal_from
decimal s = decimal_from 0 (codes s)

-- `s + t` of texts
abbrev pub concat : String → String → String
concat s t = s ++ t

abbrev pub is_prefix : List ℕ → List ℕ → Bool
is_prefix [] t = true
is_prefix (c ∷ s) [] = false
is_prefix (c ∷ s) (d ∷ t) = c =? d && is_prefix s t

-- `text.startswith(start)`
abbrev pub starts_with : String → String → Bool
starts_with text start = is_prefix (codes start) (codes text)

-- `text.split(separator)`, for one character
unfoldable pub push_char : Char → List String → List String
push_char c [] = []
push_char c (part ∷ parts) = String.◌∷◌ c part ∷ parts

unfoldable pub split_at : ℕ → String → List String
unfolding push_char
split_at separator String.[] = "" ∷ []
split_at separator (String.◌∷◌ c text) =
    let rest = split_at separator text in
    if code c =? separator then "" ∷ rest else push_char c rest

-- `text[len(start):]`, where the text starts so
unfoldable pub after_start : String → String → Option String
after_start String.[] text = some text
after_start (String.◌∷◌ c start) String.[] = none
after_start (String.◌∷◌ c start) (String.◌∷◌ d text) =
    let rest = after_start start text in if code c =? code d then rest else none

-- `text.split(separator, 1)`, where the separator is there
unfoldable pub push_left : Char → Option (String × String) → Option (String × String)
push_left c none = none
push_left c (some (left, right)) = some (String.◌∷◌ c left, right)

unfoldable pub cut_at : ℕ → String → Option (String × String)
unfolding push_left
cut_at separator String.[] = none
cut_at separator (String.◌∷◌ c text) =
    let rest = cut_at separator text in
    if code c =? separator then some ("", text) else push_left c rest

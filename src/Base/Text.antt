-- ===== src/Base/Text.antt =====
-- Texts as the codes of their characters: white space, the classes of regular expressions, and lengths.
use Prim.Native.Char.{code}
use Prim.Native.Nat.{ℕ, ◌+◌}
use Prim.Native.String.{String}
use mathlib.Core.Bool.{Bool, true, false, ◌&&◌, ◌||◌}
use mathlib.Core.List.{List, [], ◌∷◌}
use vibe_go.Base.Tests.{◌==◌, ◌=s◌, leb, ltb, if◌then◌else◌}
use vibe_go.Base.Lists.{length}

abbrev pub codes : String → List ℕ
codes String.[] = []
codes (String.◌∷◌ c s) = code c ∷ codes s

abbrev pub all_in : (ℕ → Bool) → List ℕ → Bool
all_in p [] = true
all_in p (c ∷ cs) = p c && all_in p cs

abbrev pub some_in : (ℕ → Bool) → List ℕ → Bool
some_in p [] = false
some_in p (c ∷ cs) = p c || some_in p cs

abbrev pub between : ℕ → ℕ → ℕ → Bool
between least most n = leb least n && leb n most

abbrev pub is_letter : ℕ → Bool
is_letter c = between b'a' b'z' c || between b'A' b'Z' c

abbrev pub is_digit : ℕ → Bool
is_digit c = between b'0' b'9' c

abbrev pub is_hex : ℕ → Bool
is_hex c = between b'a' b'f' c || is_digit c

-- `[\r\n]`
abbrev pub is_line_end : ℕ → Bool
is_line_end c = (c == 10) || (c == 13)

-- `^[first][rest]{0,most}$`
abbrev pub has_shape : (ℕ → Bool) → (ℕ → Bool) → ℕ → List ℕ → Bool
has_shape first rest most [] = false
has_shape first rest most (c ∷ cs) = first c && all_in rest cs && leb (length cs) most

-- `length` of a string: the units of UTF-16.
abbrev pub units : List ℕ → ℕ
units [] = 0
units (c ∷ cs) = (if ltb 65535 c then 2 else 1) + units cs

-- The white space that `trim` removes.
abbrev pub is_space : ℕ → Bool
is_space c =
    between 9 13 c
    || between 8192 8202 c
    || (c == 32)
    || (c == 160)
    || (c == 5760)
    || (c == 8232)
    || (c == 8233)
    || (c == 8239)
    || (c == 8287)
    || (c == 12288)
    || (c == 65279)

unfoldable pub trim_start : String → String
trim_start String.[] = ""
trim_start (String.◌∷◌ c s) =
    let rest = trim_start s in if is_space (code c) then rest else String.◌∷◌ c s

unfoldable pub trim_end : String → String
trim_end String.[] = ""
trim_end (String.◌∷◌ c s) =
    let rest = trim_end s in if (rest =s "") && is_space (code c) then "" else String.◌∷◌ c rest

-- `trim`
unfoldable pub trim : String → String
unfolding trim_start trim_end
trim s = trim_end (trim_start s)

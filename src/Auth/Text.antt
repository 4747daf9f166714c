-- ===== src/Auth/Text.antt =====
-- The tests on texts of packages/auth/src/index.ts: paths, bearer tokens, addresses and digests. A text
-- is walked by its characters.
use Prim.Native.Char.{code}
use vibe_go.Base.{
  ℕ, suc, ◌+◌, String, Bool, true, false, not, ◌&&◌, ◌||◌, Option, none, some, List, [], ◌∷◌, ◌==◌,
  ◌=s◌, ltb, leb, if◌then◌else◌, map,
}

abbrev pub codes : String → List ℕ
codes String.[] = []
codes (String.◌∷◌ c s) = code c ∷ codes s

abbrev starts_with : List ℕ → List ℕ → Bool
starts_with [] cs = true
starts_with (p ∷ ps) [] = false
starts_with (p ∷ ps) (c ∷ cs) = (p == c) && starts_with ps cs

-- The text behind a prefix.
abbrev strip_prefix : List ℕ → String → Option String
strip_prefix [] s = some s
strip_prefix (p ∷ ps) String.[] = none
strip_prefix (p ∷ ps) (String.◌∷◌ c s) =
    let rest = strip_prefix ps s in if p == code c then rest else none

abbrev between : ℕ → ℕ → ℕ → Bool
between least most n = leb least n && leb n most

-- `path.split('?')[0]`
unfoldable pub before_query : String → String
before_query String.[] = ""
before_query (String.◌∷◌ c s) =
    let rest = before_query s in if code c == b'?' then "" else String.◌∷◌ c rest

-- Two characters outside ASCII fold to a letter under the flags `iu`.
abbrev fold : ℕ → ℕ
fold c =
    if between b'A' b'Z' c then c + 32 else if c == 8490 then b'k' else if c == 383 then b's' else c

abbrev token_at : List ℕ → Bool
token_at cs =
    starts_with (codes "token=") (map fold cs) || starts_with (codes "access_token=") (map fold cs)

abbrev token_after : List ℕ → Bool
token_after [] = false
token_after (c ∷ cs) = (((c == b'?') || (c == b'&')) && token_at cs) || token_after cs

-- `/(?:^|[?&])(token|access_token)=/iu`
unfoldable pub names_token : String → Bool
names_token path = token_at (codes path) || token_after (codes path)

-- White space and line ends of JavaScript.
abbrev is_white : ℕ → Bool
is_white c =
    between 9 13 c
    || (c == 32)
    || (c == 160)
    || (c == 5760)
    || between 8192 8202 c
    || (c == 8232)
    || (c == 8233)
    || (c == 8239)
    || (c == 8287)
    || (c == 12288)
    || (c == 65279)

abbrev trim_start : String → String
trim_start String.[] = ""
trim_start (String.◌∷◌ c s) =
    let rest = trim_start s in if is_white (code c) then rest else String.◌∷◌ c s

abbrev trim_end : String → String
trim_end String.[] = ""
trim_end (String.◌∷◌ c s) =
    let rest = trim_end s in if (rest =s "") && is_white (code c) then "" else String.◌∷◌ c rest

unfoldable pub trim : String → String
trim s = trim_end (trim_start s)

abbrev is_token_char : ℕ → Bool
is_token_char c =
    between b'A' b'Z' c || between b'a' b'z' c || between b'0' b'9' c || (c == b'_') || (c == b'-')

abbrev all_codes : (ℕ → Bool) → List ℕ → Bool
all_codes p [] = true
all_codes p (c ∷ cs) = p c && all_codes p cs

-- `parseBearer`
unfoldable pub parse_bearer : Option String → Option String
unfolding trim
parse_bearer none = none
parse_bearer (some value) = elim (strip_prefix (codes "Bearer ") (trim value)) [
  | none ↦ none
  | some token ↦
      if not (token =s "") && all_codes is_token_char (codes token) then some token else none
]

unfoldable pub is_safe_method : String → Bool
is_safe_method method = (method =s "GET") || (method =s "HEAD") || (method =s "OPTIONS")

abbrev strip_mapped : List ℕ → List ℕ → List ℕ → List ℕ
strip_mapped [] cs all = cs
strip_mapped (p ∷ ps) [] all = all
strip_mapped (p ∷ ps) (c ∷ cs) all =
    let rest = strip_mapped ps cs all in if p == c then rest else all

abbrev lower : ℕ → ℕ
lower c = if between b'A' b'Z' c then c + 32 else c

abbrev same_codes : List ℕ → List ℕ → Bool
same_codes [] [] = true
same_codes (a ∷ xs) (b ∷ ys) = (a == b) && same_codes xs ys
same_codes _ _ = false

is_loopback : List ℕ → Bool
is_loopback cs = same_codes cs (codes "::1") || starts_with (codes "127.") cs

-- An empty address is falsy; it is no loopback address either way.
unfoldable pub is_loopback_address : Option String → Bool
unfolding is_loopback
is_loopback_address none = false
is_loopback_address (some value) =
    is_loopback (strip_mapped (codes "::ffff:") (map lower (codes value)) (map lower (codes value)))

-- The length of a text in UTF-16.
abbrev pub units : List ℕ → ℕ
units [] = 0
units (c ∷ cs) = let rest = units cs in if ltb c 65536 then suc rest else suc (suc rest)

abbrev is_hex_digit : ℕ → Bool
is_hex_digit c = between b'0' b'9' c || between b'a' b'f' c

-- `/^[0-9a-f]{64}$/u`
unfoldable pub is_digest : String → Bool
is_digest s = (units (codes s) == 64) && all_codes is_hex_digit (codes s)

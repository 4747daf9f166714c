-- ===== src/Agent/Text.antt =====
-- `call.argumentsText.trim() || '{}'` of packages/agent/src/index.ts.
use Prim.Native.Char.{code}
use vibe_go.Base.{ℕ, String, Bool, ◌&&◌, ◌||◌, ◌==◌, ◌=s◌, leb, if◌then◌else◌}

-- The white space that `trim` removes.
is_space : ℕ → Bool
is_space c =
    (leb 9 c && leb c 13)
    || (leb 8192 c && leb c 8202)
    || (c == 32)
    || (c == 160)
    || (c == 5760)
    || (c == 8232)
    || (c == 8233)
    || (c == 8239)
    || (c == 8287)
    || (c == 12288)
    || (c == 65279)

trim_start : String → String
unfolding is_space
trim_start String.[] = ""
trim_start (String.◌∷◌ c s) =
    let rest = trim_start s in if is_space (code c) then rest else String.◌∷◌ c s

trim_end : String → String
unfolding is_space
trim_end String.[] = ""
trim_end (String.◌∷◌ c s) =
    let rest = trim_end s in if (rest =s "") && is_space (code c) then "" else String.◌∷◌ c rest

unfoldable pub arguments_or_object : String → String
unfolding trim_start trim_end
arguments_or_object text =
    if trim_end (trim_start text) =s "" then "{}" else trim_end (trim_start text)

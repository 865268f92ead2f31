-- ===== src/Skill/Text.antt =====
-- `String.prototype.trim`, as the workshops use it.
use Prim.Native.Char.{code}
use Prim.Native.String.{◌∷◌, []}
use skill_stew_api.Prelude.{
  ℕ, Bool, true, false, ◌&&◌, ◌||◌, ◌==◌, leb, String, if◌then◌else◌, Option, some, none,
}

-- White space and line ends, by their codes.
abbrev pub is_space : ℕ → Bool
is_space c =
    (leb 9 c && leb c 13)
    || c == 32
    || c == 160
    || c == 5760
    || (leb 8192 c && leb c 8202)
    || c == 8232
    || c == 8233
    || c == 8239
    || c == 8287
    || c == 12288
    || c == 65279

abbrev pub trim_start : String → String
trim_start [] = []
trim_start (c ∷ s) = let rest = trim_start s in if is_space (code c) then rest else c ∷ s

abbrev pub is_empty_text : String → Bool
is_empty_text [] = true
is_empty_text (c ∷ s) = false

abbrev pub trim_end : String → String
trim_end [] = []
trim_end (c ∷ s) =
    let rest = trim_end s in if is_space (code c) && is_empty_text rest then [] else c ∷ rest

unfoldable pub trim : String → String
trim s = trim_end (trim_start s)

-- `!text.trim()`
abbrev pub is_blank : String → Bool
is_blank s = is_empty_text (trim s)

-- `!text?.trim()`
abbrev pub lacks_words : Option String → Bool
lacks_words none = true
lacks_words (some s) = is_blank s

-- ===== src/Text.antt =====
-- Texts: f-strings, and `str.replace` of one character.
use Prim.Native.String.{String, ◌++◌}
use eu_saas.Prelude.{ℕ, Char, code, Bool, ◌&&◌, ◌||◌, List, [], ◌∷◌, nat_beq, leb, if◌then◌else◌}

-- An f-string, given its pieces.
abbrev pub format : List String → String
format [] = ""
format (s ∷ rest) = s ++ format rest

-- The code points of a text.
abbrev pub codes : String → List ℕ
codes String.[] = []
codes (String.◌∷◌ c s) = code c ∷ codes s

abbrev pub dash_to_underscore : Char → Char
dash_to_underscore c = if nat_beq (code c) b'-' then "_" else c

-- `s.replace('-', '_')`
unfoldable pub replace_dashes : String → String
replace_dashes String.[] = String.[]
replace_dashes (String.◌∷◌ c s) = String.◌∷◌ (dash_to_underscore c) (replace_dashes s)

-- `text.removeprefix(prefix)`, where `whole` is the text.
abbrev pub behind : String → String → String → String
behind whole String.[] text = text
behind whole (String.◌∷◌ p prefix) String.[] = whole
behind whole (String.◌∷◌ p prefix) (String.◌∷◌ c text) =
    let rest = behind whole prefix text in if nat_beq (code p) (code c) then rest else whole

unfoldable pub remove_prefix : String → String → String
remove_prefix prefix text = behind text prefix text

-- `str.isspace` of a code point of Latin-1, the characters of a header.
abbrev is_space : ℕ → Bool
is_space c = (leb 9 c && leb c 13) || (leb 28 c && leb c 32) || nat_beq c 0x85 || nat_beq c 0xA0

abbrev before : Char → String → String
before c String.[] = if is_space (code c) then String.[] else String.◌∷◌ c String.[]
before c (String.◌∷◌ d s) = String.◌∷◌ c (String.◌∷◌ d s)

abbrev without_end : String → String
without_end String.[] = String.[]
without_end (String.◌∷◌ c s) = before c (without_end s)

abbrev without_start : String → String
without_start String.[] = String.[]
without_start (String.◌∷◌ c s) =
    let rest = without_start s in if is_space (code c) then rest else String.◌∷◌ c s

-- `str.strip()`
unfoldable pub strip : String → String
strip s = without_end (without_start s)

-- ===== src/Text.antt =====
-- Texts by their characters, and the fragment of JavaScript's regular expressions that the program
-- uses. The engine is a part of the language; the patterns themselves stand with the code that
-- declares them. A character is a code point, which is the code unit outside surrogate pairs.
pub mod Codes
pub mod Decimal
pub mod Order
pub mod Rx
pub mod Trim
use Prim.Native.Char.{code}
use hdv_orchestrator.Common.{
  ℕ, ◌+◌, String, Bool, true, false, ◌||◌, ◌&&◌, List, [], ◌∷◌, leb, nat_beq, if◌then◌else◌,
}

abbrev pub codes : String → List ℕ
codes String.[] = []
codes (String.◌∷◌ c s) = code c ∷ codes s

-- `length` of a text: its UTF-16 code units, two for a character outside the basic plane.
abbrev pub code_units : List ℕ → ℕ
code_units [] = 0
code_units (c ∷ cs) = let rest = code_units cs in if leb 65536 c then 2 + rest else 1 + rest

-- `[A-Za-z0-9_]`, the class `\w`.
unfoldable pub is_word : ℕ → Bool
is_word c =
    (leb b'a' c && leb c b'z')
    || (leb b'A' c && leb c b'Z')
    || (leb b'0' c && leb c b'9')
    || nat_beq c b'_'

-- The class `\s`, which is also what `trim` removes.
unfoldable pub is_space : ℕ → Bool
is_space c =
    (leb 9 c && leb c 13)
    || nat_beq c 32
    || nat_beq c 160
    || nat_beq c 5760
    || (leb 8192 c && leb c 8202)
    || nat_beq c 8232
    || nat_beq c 8233
    || nat_beq c 8239
    || nat_beq c 8287
    || nat_beq c 12288
    || nat_beq c 65279

-- The class `.`: all but the line terminators.
unfoldable pub is_dot : ℕ → Bool
is_dot c = if nat_beq c 10 || nat_beq c 13 || nat_beq c 8232 || nat_beq c 8233 then false else true

-- The flag `i`, on the letters of ASCII.
unfoldable pub fold_case : ℕ → ℕ
fold_case c = if leb b'A' c && leb c b'Z' then c + 32 else c

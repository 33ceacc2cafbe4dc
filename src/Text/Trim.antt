-- ===== src/Text/Trim.antt =====
-- `trim`, and `toLowerCase` on the letters of ASCII; other letters are left as they are.
use Prim.Native.Char.{code}
use hdv_orchestrator.Common.{
  ◌-◌, String, ◌&&◌, List, [], ◌∷◌, leb, get_elem?, or_else, if◌then◌else◌, ◌==◌, string_eq, ◌≡◌,
  refl,
}
use Prim.Native.String.{◌++◌ as text_append}
use hdv_orchestrator.Text.{is_space}

trim_start : String → String
trim_start String.[] = ""
trim_start (String.◌∷◌ c s) =
    let rest = trim_start s in if is_space (code c) then rest else String.◌∷◌ c s

trim_end : String → String
trim_end String.[] = ""
trim_end (String.◌∷◌ c s) =
    let rest = trim_end s in if rest == "" && is_space (code c) then "" else String.◌∷◌ c rest

unfoldable pub trim : String → String
unfolding trim_start trim_end is_space
trim s = trim_end (trim_start s)

lower_letters : List String
lower_letters =
    "a" ∷ "b" ∷ "c" ∷ "d" ∷ "e" ∷ "f" ∷ "g" ∷ "h" ∷ "i" ∷ "j" ∷ "k" ∷ "l" ∷ "m" ∷ "n" ∷ "o" ∷ "p"
    ∷ "q" ∷ "r" ∷ "s" ∷ "t" ∷ "u" ∷ "v" ∷ "w" ∷ "x" ∷ "y" ∷ "z" ∷ []

unfoldable pub to_lower_case : String → String
unfolding lower_letters
to_lower_case String.[] = ""
to_lower_case (String.◌∷◌ c s) =
    let rest = to_lower_case s in
    if leb b'A' (code c) && leb (code c) b'Z'
    then text_append (or_else (get_elem? lower_letters (code c - b'A')) "") rest
    else String.◌∷◌ c rest

normalized : to_lower_case (trim "  Ada@Hdv.Dev ") ≡ "ada@hdv.dev"
unfolding to_lower_case trim
normalized = refl

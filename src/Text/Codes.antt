-- ===== src/Text/Codes.antt =====
-- A text is determined by its characters.
use Prim.Native.String
use text.Mathlib.TextEquality.{Char-path}
use text.Mathlib.TextLemmas.{nil-append, cons-append}
use Prim.Native.Char.{Char}
use hdv_orchestrator.Common.{◌≢◌, ◌==◌, ==_ne, string_eq, false, String, ◌++◌, ◌≡◌, refl}
use mathlib.Core.Path.{ap₂}
use hdv_orchestrator.Text.{codes}

pub codes_inj : (s t : String) → codes s ≡ codes t → s ≡ t
codes_inj String.[] String.[] h = refl
codes_inj String.[] (String.◌∷◌ d t) h = cc
codes_inj (String.◌∷◌ c s) String.[] h = cc
codes_inj (String.◌∷◌ c s) (String.◌∷◌ d t) h =
    ap₂ String.◌∷◌ (Char-path c d (cc)) (codes_inj s t (cc))

pub codes-append : (s t : String) → codes (String.◌++◌ s t) ≡ codes s ++ codes t
codes-append String.[] t = rw nil-append
codes-append (String.◌∷◌ c s) t = rw (cons-append, codes-append s t)

cons_ne : (c : Char) (s : String) → String.◌∷◌ c s ≢ ""
cons_ne c s e = cc

-- A text with a character is not the empty one.
pub nonempty : (c : Char) (s : String) → (String.◌∷◌ c s == "") ≡ false
nonempty c s = ==_ne (String.◌∷◌ c s) "" (cons_ne c s)

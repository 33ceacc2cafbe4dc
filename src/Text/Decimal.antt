-- ===== src/Text/Decimal.antt =====
-- A number as a template literal prints it.
pub mod Digits
use Prim.Native.String.{◌++◌ as text_append}
use hdv_orchestrator.Text.{codes}
use hdv_orchestrator.Common.{
  ℕ, zero, suc, ◌-◌, ◌/◌, ◌%◌, String, List, [], ◌∷◌, if◌then◌else◌, ltb, length, ◌≡◌, refl,
}

digit : ℕ → String
digit zero = "0"
digit (suc zero) = "1"
digit (suc (suc zero)) = "2"
digit (suc (suc (suc zero))) = "3"
digit (suc (suc (suc (suc zero)))) = "4"
digit (suc (suc (suc (suc (suc zero))))) = "5"
digit (suc (suc (suc (suc (suc (suc zero)))))) = "6"
digit (suc (suc (suc (suc (suc (suc (suc zero))))))) = "7"
digit (suc (suc (suc (suc (suc (suc (suc (suc zero)))))))) = "8"
digit _ = "9"

-- The number itself is fuel enough: each round divides by ten.
decimal_from : ℕ → ℕ → String
decimal_from zero n = digit n
decimal_from (suc fuel) n =
    let more = text_append (decimal_from fuel (n / 10)) (digit (n % 10)) in
    if ltb n 10 then digit n else more

unfoldable pub decimal : ℕ → String
unfolding decimal_from digit
decimal n = decimal_from n n

-- The parts of a template literal, joined.
abbrev pub template : List String → String
template [] = ""
template (s ∷ []) = s
template (s ∷ t ∷ ss) = text_append s (template (t ∷ ss))

decimal_test : decimal 20480 ≡ "20480"
unfolding decimal
decimal_test = refl

-- `xs.join(separator)`
abbrev pub join : String → List String → String
join separator [] = ""
join separator (s ∷ []) = s
join separator (s ∷ t ∷ ss) = text_append s (text_append separator (join separator (t ∷ ss)))

abbrev zeros : ℕ → String → String
zeros zero s = s
zeros (suc n) s = text_append "0" (zeros n s)

-- `n.toString().padStart(width, '0')`
unfoldable pub padded : ℕ → ℕ → String
unfolding decimal
padded width n = let s = decimal n in zeros (width - length (codes s)) s

padded_test : padded 8 42 ≡ "00000042"
unfolding padded
padded_test = refl

-- `s.slice(0, n)`
unfoldable pub slice_to : ℕ → String → String
slice_to zero s = ""
slice_to (suc n) String.[] = ""
slice_to (suc n) (String.◌∷◌ c s) = String.◌∷◌ c (slice_to n s)

-- ===== src/Text/Order.antt =====
-- The order `<` of texts, by their characters, as `sort` callbacks use it.
use hdv_orchestrator.Common.{
  ℕ, String, Bool, true, false, List, [], ◌∷◌, ltb, nat_beq, if◌then◌else◌, ◌≡◌, refl, arith,
}
use hdv_orchestrator.Text.{codes}

unfoldable pub codes_lt : List ℕ → List ℕ → Bool
codes_lt s [] = false
codes_lt [] (d ∷ t) = true
codes_lt (c ∷ s) (d ∷ t) =
    let rest = codes_lt s t in if ltb c d then true else if nat_beq c d then rest else false

unfoldable pub text_lt : String → String → Bool
unfolding codes_lt
text_lt a b = codes_lt (codes a) (codes b)

pub codes_lt_irrefl : (s : List ℕ) → codes_lt s s ≡ false
unfolding codes_lt
codes_lt_irrefl [] = refl
codes_lt_irrefl (c ∷ s) = ground (arith, codes_lt_irrefl s)

pub codes_lt_trans :
    (s t u : List ℕ) → codes_lt s t ≡ true → codes_lt t u ≡ true → codes_lt s u ≡ true
unfolding codes_lt
codes_lt_trans s [] u h k = cc
codes_lt_trans s (d ∷ t) [] h k = cc
codes_lt_trans [] (d ∷ t) (e ∷ u) h k = refl
codes_lt_trans (c ∷ s) (d ∷ t) (e ∷ u) h k = ground (arith, codes_lt_trans s t u)

pub codes_lt_total : (s t : List ℕ) → codes_lt s t ≡ false → codes_lt t s ≡ false → s ≡ t
unfolding codes_lt
codes_lt_total [] [] h k = refl
codes_lt_total [] (d ∷ t) h k = cc
codes_lt_total (c ∷ s) [] h k = cc
codes_lt_total (c ∷ s) (d ∷ t) h k = ground (arith, codes_lt_total s t)

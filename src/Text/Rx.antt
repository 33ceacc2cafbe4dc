-- ===== src/Text/Rx.antt =====
-- Matching with backtracking: from a position, every position where a match can end. A position
-- holds the character before it, for `\b`, and the text after it.
use hdv_orchestrator.Common.{
  ℕ, zero, suc, Bool, true, false, Option, none, some, List, [], ◌∷◌, ◌++◌, nat_beq, if◌then◌else◌,
  ◌≡◌, refl,
}
use hdv_orchestrator.Text.{codes, is_word, is_space, fold_case}

-- `chr p` is a character class, `many p` its repetition, `boundary` is `\b`, `stop` is `$`.
pub data Rx : Type 0 where
  empty boundary stop : Rx
  chr many : (ℕ → Bool) → Rx
  seq alt : Rx → Rx → Rx

abbrev pub Position : Type 0
Position = Option ℕ × List ℕ

many_ends : (ℕ → Bool) → Option ℕ → List ℕ → List Position
many_ends p prev [] = (prev, []) ∷ []
many_ends p prev (c ∷ s) =
    let rest = many_ends p (some c) s in (prev, c ∷ s) ∷ (if p c then rest else [])

abbrev word_at : Option ℕ → Bool
word_at none = false
word_at (some c) = is_word c

abbrev next_of : List ℕ → Option ℕ
next_of [] = none
next_of (c ∷ s) = some c

abbrev chr_ends : (ℕ → Bool) → List ℕ → List Position
chr_ends p [] = []
chr_ends p (c ∷ s) = if p c then (some c, s) ∷ [] else []

abbrev stop_ends : Option ℕ → List ℕ → List Position
stop_ends prev [] = (prev, []) ∷ []
stop_ends prev (c ∷ s) = []

each : (Position → List Position) → List Position → List Position
each f [] = []
each f (p ∷ ps) = f p ++ each f ps

unfoldable pub ends : Rx → Position → List Position
unfolding many_ends is_word each
ends empty at = at ∷ []
ends boundary at =
    if word_at at.0
    then (if word_at (next_of at.1) then [] else at ∷ [])
    else (if word_at (next_of at.1) then at ∷ [] else [])
ends stop at = stop_ends at.0 at.1
ends (chr p) at = chr_ends p at.1
ends (many p) at = many_ends p at.0 at.1
ends (seq r s) at = each (ends s) (ends r at)
ends (alt r s) at = ends r at ++ ends s at

abbrev is_nonempty : List Position → Bool
is_nonempty [] = false
is_nonempty (p ∷ ps) = true

-- `pattern.test(text)` for a pattern with no `^`: a match may begin anywhere.
search_from : Rx → Option ℕ → List ℕ → Bool
search_from r prev [] = is_nonempty (ends r (prev, []))
search_from r prev (c ∷ s) =
    let rest = search_from r (some c) s in if is_nonempty (ends r (prev, c ∷ s)) then true else rest

unfoldable pub test : Rx → List ℕ → Bool
unfolding search_from ends
test r s = search_from r none s

-- `pattern.test(text)` for a pattern that begins with `^`.
unfoldable pub test_start : Rx → List ℕ → Bool
unfolding ends
test_start r s = is_nonempty (ends r (none, s))

abbrev pub exactly : ℕ → Rx
exactly c = chr (λ d. nat_beq d c)

-- A literal text, and the same under the flag `i`.
abbrev pub word : List ℕ → Rx → Rx
word [] r = r
word (c ∷ s) r = seq (exactly c) (word s r)

abbrev pub word_i : List ℕ → Rx → Rx
word_i [] r = r
word_i (c ∷ s) r = seq (chr (λ d. nat_beq (fold_case d) c)) (word_i s r)

-- `r{n}`
abbrev pub times : ℕ → Rx → Rx → Rx
times zero r k = k
times (suc n) r k = seq r (times n r k)

abbrev pub spaces : Rx
spaces = many is_space

abbrev pub spaces1 : Rx
spaces1 = seq (chr is_space) (many is_space)

find_word :
    test
      (seq boundary (word_i (codes "rm") (seq spaces1 (word_i (codes "-rf") boundary))))
      (codes "now RM  -rf /")
    ≡ true
unfolding test fold_case is_space
find_word = refl

-- ===== src/Knoll/Laws/Patterns.antt =====
-- hdv-foundation/knoll/laws.ts, `MALICIOUS_PATTERNS`, each with its text as a template literal
-- prints it. The letters of a pattern under the flag `i` are in lower case.
use hdv_orchestrator.Common.{ℕ, String, Option, none, some, List, [], ◌∷◌, if◌then◌else◌, ◌≡◌, refl}
use hdv_orchestrator.Text.{codes, is_dot, is_space, fold_case}
use hdv_orchestrator.Text.Rx.{
  Rx, empty, boundary, seq, alt, many, word, word_i, spaces, spaces1, test,
}

abbrev text_i : String → Rx → Rx
text_i s r = word_i (codes s) r

-- `\bA\s+B\b` under the flag `i`
abbrev two_words : String → String → Rx
two_words a b = seq boundary (text_i a (seq spaces1 (text_i b boundary)))

steal : Rx
unfolding is_space fold_case
steal = seq boundary (
    text_i "steal" (
      seq spaces1 (
        seq
          (alt (text_i "credentials" empty)
            (alt (text_i "secrets" empty) (alt (text_i "tokens" empty) (text_i "passwords" empty))))
          boundary)))

silence : Rx
unfolding is_space fold_case
silence = seq boundary (
    seq (alt (text_i "disable" empty) (alt (text_i "bypass" empty) (text_i "kill" empty)))
      (seq spaces1 (text_i "knoll" boundary)))

fork_bomb : Rx
unfolding is_space is_dot
fork_bomb = word (codes ":()") (
    seq spaces (
      word (codes "{") (
        seq (many is_dot) (
          word (codes "}") (seq spaces (word (codes ";") (seq spaces (word (codes ":") empty))))))))

unfoldable pub malicious_patterns : List (Rx × String)
unfolding is_space is_dot fold_case steal silence fork_bomb
malicious_patterns =
    (two_words "rm" "-rf", "/\\brm\\s+-rf\\b/i")
    ∷ (two_words "drop" "table", "/\\bdrop\\s+table\\b/i")
    ∷ (two_words "delete" "from", "/\\bdelete\\s+from\\b/i")
    ∷ (text_i ";" (seq spaces (text_i "shutdown" boundary)), "/;\\s*shutdown\\b/i")
    ∷ (seq boundary (text_i "exfiltrate" boundary), "/\\bexfiltrate\\b/i")
    ∷ (steal, "/\\bsteal\\s+(?:credentials|secrets|tokens|passwords)\\b/i")
    ∷ (silence, "/\\b(?:disable|bypass|kill)\\s+knoll\\b/i")
    ∷ (seq boundary (text_i "fork" (seq spaces (text_i "bomb" boundary))), "/\\bfork\\s*bomb\\b/i")
    ∷ (fork_bomb, "/:\\(\\)\\s*\\{.*\\}\\s*;\\s*:/")
    ∷ []

first_match : List ℕ → List (Rx × String) → Option String
first_match haystack [] = none
first_match haystack ((pattern, text) ∷ patterns) =
    let rest = first_match haystack patterns in if test pattern haystack then some text else rest

-- The loop of `lawNoMaliciousIntent`: the first pattern that the text matches.
unfoldable pub first_pattern : List ℕ → Option String
unfolding first_match malicious_patterns test
first_pattern haystack = first_match haystack malicious_patterns

pattern_tests :
    (first_pattern (codes "please RM   -rf /") ≡ some "/\\brm\\s+-rf\\b/i")
    × (first_pattern (codes "x; shutdown now") ≡ some "/;\\s*shutdown\\b/i")
    × (first_pattern (codes "Kill  KNOLL!") ≡ some "/\\b(?:disable|bypass|kill)\\s+knoll\\b/i")
    × (first_pattern (codes ":() { x } ; :") ≡ some "/:\\(\\)\\s*\\{.*\\}\\s*;\\s*:/")
    × (first_pattern (codes "confirm -rf and skill knolls") ≡ none)
unfolding first_pattern
pattern_tests = (refl, refl, refl, refl, refl)

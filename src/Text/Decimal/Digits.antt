-- ===== src/Text/Decimal/Digits.antt =====
-- The number that decimal digits stand for, and that a printed number, padded or not, reads as itself.
use hdv_orchestrator.Text.{codes}
use hdv_orchestrator.Text.Codes.{codes-append}
use hdv_orchestrator.Common.{
  ℕ, zero, suc, ◌+◌, ◌-◌, ◌*◌, ◌/◌, ◌%◌, ◌<◌, ◌≤◌, String, List, [], ◌∷◌, ◌++◌, ltb, length, ◌≡◌,
  refl, ◌∙◌, sym, ap, arith, inl, inr, Bool-cases,
}
use hdv_orchestrator.Text.Decimal.{decimal, decimal_from, digit, padded, zeros}

read_from : ℕ → List ℕ → ℕ
read_from acc [] = acc
read_from acc (c ∷ cs) = read_from (acc * 10 + (c - 48)) cs

read_from-append :
    (acc : ℕ) (xs ys : List ℕ) → read_from acc (xs ++ ys) ≡ read_from (read_from acc xs) ys
unfolding read_from
read_from-append acc [] ys = refl
read_from-append acc (x ∷ xs) ys = read_from-append (acc * 10 + (x - 48)) xs ys

codes-digit : (d : ℕ) → d < 10 → codes (digit d) ≡ (d + 48) ∷ []
unfolding digit
codes-digit zero h = refl
codes-digit (suc zero) h = refl
codes-digit (suc (suc zero)) h = refl
codes-digit (suc (suc (suc zero))) h = refl
codes-digit (suc (suc (suc (suc zero)))) h = refl
codes-digit (suc (suc (suc (suc (suc zero))))) h = refl
codes-digit (suc (suc (suc (suc (suc (suc zero)))))) h = refl
codes-digit (suc (suc (suc (suc (suc (suc (suc zero))))))) h = refl
codes-digit (suc (suc (suc (suc (suc (suc (suc (suc zero)))))))) h = refl
codes-digit (suc (suc (suc (suc (suc (suc (suc (suc (suc zero))))))))) h = refl
codes-digit (suc (suc (suc (suc (suc (suc (suc (suc (suc (suc n)))))))))) h = absurd (omega arith)

read-digit : (acc d : ℕ) → d < 10 → read_from acc (codes (digit d)) ≡ acc * 10 + d
unfolding read_from
read-digit acc d h = rw (codes-digit d h) (omega arith)

read-decimal_from : (fuel n : ℕ) → n ≤ fuel → read_from 0 (codes (decimal_from fuel n)) ≡ n
unfolding decimal_from
read-decimal_from zero n h = read-digit 0 n (omega arith) ∙ omega arith
read-decimal_from (suc fuel) n h = elim (Bool-cases (ltb n 10)) [
  | inl small ↦ rw small (read-digit 0 n (ground arith) ∙ omega arith)
  | inr large ↦
      let big : 10 ≤ n = ground arith in
      let more = read-decimal_from fuel (n / 10) (omega arith) in
      rw (large, codes-append, read_from-append)
        (read-digit (read_from 0 (codes (decimal_from fuel (n / 10)))) (n % 10) (omega arith)
          ∙ omega arith)
]

read-zeros : (k : ℕ) (s : String) → read_from 0 (codes (zeros k s)) ≡ read_from 0 (codes s)
unfolding read_from
read-zeros zero s = refl
read-zeros (suc k) s = rw codes-append (read-zeros k s)

read-padded : (width n : ℕ) → read_from 0 (codes (padded width n)) ≡ n
unfolding padded decimal
read-padded width n =
    read-zeros (width - length (codes (decimal n))) (decimal n)
    ∙ read-decimal_from n n (omega arith)

-- A padded number is determined by its text.
pub padded_inj : (width n m : ℕ) → padded width n ≡ padded width m → n ≡ m
padded_inj width n m h =
    sym (read-padded width n) ∙ ap (λ s. read_from 0 (codes s)) h ∙ read-padded width m

-- ===== src/Auth/Password/Stored.antt =====
-- A stored password of hdv-foundation/auth/service.ts verifies against the password it was made of.
use Prim.Native.Char.{Char, code}
use Prim.Native.String.{◌++◌ as text_append}
use mathlib.Core.Path.{subst}
use text.Mathlib.TextLemmas.{nil-append, cons-append, append_assoc}
use hdv_orchestrator.Common.{
  ℕ, zero, suc, ◌+◌, ◌*◌, ◌/◌, ◌%◌, ◌<◌, String, true, false, some, List, [], ◌∷◌, nat_beq, All,
  ◌==◌, ==_refl, nat_eq, string_eq, length, ◌≡◌, refl, arith, Bool-cases, inl, inr, nat_beq_iff, ap,
  ◌∙◌,
}
use hdv_orchestrator.Text.{codes}
use hdv_orchestrator.Text.Codes.{codes-append, nonempty}
use hdv_orchestrator.Auth.Password.{
  hex_digit, hex_value, byte_of, with_byte, to_hex, from_hex, same_bytes, split_colon,
  hash_password, verify_with, verify_password,
}

-- What a digit gives back: one character, which is no colon and has the digit's value.
abbrev Reads : ℕ → Type 0
Reads n =
    (c : Char) × (hex_digit n ≡ String.◌∷◌ c String.[])
    × (hex_value (code c) ≡ some n)
    × (nat_beq (code c) b':' ≡ false)

-- A predicate of every number below a bound.
abbrev Below : (ℕ → Type 0) → ℕ → Type 0
Below P zero = Unit
Below P (suc n) = P n × Below P n

at_Below : (P : ℕ → Type 0) (bound n : ℕ) → Below P bound → n < bound → P n
at_Below P zero n all h = absurd (omega (arith, h))
at_Below P (suc bound) n all h = elim (Bool-cases (nat_beq bound n)) [
  | inl e ↦ subst P ((nat_beq_iff bound n).0 e) all.0
  | inr e ↦ at_Below P bound n all.1 (ground (arith, nat_beq_iff bound n))
]

hex_digit-Reads : (n : ℕ) → n < 16 → Reads n
hex_digit-Reads n h =
    at_Below Reads 16 n
      (
        (_, refl, refl, refl),
        (
          (_, refl, refl, refl),
          (
            (_, refl, refl, refl),
            (
              (_, refl, refl, refl),
              (
                (_, refl, refl, refl),
                (
                  (_, refl, refl, refl),
                  (
                    (_, refl, refl, refl),
                    (
                      (_, refl, refl, refl),
                      (
                        (_, refl, refl, refl),
                        (
                          (_, refl, refl, refl),
                          (
                            (_, refl, refl, refl),
                            (
                              (_, refl, refl, refl),
                              (
                                (_, refl, refl, refl),
                                (
                                  (_, refl, refl, refl),
                                  ((_, refl, refl, refl), ((_, refl, refl, refl), tt)),
                                ),
                              ),
                            ),
                          ),
                        ),
                      ),
                    ),
                  ),
                ),
              ),
            ),
          ),
        ),
      )
      h

from_hex_pair :
    (a b n m : ℕ) (rest : List ℕ)
    → hex_value a ≡ some n
    → hex_value b ≡ some m
    → from_hex (a ∷ b ∷ rest) ≡ (16 * n + m) ∷ from_hex rest
unfolding from_hex
from_hex_pair a b n m rest ha hb = λ i. with_byte (byte_of (ha i) (hb i)) (from_hex rest)

from_hex_nil : from_hex [] ≡ []
unfolding from_hex
from_hex_nil = refl

from_hex-to_hex : (bs : List ℕ) → All (λ b. b < 256) bs → from_hex (codes (to_hex bs)) ≡ bs
unfolding to_hex
from_hex-to_hex [] h = from_hex_nil
from_hex-to_hex (b ∷ bs) h =
    let (c, high, c_value, c_colon) = hex_digit-Reads (b / 16) (omega (arith, h.0)) in
    let (d, low, d_value, d_colon) = hex_digit-Reads (b % 16) (omega arith) in
    let same : 16 * (b / 16) + b % 16 ≡ b = omega arith in
    ap from_hex (rw (codes-append, high, codes-append, low) refl)
    ∙ from_hex_pair (code c) (code d) (b / 16) (b % 16) (codes (to_hex bs)) c_value d_value
    ∙ (λ i. same i ∷ from_hex-to_hex bs h.1 i)

same_bytes_refl : (bs : List ℕ) → same_bytes bs bs ≡ true
unfolding same_bytes
same_bytes_refl [] = refl
same_bytes_refl (b ∷ bs) = rw (==_refl b, same_bytes_refl bs) refl

-- A digit before a text moves in front of what is split off.
split_digit :
    (n : ℕ) (s before after : String)
    → n < 16
    → split_colon s ≡ some (before, after)
    → split_colon (text_append (hex_digit n) s) ≡ some (text_append (hex_digit n) before, after)
unfolding split_colon
split_digit n s before after h e =
    let (c, digit, c_value, c_colon) = hex_digit-Reads n h in
    rw (digit, cons-append, nil-append, cons-append, nil-append, c_colon, e) refl

split_colon-to_hex :
    (bs : List ℕ) (s : String)
    → All (λ b. b < 256) bs
    → split_colon (text_append (to_hex bs) (text_append ":" s)) ≡ some (to_hex bs, s)
unfolding to_hex split_colon
split_colon-to_hex [] s h = rw (nil-append, cons-append, nil-append) refl
split_colon-to_hex (b ∷ bs) s h =
    let high = hex_digit (b / 16) in
    let low = hex_digit (b % 16) in
    let after = text_append ":" s in
    let grouped : text_append (text_append high (text_append low (to_hex bs))) after
        ≡ text_append high (text_append low (text_append (to_hex bs) after)) =
      append_assoc high (text_append low (to_hex bs)) after
      ∙ ap (text_append high) (append_assoc low (to_hex bs) after) in
    ap split_colon grouped
    ∙ split_digit (b / 16) _ _ s (omega (arith, h.0))
        (split_digit (b % 16) _ _ s (omega arith) (split_colon-to_hex bs s h.1))

to_hex_nonempty : (b : ℕ) (bs : List ℕ) → b < 256 → (to_hex (b ∷ bs) == "") ≡ false
unfolding to_hex
to_hex_nonempty b bs h =
    let (c, digit, c_value, c_colon) = hex_digit-Reads (b / 16) (omega (arith, h)) in
    rw (digit, cons-append) (nonempty c _)

-- What a hash is made of is a text of two parts, and it verifies.
verified :
    (scrypt : String → String → ℕ → List ℕ) (password salt : String) (bs : List ℕ)
    → (salt == "") ≡ false
    → All (λ b. b < 256) bs
    → length bs ≡ 64
    → scrypt password salt 64 ≡ bs
    → verify_with scrypt password (some (salt, to_hex bs)) ≡ true
unfolding verify_with
verified scrypt password salt [] filled bytes long made = absurd (omega (arith, long))
verified scrypt password salt (b ∷ bs) filled bytes long made =
    rw (filled, to_hex_nonempty b bs bytes.0, from_hex-to_hex (b ∷ bs) bytes, long, made, long)
      (same_bytes_refl (b ∷ bs))

-- If scrypt answers with as many bytes as it is asked for, a password verifies against the text that
-- `hashPassword` makes of it with any salt that is not empty.
pub verify_password-hash_password :
    (scrypt : String → String → ℕ → List ℕ) (password : String) (byte : ℕ) (salt : List ℕ)
    → ((p s : String) (n : ℕ) → length (scrypt p s n) ≡ n)
    → ((p s : String) (n : ℕ) → All (λ b. b < 256) (scrypt p s n))
    → All (λ b. b < 256) (byte ∷ salt)
    → verify_password scrypt password (hash_password scrypt (byte ∷ salt) password) ≡ true
unfolding verify_password hash_password
verify_password-hash_password scrypt password byte salt long bytes salted =
    let text = to_hex (byte ∷ salt) in
    ap (verify_with scrypt password) (split_colon-to_hex (byte ∷ salt) _ salted)
    ∙ verified scrypt password text (scrypt password text 64) (to_hex_nonempty byte salt salted.0)
        (bytes password text 64) (long password text 64) refl

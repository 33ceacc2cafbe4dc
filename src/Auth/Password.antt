-- ===== src/Auth/Password.antt =====
-- hdv-foundation/auth/service.ts, `hashPassword` and `verifyPassword`. `scrypt` stands for
-- `scryptSync` of node:crypto, from a password, a salt and a length to bytes; the bytes of the salt
-- are an argument. A buffer is the list of its bytes.
pub mod Stored
use Prim.Native.Char.{code}
use Prim.Native.String.{◌++◌ as text_append}
use hdv_orchestrator.Common.{
  ℕ, zero, suc, ◌+◌, ◌-◌, ◌*◌, ◌/◌, ◌%◌, String, Bool, true, false, ◌&&◌, Option, none, some, List,
  [], ◌∷◌, leb, nat_beq, get_elem?, or_else, if◌then◌else◌, ◌==◌, nat_eq, string_eq, length,
}
use hdv_orchestrator.Text.{codes}
use hdv_orchestrator.Text.Decimal.{template}

abbrev pub hex_digits : List String
hex_digits =
    "0" ∷ "1" ∷ "2" ∷ "3" ∷ "4" ∷ "5" ∷ "6" ∷ "7" ∷ "8" ∷ "9" ∷ "a" ∷ "b" ∷ "c" ∷ "d" ∷ "e" ∷ "f"
    ∷ []

abbrev pub hex_digit : ℕ → String
hex_digit n = or_else (get_elem? hex_digits n) ""

-- `buffer.toString('hex')`
unfoldable pub to_hex : List ℕ → String
to_hex [] = ""
to_hex (b ∷ bs) = text_append (hex_digit (b / 16)) (text_append (hex_digit (b % 16)) (to_hex bs))

abbrev pub hex_value : ℕ → Option ℕ
hex_value c =
    if leb b'0' c && leb c b'9'
    then some (c - b'0')
    else if leb b'a' c && leb c b'f'
    then some (c - b'a' + 10)
    else if leb b'A' c && leb c b'F'
    then some (c - b'A' + 10)
    else none

abbrev pub byte_of : Option ℕ → Option ℕ → Option ℕ
byte_of (some high) (some low) = some (16 * high + low)
byte_of _ _ = none

abbrev pub with_byte : Option ℕ → List ℕ → List ℕ
with_byte none bytes = []
with_byte (some byte) bytes = byte ∷ bytes

-- `Buffer.from(text, 'hex')`, which stops at the first pair that is no byte.
unfoldable pub from_hex : List ℕ → List ℕ
from_hex [] = []
from_hex (a ∷ []) = []
from_hex (a ∷ b ∷ rest) =
    let bytes = from_hex rest in with_byte (byte_of (hex_value a) (hex_value b)) bytes

-- `timingSafeEqual`
unfoldable pub same_bytes : List ℕ → List ℕ → Bool
same_bytes [] [] = true
same_bytes (x ∷ xs) (y ∷ ys) = x == y && same_bytes xs ys
same_bytes _ _ = false

-- The texts before and after the first colon.
unfoldable pub split_colon : String → Option (String × String)
split_colon String.[] = none
split_colon (String.◌∷◌ c s) =
    let rest = split_colon s in
    if nat_beq (code c) b':'
    then some ("", s)
    else elim rest [ none ↦ none | some parts ↦ some (String.◌∷◌ c parts.0, parts.1) ]

unfoldable pub hash_password : (String → String → ℕ → List ℕ) → List ℕ → String → String
unfolding to_hex
hash_password scrypt salt_bytes password =
    let salt = to_hex salt_bytes in template (salt ∷ ":" ∷ to_hex (scrypt password salt 64) ∷ [])

unfoldable pub verify_with :
    (String → String → ℕ → List ℕ) → String → Option (String × String) → Bool
unfolding from_hex same_bytes
verify_with scrypt password none = false
verify_with scrypt password (some (salt, hash_hex)) =
    let expected = from_hex (codes hash_hex) in
    let candidate = scrypt password salt (length expected) in
    if salt == ""
    then false
    else if hash_hex == ""
    then false
    else if length expected == 0
    then false
    else if length candidate == length expected
    then same_bytes candidate expected
    else false

unfoldable pub verify_password : (String → String → ℕ → List ℕ) → String → String → Bool
unfolding verify_with split_colon
verify_password scrypt password stored = verify_with scrypt password (split_colon stored)

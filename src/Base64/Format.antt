-- ===== src/Base64/Format.antt =====
-- The base 64 format as RFC 1521 describes it: 24-bit groups, cut into four digits.
use league_ranker.Prelude.{ℕ, ◌+◌, ◌*◌, ◌/◌, ◌%◌, ◌^◌, ◌≡◌, ◌<◌, refl, List, [], ◌∷◌, length, arith}
use league_ranker.Prelude.Bits.{bit_and-mask}
use league_ranker.Base64.{char, pad, output}

abbrev pub IsByte : ℕ → Type 0
IsByte b = b < 256

-- The four digits of a group of 24 bits.
abbrev pub digits : ℕ → List ℕ
digits n = n / 2 ^ 18 ∷ n / 2 ^ 12 % 64 ∷ n / 2 ^ 6 % 64 ∷ n % 64 ∷ []

-- Zero bits fill up a group that is cut short, and `pad` stands for its missing digits.
unfoldable pub encoded : List ℕ → List ℕ
encoded (a ∷ b ∷ c ∷ bytes) =
    let n = a * 2 ^ 16 + b * 2 ^ 8 + c in
    char (n / 2 ^ 18)
    ∷ char (n / 2 ^ 12 % 64)
    ∷ char (n / 2 ^ 6 % 64)
    ∷ char (n % 64)
    ∷ encoded bytes
encoded (a ∷ b ∷ []) =
    let n = a * 2 ^ 16 + b * 2 ^ 8 + 0 in
    char (n / 2 ^ 18) ∷ char (n / 2 ^ 12 % 64) ∷ char (n / 2 ^ 6 % 64) ∷ pad ∷ []
encoded (a ∷ []) =
    let n = a * 2 ^ 16 + 0 * 2 ^ 8 + 0 in
    char (n / 2 ^ 18) ∷ char (n / 2 ^ 12 % 64) ∷ pad ∷ pad ∷ []
encoded [] = []

pub length-encoded : (bytes : List ℕ) → length (encoded bytes) ≡ (length bytes + 2) / 3 * 4
unfolding encoded
length-encoded (a ∷ b ∷ c ∷ bytes) = omega (arith, length-encoded bytes)
length-encoded (a ∷ b ∷ []) = refl
length-encoded (a ∷ []) = refl
length-encoded [] = refl

-- The shifts and masks of the C code give the digits.
pub output-digits :
    (a b c : ℕ)
    → IsByte a
    → IsByte b
    → IsByte c
    → output a b c ≡ digits (a * 2 ^ 16 + b * 2 ^ 8 + c)
output-digits a b c ha hb hc = ground (arith, bit_and-mask 2 a, bit_and-mask 4 b, bit_and-mask 6 c)

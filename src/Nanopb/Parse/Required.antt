-- ===== src/Nanopb/Parse/Required.antt =====
-- The check of required fields: the words of `fields_seen` against the set of fields that were seen.
use native.Mathlib.Nat.{pow-suc, one-le-pow, pow-le-pow_right, div-div-eq-div-mul}
use league_ranker.Prelude.{
  ℕ, zero, suc, ◌+◌, ◌-◌, ◌*◌, ◌/◌, ◌%◌, ◌^◌, ◌≤◌, ◌<◌, ◌≡◌, ◌↔◌, ◌∙◌, refl, ap, sym, bit_or, Bool,
  true, false, ◌||◌, List, [], ◌∷◌, Bool-cases, inl, inr, ltb, ◌==◌, if◌then◌else◌, arith,
}
use league_ranker.Prelude.Bits.{bit_or_step, bit_or_comm, zero-bit_or}
use league_ranker.Nanopb.Parse.Whole.{see, words_seen, all_seen}

-- The binary digit `j` of a number.
unfoldable bit : ℕ → ℕ → ℕ
bit a zero = a % 2
bit a (suc j) = bit (a / 2) j

bit-le : (a j : ℕ) → bit a j ≤ 1
unfolding bit
bit-le a zero = omega arith
bit-le a (suc j) = bit-le (a / 2) j

bit-zero : (j : ℕ) → bit 0 j ≡ 0
unfolding bit
bit-zero zero = refl
bit-zero (suc j) = bit-zero j

half-bit_or : (a b : ℕ) → bit_or a b / 2 ≡ bit_or (a / 2) (b / 2)
half-bit_or a b = ground (arith, bit_or_step a b)

half-pow : (k : ℕ) → 2 ^ suc k / 2 ≡ 2 ^ k
half-pow k = omega (arith, pow-suc 2 k)

-- A bit of `a | 2 ^ k`.
bit-mark : (k a j : ℕ) → bit (bit_or a (2 ^ k)) j ≡ (if j == k then 1 else bit a j)
unfolding bit
bit-mark zero a zero = ground (arith, bit_or_step a 1)
bit-mark zero a (suc j) =
    ap (λ x. bit x j) (half-bit_or a 1)
    ∙ ap (λ x. bit x j) (bit_or_comm (a / 2) 0 ∙ zero-bit_or (a / 2))
    ∙ ground arith
bit-mark (suc k) a zero = ground (arith, bit_or_step a (2 ^ suc k), pow-suc 2 k)
bit-mark (suc k) a (suc j) =
    ap (λ x. bit x j) (half-bit_or a (2 ^ suc k) ∙ ap (λ x. bit_or (a / 2) x) (half-pow k))
    ∙ bit-mark k (a / 2) j
    ∙ ground arith

bit_or-lt : (r a b : ℕ) → a < 2 ^ r → b < 2 ^ r → bit_or a b < 2 ^ r
bit_or-lt zero a b h k = ground arith
bit_or-lt (suc r) a b h k = ground (
  arith,
  bit_or_step a b,
  pow-suc 2 r,
  bit_or-lt r (a / 2) (b / 2) (omega (arith, pow-suc 2 r)) (omega (arith, pow-suc 2 r)),
)

-- A number of `r` digits is the largest just if all of them are 1.
largest-bit : (r a : ℕ) → a ≡ 2 ^ r - 1 → (j : ℕ) → j < r → bit a j ≡ 1
unfolding bit
largest-bit zero a e j h = absurd (omega arith)
largest-bit (suc r) a e zero h = omega (arith, pow-suc 2 r, one-le-pow r 2 (omega arith))
largest-bit (suc r) a e (suc j) h =
    largest-bit r (a / 2) (omega (arith, pow-suc 2 r, one-le-pow r 2 (omega arith))) j (omega arith)

largest_of_bits : (r a : ℕ) → a < 2 ^ r → ((j : ℕ) → j < r → bit a j ≡ 1) → a ≡ 2 ^ r - 1
unfolding bit
largest_of_bits zero a small h = omega arith
largest_of_bits (suc r) a small h =
    let low = h 0 (omega arith) in
    let high =
      largest_of_bits r (a / 2) (omega (arith, pow-suc 2 r)) (λ j l. h (suc j) (omega arith)) in
    omega (arith, low, high, pow-suc 2 r, one-le-pow r 2 (omega arith))

-- The fields that were seen, in the order in which they were, and their words.
unfoldable pub marks : List ℕ → ℕ → ℕ
unfolding see
marks [] = λ i. 0
marks (k ∷ ks) = see k (marks ks)

unfoldable pub member : ℕ → List ℕ → Bool
member i [] = false
member i (k ∷ ks) = (i == k) || member i ks

marks-bit :
    (ks : List ℕ) (i j : ℕ)
    → j < 32
    → bit (marks ks i) j ≡ (if member (32 * i + j) ks then 1 else 0)
unfolding marks member see
marks-bit [] i j h = bit-zero j
marks-bit (k ∷ ks) i j h = ground (arith, bit-mark (k % 32) (marks ks i) j, marks-bit ks i j h)

words_seen-all :
    (m : ℕ) (seen : ℕ → ℕ) → words_seen m seen ≡ true → (i : ℕ) → i < m → seen i ≡ 2 ^ 32 - 1
unfolding words_seen
words_seen-all zero seen e i h = absurd (omega arith)
words_seen-all (suc m) seen e i h = elim (Bool-cases (i == m)) [
  | inl here ↦ let eq : i ≡ m = ground (arith, here) in ap seen eq ∙ ground (arith, e)
  | inr other ↦ words_seen-all m seen (ground (arith, e)) i (ground (arith, other, h))
]

words_seen-true :
    (m : ℕ) (seen : ℕ → ℕ) → ((i : ℕ) → i < m → seen i ≡ 2 ^ 32 - 1) → words_seen m seen ≡ true
unfolding words_seen
words_seen-true zero seen h = refl
words_seen-true (suc m) seen h =
    ground (arith, h m (omega arith), words_seen-true m seen (λ i l. h i (omega arith)))

-- The marks in the word `i` are among its lowest `r` digits.
abbrev Fits : ℕ → ℕ → List ℕ → Type 0
Fits i r ks = (k : ℕ) → member k ks ≡ true → k / 32 ≡ i → k % 32 < r

Fits-tail : (i r k : ℕ) (ks : List ℕ) → Fits i r (k ∷ ks) → Fits i r ks
unfolding member
Fits-tail i r k ks h n e = h n (ground (arith, e))

Fits-head : (i r k : ℕ) (ks : List ℕ) → Fits i r (k ∷ ks) → k / 32 ≡ i → k % 32 < r
unfolding member
Fits-head i r k ks h = h k (ground arith)

marks-lt : (ks : List ℕ) (i r : ℕ) → Fits i r ks → marks ks i < 2 ^ r
unfolding marks see
marks-lt [] i r h = one-le-pow r 2 (omega arith)
marks-lt (k ∷ ks) i r h =
    let rest = marks-lt ks i r (Fits-tail i r k ks h) in
    elim (Bool-cases (i == k / 32)) [
      | inl here ↦
          let low = Fits-head i r k ks h (ground (arith, here)) in
          let small : 2 ^ (k % 32) < 2 ^ r = omega (
            arith,
            pow-le-pow_right {n = 2} (omega arith) {i = suc (k % 32)} {j = r} (omega arith),
            pow-suc 2 (k % 32),
            one-le-pow (k % 32) 2 (omega arith),
          ) in
          ground (arith, here, bit_or-lt r (marks ks i) (2 ^ (k % 32)) rest small)
      | inr other ↦ ground (arith, other, rest)
    ]

-- A whole word, and the rest of the last one.
word_of :
    (ks : List ℕ) (i r : ℕ)
    → r ≤ 32
    → Fits i r ks
    → (marks ks i ≡ 2 ^ r - 1) ↔ ((j : ℕ) → j < r → member (32 * i + j) ks ≡ true)
word_of ks i r le h = (
  λ e j l. ground (arith, largest-bit r (marks ks i) e j l, marks-bit ks i j (omega arith)),
  λ all.
      largest_of_bits r (marks ks i) (marks-lt ks i r h)
        (λ j l. ground (arith, marks-bit ks i j (omega arith), all j l)),
)

shifted_mask : (d r : ℕ) → (2 ^ (d + r) - 1) / 2 ^ d ≡ 2 ^ r - 1
shifted_mask zero r = let e : 0 + r ≡ r = omega arith in ap (λ n. (2 ^ n - 1) / 1) e ∙ omega arith
shifted_mask (suc d) r =
    let e : suc d + r ≡ suc (d + r) = omega arith in
    let half : (2 ^ (suc d + r) - 1) / 2 ≡ 2 ^ (d + r) - 1 =
      ap (λ n. (2 ^ n - 1) / 2) e
      ∙ omega (arith, pow-suc 2 (d + r), one-le-pow (d + r) 2 (omega arith)) in
    let double : 2 ^ suc d ≡ 2 * 2 ^ d = omega (arith, pow-suc 2 d) in
    ap (λ m. (2 ^ (suc d + r) - 1) / m) double
    ∙ sym (div-div-eq-div-mul (2 ^ (suc d + r) - 1) 2 (2 ^ d))
    ∙ ap (λ x. x / 2 ^ d) half
    ∙ shifted_mask d r

last_mask : (r : ℕ) → r < 32 → (2 ^ 32 - 1) / 2 ^ (32 - r) ≡ 2 ^ r - 1
last_mask r h =
    let e : 32 ≡ 32 - r + r = omega arith in
    ap (λ n. (2 ^ n - 1) / 2 ^ (32 - r)) e ∙ shifted_mask (32 - r) r

module _ (n : ℕ) (ks : List ℕ) (h : (k : ℕ) → member k ks ≡ true → k < n) where
  whole_word :
      (i : ℕ)
      → i < n / 32
      → (marks ks i ≡ 2 ^ 32 - 1) ↔ ((j : ℕ) → j < 32 → member (32 * i + j) ks ≡ true)
  whole_word i l = word_of ks i 32 (omega arith) (λ k e f. omega arith)

  last_word :
      (marks ks (n / 32) ≡ 2 ^ (n % 32) - 1)
      ↔ ((j : ℕ) → j < n % 32 → member (32 * (n / 32) + j) ks ≡ true)
  last_word = word_of ks (n / 32) (n % 32) (omega arith) (λ k e f. omega (arith, h k e))

  -- A field by its word and its digit.
  at_digit : (i w : ℕ) → i / 32 ≡ w → member (32 * w + i % 32) ks ≡ true → member i ks ≡ true
  at_digit i w e m = let eq : i ≡ 32 * w + i % 32 = omega arith in ap (λ x. member x ks) eq ∙ m

  seen_of_check : all_seen n (marks ks) ≡ true → (i : ℕ) → i < n → member i ks ≡ true
  unfolding all_seen
  seen_of_check e i l = elim (Bool-cases (ltb (i / 32) (n / 32))) [
    | inl whole ↦
        let below : i / 32 < n / 32 = ground (arith, whole) in
        let word = words_seen-all (n / 32) (marks ks) (ground (arith, e)) (i / 32) below in
        at_digit i (i / 32) refl ((whole_word (i / 32) below).0 word (i % 32) (omega arith))
    | inr rest ↦
        let here : i / 32 ≡ n / 32 = ground (arith, rest) in
        let low : i % 32 < n % 32 = omega (arith, here) in
        let word : marks ks (n / 32) ≡ 2 ^ (n % 32) - 1 =
          ground (arith, e, last_mask (n % 32) (omega arith)) in
        at_digit i (n / 32) here (last_word.0 word (i % 32) low)
  ]

  check_of_seen : ((i : ℕ) → i < n → member i ks ≡ true) → all_seen n (marks ks) ≡ true
  unfolding all_seen
  check_of_seen all =
      let whole =
        words_seen-true (n / 32) (marks ks)
          (λ i l. (whole_word i l).1 (λ j k. all (32 * i + j) (omega arith))) in
      let last = last_word.1 (λ j k. all (32 * (n / 32) + j) (omega arith)) in
      ground (arith, whole, last, last_mask (n % 32) (omega arith))

-- The words of `fields_seen` pass the check for `n` required fields just if each of them was seen,
-- where nothing but required fields was marked.
pub required_exact :
    (n : ℕ) (ks : List ℕ)
    → ((k : ℕ) → member k ks ≡ true → k < n)
    → (all_seen n (marks ks) ≡ true) ↔ ((i : ℕ) → i < n → member i ks ≡ true)
required_exact n ks h = (seen_of_check n ks h, check_of_seen n ks h)

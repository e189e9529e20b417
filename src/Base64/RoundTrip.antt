-- ===== src/Base64/RoundTrip.antt =====
-- `f_b64_pton` on what `f_b64_ntop` stores.
use league_ranker.Prelude.{
  ℕ, ◌+◌, ◌*◌, ◌/◌, ◌%◌, ◌^◌, ◌≡◌, ◌≤◌, ◌<◌, refl, ap, ap₂, ◌∙◌, some, List, [], ◌∷◌, ◌++◌, length,
  take, drop, set, arith, All, length-append, length-set, get_or-set, take-append, append_assoc,
}
use league_ranker.Prelude.Memory.{write_at, write_at-append, write_at-eq, length-write_at}
use league_ranker.Base64.{
  char, pad, ntop, pton, pton_from, padding, second_pad, last_pad, blank, slopped,
}
use league_ranker.Base64.Format.{IsByte, encoded, length-encoded}
use league_ranker.Base64.Encode.{ntop_fits}
use league_ranker.Base64.Decode.{at, Char-char, pton_from-Char, digit_0, digit_1, digit_2, digit_3}

module _ (t : List ℕ) (targsize k : ℕ) (holds : targsize ≤ length t)
    (small : targsize < 2 ^ 32) where
  -- Two digits store a byte, and four bits of the next.
  two_digits :
      (v w : ℕ) (src : List ℕ)
      → v < 64
      → w < 64
      → k + 1 < targsize
      → pton_from (char v ∷ char w ∷ src) targsize (at t k 0)
        ≡ pton_from src targsize
            (at (set (set t k (v * 4 + w / 16)) (k + 1) (w % 16 * 16)) (k + 1) 2)
  two_digits v w src hv hw room =
      pton_from-Char v (char w ∷ src) targsize _ _ (Char-char v hv)
        (digit_0 t targsize k v hv (omega arith) (omega arith))
      ∙ pton_from-Char w src targsize _ _ (Char-char w hw)
          (digit_1 t targsize k w hw (omega arith) v hv (omega arith) room)

  -- Three store two bytes, and two bits of the next.
  three_digits :
      (v w x : ℕ) (src : List ℕ)
      → v < 64
      → w < 64
      → x < 64
      → k + 1 + 1 < targsize
      → pton_from (char v ∷ char w ∷ char x ∷ src) targsize (at t k 0)
        ≡ pton_from src targsize (
            at
              (set
                (set (set t k (v * 4 + w / 16)) (k + 1) (w % 16 * 16 + x / 4))
                (k + 1 + 1)
                (x % 4 * 64))
              (k + 1 + 1)
              3)
  three_digits v w x src hv hw hx room =
      two_digits v w (char x ∷ src) hv hw (omega arith)
      ∙ pton_from-Char x src targsize _ _ (Char-char x hx) (
          digit_2 (set t k (v * 4 + w / 16)) targsize (k + 1) x hx (omega arith) (w % 16)
            (omega arith) (omega (arith, length-set t k (v * 4 + w / 16))) room)

  four_digits :
      (v w x y : ℕ) (src : List ℕ)
      → v < 64
      → w < 64
      → x < 64
      → y < 64
      → k + 1 + 1 < targsize
      → pton_from (char v ∷ char w ∷ char x ∷ char y ∷ src) targsize (at t k 0)
        ≡ pton_from src targsize (
            at
              (write_at t k ((v * 4 + w / 16) ∷ (w % 16 * 16 + x / 4) ∷ (x % 4 * 64 + y) ∷ []))
              (k + 3)
              0)
  unfolding write_at
  four_digits v w x y src hv hw hx hy room =
      three_digits v w x (char y ∷ src) hv hw hx room
      ∙ pton_from-Char y src targsize _ _ (Char-char y hy) (
          digit_3 (set (set t k (v * 4 + w / 16)) (k + 1) (w % 16 * 16 + x / 4)) targsize
            (k + 1 + 1) y hy (omega arith) (x % 4) (omega arith)
            (omega (
              arith,
              length-set t k (v * 4 + w / 16),
              length-set (set t k (v * 4 + w / 16)) (k + 1) (w % 16 * 16 + x / 4),
            ))
            room)
      ∙ ground arith

  -- Two digits and two `pad`, or three digits and one, end with a cell of left over bits, zero.
  one_byte :
      (v w : ℕ)
      → v < 64
      → w < 64
      → w % 16 ≡ 0
      → k + 1 < targsize
      → pton_from (char v ∷ char w ∷ pad ∷ pad ∷ []) targsize (at t k 0)
        ≡ (k + 1, some (write_at t k ((v * 4 + w / 16) ∷ 0 ∷ [])))
  unfolding write_at pton_from padding second_pad last_pad blank slopped
  one_byte v w hv hw zeros room =
      two_digits v w (pad ∷ pad ∷ []) hv hw room
      ∙ ground (
        arith,
        get_or-set (set t k (v * 4 + w / 16)) (k + 1) 0 0
            (omega (arith, length-set t k (v * 4 + w / 16))),
      )

  two_bytes :
      (v w x : ℕ)
      → v < 64
      → w < 64
      → x < 64
      → x % 4 ≡ 0
      → k + 1 + 1 < targsize
      → pton_from (char v ∷ char w ∷ char x ∷ pad ∷ []) targsize (at t k 0)
        ≡ (k + 1 + 1, some (write_at t k ((v * 4 + w / 16) ∷ (w % 16 * 16 + x / 4) ∷ 0 ∷ [])))
  unfolding write_at pton_from padding second_pad last_pad blank slopped
  two_bytes v w x hv hw hx zeros room =
      three_digits v w x (pad ∷ []) hv hw hx room
      ∙ ground (
        arith,
        get_or-set (set (set t k (v * 4 + w / 16)) (k + 1) (w % 16 * 16 + x / 4)) (k + 1 + 1) 0 0 (
            omega (
              arith,
              length-set t k (v * 4 + w / 16),
              length-set (set t k (v * 4 + w / 16)) (k + 1) (w % 16 * 16 + x / 4),
            )),
      )

-- The cell that the last group leaves behind the bytes, where it is cut short.
abbrev slop : List ℕ → List ℕ
slop (a ∷ b ∷ c ∷ src) = slop src
slop (a ∷ b ∷ []) = 0 ∷ []
slop (a ∷ []) = 0 ∷ []
slop [] = []

length-slop : (src : List ℕ) → length (slop src) ≤ 1
length-slop (a ∷ b ∷ c ∷ src) = length-slop src
length-slop (a ∷ b ∷ []) = omega arith
length-slop (a ∷ []) = omega arith
length-slop [] = omega arith

-- The bytes of a group, from its four digits.
module _ (a b c : ℕ) (ha : IsByte a) (hb : IsByte b) (hc : IsByte c) where
  abbrev group : ℕ
  group = a * 2 ^ 16 + b * 2 ^ 8 + c

  first_byte : group / 2 ^ 18 * 4 + group / 2 ^ 12 % 64 / 16 ≡ a
  first_byte = omega arith

  second_byte : group / 2 ^ 12 % 64 % 16 * 16 + group / 2 ^ 6 % 64 / 4 ≡ b
  second_byte = omega arith

  third_byte : group / 2 ^ 6 % 64 % 4 * 64 + group % 64 ≡ c
  third_byte = omega arith

  group_bytes :
      (group / 2 ^ 18 * 4 + group / 2 ^ 12 % 64 / 16)
        ∷ (group / 2 ^ 12 % 64 % 16 * 16 + group / 2 ^ 6 % 64 / 4)
        ∷ (group / 2 ^ 6 % 64 % 4 * 64 + group % 64)
        ∷ []
      ≡ a ∷ b ∷ c ∷ []
  group_bytes = rw (first_byte, second_byte, third_byte) refl

pton_from-encoded :
    (src t : List ℕ) (targsize k : ℕ)
    → All IsByte src
    → targsize ≤ length t
    → targsize < 2 ^ 32
    → k + length src < targsize
    → pton_from (encoded src) targsize (at t k 0)
      ≡ (k + length src, some (write_at t k (src ++ slop src)))
unfolding encoded
pton_from-encoded (a ∷ b ∷ c ∷ src) t targsize k h holds small room =
    let n = a * 2 ^ 16 + b * 2 ^ 8 + c in
    let bytes = a ∷ b ∷ c ∷ [] in
    four_digits t targsize k holds small (n / 2 ^ 18) (n / 2 ^ 12 % 64) (n / 2 ^ 6 % 64) (n % 64)
      (encoded src) (omega (arith, h.0, h.1.0, h.1.1.0)) (omega arith) (omega arith) (omega arith)
      (omega arith)
    ∙ ap (λ bs. pton_from (encoded src) targsize (at (write_at t k bs) (k + 3) 0))
        (group_bytes a b c h.0 h.1.0 h.1.1.0)
    ∙ pton_from-encoded src (write_at t k bytes) targsize (k + 3) h.1.1.1
        (omega (arith, length-write_at t k bytes)) small (omega arith)
    ∙ ap₂ (λ (i : ℕ) m. (i, some m)) (omega arith) (write_at-append t k bytes (src ++ slop src))
pton_from-encoded (a ∷ b ∷ []) t targsize k h holds small room =
    let n = a * 2 ^ 16 + b * 2 ^ 8 + 0 in
    two_bytes t targsize k holds small (n / 2 ^ 18) (n / 2 ^ 12 % 64) (n / 2 ^ 6 % 64)
      (omega (arith, h.0, h.1.0)) (omega arith) (omega arith) (omega arith) (omega arith)
    ∙ ap₂ (λ (i : ℕ) m. (i, some m)) (omega arith)
        (ap₂ (λ x y. write_at t k (x ∷ y ∷ 0 ∷ [])) (omega (arith, h.0, h.1.0))
          (omega (arith, h.0, h.1.0)))
pton_from-encoded (a ∷ []) t targsize k h holds small room =
    let n = a * 2 ^ 16 + 0 * 2 ^ 8 + 0 in
    one_byte t targsize k holds small (n / 2 ^ 18) (n / 2 ^ 12 % 64) (omega (arith, h.0))
      (omega arith) (omega arith) (omega arith)
    ∙ ap (λ x. (k + 1, some (write_at t k (x ∷ 0 ∷ [])))) (omega (arith, h.0))
pton_from-encoded [] t targsize k h holds small room =
    unfold pton_from write_at in ap (λ (i : ℕ). (i, some t)) (omega arith)

-- `f_b64_pton` takes the characters of the format back to the bytes, in a target that has a cell
-- more than them, and returns their number.
pub pton-encoded :
    (src t : List ℕ) (targsize : ℕ)
    → All IsByte src
    → targsize ≤ length t
    → targsize < 2 ^ 32
    → length src < targsize
    → pton (encoded src) (some t) targsize
      ≡ (length src, some ((src ++ slop src) ++ drop (length (src ++ slop src)) t))
unfolding pton
pton-encoded src t targsize h holds small room =
    pton_from-encoded src t targsize 0 h holds small (omega arith)
    ∙ ap₂ (λ (i : ℕ) m. (i, some m)) (omega arith)
        (write_at-eq t 0 (src ++ slop src)
            (omega (arith, length-append src (slop src), length-slop src))
          ∙ ap (λ n. (src ++ slop src) ++ drop n t) (omega arith))

-- Bytes that `f_b64_ntop` has room for, a NUL included, are read back from its characters by
-- `f_b64_pton` into a target that has a cell more than them.
pub base64_round_trip :
    (src enc dec : List ℕ) (encsize decsize : ℕ)
    → All IsByte src
    → encsize < 2 ^ 31
    → encsize ≤ length enc
    → (length src + 2) / 3 * 4 < encsize
    → decsize < 2 ^ 32
    → decsize ≤ length dec
    → length src < decsize
    → let (n, chars) = ntop src enc encsize in
      let (m, bytes) = pton (take n chars) (some dec) decsize in
      (m ≡ length src) × ((t : List ℕ) × (bytes ≡ some t) × (take m t ≡ src))
base64_round_trip src enc dec encsize decsize h es eh room ds dh fits =
    rw
      (
        ntop_fits src enc encsize h es eh (omega (arith, length-encoded src)),
        take-append (encoded src) (0 ∷ drop (length (encoded src) + 1) enc),
        pton-encoded src dec decsize h dh ds fits,
      )
      (
        refl,
        (
          (src ++ slop src) ++ drop (length (src ++ slop src)) dec,
          refl,
          ap (λ l. take (length src) l) (append_assoc src (slop src) _) ∙ take-append src _,
        ),
      )

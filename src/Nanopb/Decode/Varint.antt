-- ===== src/Nanopb/Decode/Varint.antt =====
-- `pb_decode_varint` reads back the varint format.
use native.Mathlib.Nat.{div-add-mod, pow-suc}
use native.Mathlib.Numerals.{towards_suc}
use league_ranker.Prelude.{
  ℕ, zero, suc, ◌+◌, ◌-◌, ◌*◌, ◌/◌, ◌%◌, ◌^◌, ◌≤◌, ◌<◌, ◌≡◌, refl, ap, ◌∙◌, some, List, [], ◌∷◌,
  ◌++◌, length, length-append, append_assoc, arith, ltb, Bool-cases, inl, inr,
}
use league_ranker.Prelude.Bits.{and_0x7f, and_0x80, bit_or-shifted}
use league_ranker.Nanopb.Types.{IsU64}
use league_ranker.Nanopb.Istream.{Istream, buf_read, readbyte}
use league_ranker.Nanopb.Decode.{add_group64, varint_loop, decode_varint}
use league_ranker.Nanopb.Encode.Varint.{varint}

-- The stream behind `n` bytes, before `rest`.
abbrev pub behind : ℕ → List ℕ → Istream → Istream
behind n rest s = record s { state = rest; bytes_left = s.bytes_left - n }

-- A stream over a buffer, in front of `bytes` and then `rest`.
pub record Ahead (bytes rest : List ℕ) (s : Istream) : Type 0 where
  pub source : s.callback ≡ buf_read
  pub holds : s.state ≡ bytes ++ rest
  pub enough : length bytes ≤ s.bytes_left
  pub small : s.bytes_left < 2 ^ 64

-- What lies ahead comes in two parts.
pub Ahead-left :
    (xs ys rest : List ℕ) {s : Istream} → Ahead (xs ++ ys) rest s → Ahead xs (ys ++ rest) s
Ahead-left xs ys rest {s} a = record {
  source = a.source;
  holds = a.holds ∙ append_assoc xs ys rest;
  enough = omega (arith, length-append xs ys, a.enough);
  small = a.small;
}

pub Ahead-right :
    (xs ys rest : List ℕ) {s : Istream}
    → Ahead (xs ++ ys) rest s
    → Ahead ys rest (behind (length xs) (ys ++ rest) s)
Ahead-right xs ys rest {s} a = record {
  source = a.source;
  holds = refl;
  enough = omega (arith, length-append xs ys, a.enough);
  small = omega (arith, a.small);
}

pub readbyte_lem :
    (b : ℕ) (bytes rest : List ℕ) {s : Istream}
    → Ahead (b ∷ bytes) rest s
    → readbyte s ≡ (some b, behind 1 (bytes ++ rest) s)
unfolding readbyte
readbyte_lem b bytes rest {s} a = ground arith

pub Ahead-step :
    (b : ℕ) (bytes rest : List ℕ) {s : Istream}
    → Ahead (b ∷ bytes) rest s
    → Ahead bytes rest (behind 1 (bytes ++ rest) s)
Ahead-step b bytes rest {s} a = record {
  source = a.source;
  holds = refl;
  enough = omega arith;
  small = omega arith;
}

add_group64-eq :
    (acc bitpos byte : ℕ)
    → acc < 2 ^ bitpos
    → byte % 128 * 2 ^ bitpos < 2 ^ 64
    → add_group64 acc bitpos byte ≡ acc + byte % 128 * 2 ^ bitpos
unfolding add_group64
add_group64-eq acc bitpos byte ha hb =
    ground (arith, and_0x7f byte, bit_or-shifted bitpos acc (byte % 128) ha)

-- One round of the loop on a byte that ends the number, and on one that does not.
last_byte :
    (fuel acc bitpos b : ℕ) (rest : List ℕ) {s : Istream}
    → Ahead (b ∷ []) rest s
    → bitpos < 64
    → b < 128
    → acc < 2 ^ bitpos
    → b * 2 ^ bitpos < 2 ^ 64
    → varint_loop (suc fuel) acc bitpos s ≡ (some (acc + b * 2 ^ bitpos), behind 1 rest s)
unfolding varint_loop
last_byte fuel acc bitpos b rest {s} a hp hb ha fits =
    ground (arith, readbyte_lem b [] rest a, and_0x80 b, add_group64-eq acc bitpos b ha)

inner_byte :
    (fuel acc bitpos g : ℕ) (bytes rest : List ℕ) {s : Istream}
    → Ahead ((g + 128) ∷ bytes) rest s
    → bitpos < 64
    → g < 128
    → acc < 2 ^ bitpos
    → g * 2 ^ bitpos < 2 ^ 64
    → varint_loop (suc fuel) acc bitpos s
      ≡ varint_loop fuel (acc + g * 2 ^ bitpos) (bitpos + 7) (behind 1 (bytes ++ rest) s)
unfolding varint_loop
inner_byte fuel acc bitpos g bytes rest {s} a hp hg ha fits = ground (
  arith,
  readbyte_lem (g + 128) bytes rest a,
  and_0x80 (g + 128),
  add_group64-eq acc bitpos (g + 128) ha,
)

pub shift_seven : (b : ℕ) → 2 ^ (b + 7) ≡ 128 * 2 ^ b
shift_seven b = simp towards_suc (omega arith)

-- The lowest group of `v` and the rest of it, counted from bit `b`.
pub split_group : (v b : ℕ) → v * 2 ^ b ≡ v % 128 * 2 ^ b + v / 128 * 2 ^ (b + 7)
split_group v b = omega (
  arith,
  ap (λ (t : ℕ). t * 2 ^ b) (div-add-mod v 128),
  ap (λ (t : ℕ). v / 128 * t) (shift_seven b),
)

pub behind-behind :
    (m n : ℕ) (inner rest : List ℕ) (s : Istream)
    → behind n rest (behind m inner s) ≡ behind (m + n) rest s
behind-behind m n inner rest s = ground arith

pub group_bound : (acc g b : ℕ) → acc < 2 ^ b → g < 128 → acc + g * 2 ^ b < 2 ^ (b + 7)
group_bound acc g b ha hg = rw shift_seven (grind arith)

varint_loop-varint :
    (k fuel v acc bitpos : ℕ) (rest : List ℕ) {s : Istream}
    → Ahead (varint k v) rest s
    → v < 128 ^ suc k
    → k < fuel
    → bitpos + 7 * k ≤ 63
    → acc < 2 ^ bitpos
    → acc + v * 2 ^ bitpos < 2 ^ 64
    → varint_loop fuel acc bitpos s
      ≡ (some (acc + v * 2 ^ bitpos), behind (length (varint k v)) rest s)
unfolding varint
varint_loop-varint k zero v acc bitpos rest {s} a hv hf hb ha fits = absurd (omega arith)
varint_loop-varint zero (suc fuel) v acc bitpos rest {s} a hv hf hb ha fits =
    last_byte fuel acc bitpos v rest a (omega arith) (omega arith) ha (omega arith)
varint_loop-varint (suc k) (suc fuel) v acc bitpos rest {s} a hv hf hb ha fits =
    elim (Bool-cases (ltb v 128)) [
      | inl small ↦
          let a₁ : Ahead (v ∷ []) rest s = rw small at a in
          rw small
            (last_byte fuel acc bitpos v rest a₁ (omega arith) (ground arith) ha (omega arith))
      | inr large ↦
          let g = v % 128 in
          let more : List ℕ = varint k (v / 128) in
          let a₁ : Ahead ((g + 128) ∷ more) rest s = rw large at a in
          rw large (
            inner_byte fuel acc bitpos g more rest a₁ (omega arith) (omega arith) ha
              (omega (arith, split_group v bitpos))
            ∙ varint_loop-varint k fuel (v / 128) (acc + g * 2 ^ bitpos) (bitpos + 7) rest
                (Ahead-step (g + 128) more rest a₁) (omega (arith, pow-suc 128 (suc k)))
                (omega arith) (omega arith) (group_bound acc g bitpos ha (omega arith))
                (omega (arith, split_group v bitpos))
            ∙ ground (arith, split_group v bitpos))
    ]

-- A stream that holds the encoding of `v` gives `v`, and moves just behind it.
pub decode_varint-varint :
    (v : ℕ) (rest : List ℕ) {s : Istream}
    → IsU64 v
    → Ahead (varint 9 v) rest s
    → decode_varint s ≡ (some v, behind (length (varint 9 v)) rest s)
unfolding decode_varint
decode_varint-varint v rest {s} h a =
    varint_loop-varint 9 11 v 0 0 rest a (omega arith) (omega arith) (omega arith) (omega arith)
      (omega arith)
    ∙ ground arith

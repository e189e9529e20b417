-- ===== src/Nanopb/Decode/Varint32.antt =====
-- `pb_decode_varint32` reads back the varint format of a number below 2 ^ 32.
use native.Mathlib.Nat.{pow-suc}
use native.Mathlib.Decide.{dec_lt}
use league_ranker.Prelude.{
  ℕ, zero, suc, ◌+◌, ◌*◌, ◌/◌, ◌%◌, ◌^◌, ◌≤◌, ◌<◌, ◌≡◌, ap, ◌∙◌, bit_and, some, List, [], ◌∷◌, ◌++◌,
  length, arith, ltb, ◌==◌, false, Bool-cases, inl, inr,
}
use league_ranker.Prelude.Bits.{and_0x7f, and_0x80, and_0x70, bit_or-shifted}
use league_ranker.Nanopb.Types.{IsU32}
use league_ranker.Nanopb.Istream.{Istream, readbyte}
use league_ranker.Nanopb.Decode.{
  add_group32, last_group32, varint32_loop, decode_varint32_eof, decode_varint32,
}
use league_ranker.Nanopb.Decode.Varint.{
  Ahead, behind, readbyte_lem, Ahead-step, split_group, group_bound,
}
use league_ranker.Nanopb.Encode.Varint.{
  varint, varint_more, varint_small, varint_large, length-varint,
}

add_group32-eq :
    (acc bitpos byte : ℕ)
    → bitpos < 32
    → acc < 2 ^ bitpos
    → byte % 128 * 2 ^ bitpos < 2 ^ 32
    → add_group32 acc bitpos byte ≡ some (acc + byte % 128 * 2 ^ bitpos)
unfolding add_group32
add_group32-eq acc bitpos byte hp ha hb =
    ground (arith, and_0x7f byte, bit_or-shifted bitpos acc (byte % 128) ha)

last_byte32 :
    (fuel acc bitpos b : ℕ) (rest : List ℕ) {s : Istream}
    → Ahead (b ∷ []) rest s
    → bitpos ≤ 28
    → b < 128
    → acc < 2 ^ bitpos
    → (bitpos ≡ 28 → b < 16)
    → b * 2 ^ bitpos < 2 ^ 32
    → varint32_loop (suc fuel) acc bitpos s ≡ (some (acc + b * 2 ^ bitpos), behind 1 rest s)
unfolding varint32_loop last_group32
last_byte32 fuel acc bitpos b rest {s} a hp hb ha top fits =
    ground (arith, readbyte_lem b [] rest a, and_0x80 b, and_0x70 b, add_group32-eq acc bitpos b)

inner_byte32 :
    (fuel acc bitpos g : ℕ) (bytes rest : List ℕ) {s : Istream}
    → Ahead ((g + 128) ∷ bytes) rest s
    → bitpos < 32
    → g < 128
    → acc < 2 ^ bitpos
    → g * 2 ^ bitpos < 2 ^ 32
    → varint32_loop (suc fuel) acc bitpos s
      ≡ varint32_loop fuel (acc + g * 2 ^ bitpos) (bitpos + 7) (behind 1 (bytes ++ rest) s)
unfolding varint32_loop
inner_byte32 fuel acc bitpos g bytes rest {s} a hp hg ha fits = ground (
  arith,
  readbyte_lem (g + 128) bytes rest a,
  and_0x80 (g + 128),
  add_group32-eq acc bitpos (g + 128),
)

varint32_loop-varint :
    (k fuel v acc bitpos : ℕ) (rest : List ℕ) {s : Istream}
    → Ahead (varint k v) rest s
    → v < 128 ^ suc k
    → length (varint k v) ≤ fuel
    → bitpos + 7 * k ≤ 28
    → acc < 2 ^ bitpos
    → acc + v * 2 ^ bitpos < 2 ^ 32
    → varint32_loop fuel acc bitpos s
      ≡ (some (acc + v * 2 ^ bitpos), behind (length (varint k v)) rest s)
unfolding varint
varint32_loop-varint k zero v acc bitpos rest {s} a hv hf hb ha fits =
    absurd (omega (arith, length-varint k v))
varint32_loop-varint zero (suc fuel) v acc bitpos rest {s} a hv hf hb ha fits =
    last_byte32 fuel acc bitpos v rest a (omega arith) (omega arith) ha
      (λ e. let t : v * 2 ^ bitpos ≡ v * 2 ^ 28 = ap (λ (b : ℕ). v * 2 ^ b) e in omega arith)
      (omega arith)
varint32_loop-varint (suc k) (suc fuel) v acc bitpos rest {s} a hv hf hb ha fits =
    elim (Bool-cases (ltb v 128)) [
      | inl small ↦
          let a₁ : Ahead (v ∷ []) rest s = rw small at a in
          rw small (
            last_byte32 fuel acc bitpos v rest a₁ (omega arith) (ground arith) ha
              (λ e. absurd (omega arith)) (omega arith))
      | inr large ↦
          let g = v % 128 in
          let more : List ℕ = varint k (v / 128) in
          let a₁ : Ahead ((g + 128) ∷ more) rest s = rw large at a in
          let hf₁ : suc (length more) ≤ suc fuel = rw large at hf in
          rw large (
            inner_byte32 fuel acc bitpos g more rest a₁ (omega arith) (omega arith) ha
              (omega (arith, split_group v bitpos))
            ∙ varint32_loop-varint k fuel (v / 128) (acc + g * 2 ^ bitpos) (bitpos + 7) rest
                (Ahead-step (g + 128) more rest a₁) (omega (arith, pow-suc 128 (suc k)))
                (omega arith) (omega arith) (group_bound acc g bitpos ha (omega arith))
                (omega (arith, split_group v bitpos))
            ∙ ground (arith, split_group v bitpos))
    ]

five_groups : (v : ℕ) → IsU32 v → varint 9 v ≡ varint 4 v
five_groups v h =
    varint_more 8 v (omega arith)
    ∙ varint_more 7 v (omega arith)
    ∙ varint_more 6 v (omega arith)
    ∙ varint_more 5 v (omega arith)
    ∙ varint_more 4 v (omega arith)

one_byte :
    (v : ℕ) (rest : List ℕ) {s : Istream}
    → v < 128
    → Ahead (v ∷ []) rest s
    → decode_varint32_eof s ≡ ((some v, false), behind 1 rest s)
unfolding decode_varint32_eof
one_byte v rest {s} h a = ground (arith, readbyte_lem v [] rest a, and_0x80 v)

first_of_more :
    (g : ℕ) (s : Istream) {s₁ : Istream}
    → g < 128
    → readbyte s ≡ (some (g + 128), s₁)
    → let (value, s₂) = varint32_loop (suc s₁.bytes_left) g 7 s₁ in
      decode_varint32_eof s ≡ ((value, false), s₂)
unfolding decode_varint32_eof
first_of_more g s {s₁} h e = rw (e, decode_varint32_eof, top_bit, low_group, e)
  where
    top_bit : (bit_and (g + 128) 0x80 == 0) ≡ false
    top_bit = ground (arith, and_0x80 (g + 128))

    low_group : bit_and (g + 128) 0x7f ≡ g
    low_group = omega (arith, and_0x7f (g + 128))

more_bytes :
    (v : ℕ) (rest : List ℕ) {s : Istream}
    → IsU32 v
    → Ahead ((v % 128 + 128) ∷ varint 3 (v / 128)) rest s
    → decode_varint32_eof s ≡ ((some v, false), behind (suc (length (varint 3 (v / 128)))) rest s)
more_bytes v rest {s} h a =
    let g = v % 128 in
    let more : List ℕ = varint 3 (v / 128) in
    let s₁ : Istream = behind 1 (more ++ rest) s in
    first_of_more g s (omega arith) (readbyte_lem (g + 128) more rest a)
    ∙ rw
        (varint32_loop-varint 3 (suc s₁.bytes_left) (v / 128) g 7 rest {s = s₁}
          (Ahead-step (g + 128) more rest a) (omega arith) (omega arith) (omega arith) (omega arith)
          (omega arith))
        (ground arith)

-- The value of a number below 2 ^ 32, with `*eof` left alone.
pub decode_varint32_eof-varint :
    (v : ℕ) (rest : List ℕ) {s : Istream}
    → IsU32 v
    → Ahead (varint 9 v) rest s
    → decode_varint32_eof s ≡ ((some v, false), behind (length (varint 9 v)) rest s)
decode_varint32_eof-varint v rest {s} h a = elim (dec_lt v 128) [
  | yes small ↦ let e = varint_small 8 v small in rw e (one_byte v rest small (rw e at a))
  | no large ↦
      let e = five_groups v h ∙ varint_large 3 v (omega arith) in
      rw e (more_bytes v rest h (rw e at a))
]

pub decode_varint32-varint :
    (v : ℕ) (rest : List ℕ) {s : Istream}
    → IsU32 v
    → Ahead (varint 9 v) rest s
    → decode_varint32 s ≡ (some v, behind (length (varint 9 v)) rest s)
unfolding decode_varint32
decode_varint32-varint v rest h a = rw (decode_varint32_eof-varint v rest h a)

-- ===== src/Nanopb/Decode/Overlong.antt =====
-- `pb_decode_varint32` on varints that are too long or too large.
use league_ranker.Prelude.{
  holds_from, holds_at, ℕ, ◌+◌, ◌*◌, ◌^◌, ◌<◌, ◌≡◌, refl, Bool, true, false, ◌&&◌, Option, none,
  some, [], ◌∷◌, ◌++◌, replicate, arith, ◌==◌,
}
use league_ranker.Nanopb.Istream.{Istream, istream_from_buffer, readbyte}
use league_ranker.Nanopb.Decode.{
  add_group64, varint_loop, decode_varint, add_group32, last_group32, varint32_loop,
  decode_varint32_eof, decode_varint32,
}

-- Thirty-seven continuation bytes with no bits, and a last byte `b`.
abbrev pub overlong : ℕ → Istream
overlong b = istream_from_buffer (replicate 37 0x80 ++ (b ∷ [])) 38

-- A number of more than 32 bits whose bits above 31 are those of `x`, and a padding byte.
abbrev pub padded : ℕ → Istream
padded x = istream_from_buffer (0x80 ∷ 0x80 ∷ 0x80 ∷ 0x80 ∷ (0x80 + x * 16) ∷ 0x00 ∷ []) 6

-- Whether two optional numbers are the same.
same : Option ℕ → Option ℕ → Bool
same none none = true
same none (some b) = false
same (some a) none = false
same (some a) (some b) = a == b

same→eq : (o p : Option ℕ) → same o p ≡ true → o ≡ p
unfolding same
same→eq none none h = refl
same→eq none (some b) h = cc
same→eq (some a) none h = cc
same→eq (some a) (some b) h = ground arith

overlong_table :
    holds_from 128 0 (λ b.
      same (decode_varint32 (overlong b)).0 (some (b * 8))
      && same (decode_varint (overlong b)).0 none)
    ≡ true
unfolding holds_from same istream_from_buffer readbyte decode_varint varint_loop decode_varint32
    decode_varint32_eof varint32_loop add_group32 last_group32 add_group64
overlong_table = refl

padded_table :
    holds_from 8 0 (λ x.
      same (decode_varint32 (padded x)).0 (some 0)
      && same (decode_varint (padded x)).0 (some (x * 2 ^ 32)))
    ≡ true
unfolding holds_from same istream_from_buffer readbyte decode_varint varint_loop decode_varint32
    decode_varint32_eof varint32_loop add_group32 last_group32 add_group64
padded_table = refl

both : (b c : Bool) → b && c ≡ true → (b ≡ true) × (c ≡ true)
both b c h = ground arith

-- The bit position has eight bits and comes round to 3, so the last byte of an overlong varint is
-- taken for bits 3 to 9. The 64-bit decoder refuses the same bytes.
pub overlong_accepted :
    (b : ℕ)
    → b < 128
    → ((decode_varint32 (overlong b)).0 ≡ some (b * 8)) × ((decode_varint (overlong b)).0 ≡ none)
overlong_accepted b h =
    let (p, q) = both _ _ (holds_at 128 0 b _ overlong_table (omega arith) h) in
    (same→eq _ _ p, same→eq _ _ q)

-- Bits 32 to 34 of a varint are dropped, with no "varint overflow", if a byte follows them. The
-- 64-bit decoder gives the number.
pub padded_truncated :
    (x : ℕ)
    → x < 8
    → ((decode_varint32 (padded x)).0 ≡ some 0) × ((decode_varint (padded x)).0 ≡ some (x * 2 ^ 32))
padded_truncated x h =
    let (p, q) = both _ _ (holds_at 8 0 x _ padded_table (omega arith) h) in
    (same→eq _ _ p, same→eq _ _ q)

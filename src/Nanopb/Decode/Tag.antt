-- ===== src/Nanopb/Decode/Tag.antt =====
-- `pb_decode_tag` reads back what `pb_encode_tag` writes.
use league_ranker.Prelude.{
  ℕ, ◌+◌, ◌*◌, ◌/◌, ◌%◌, ◌^◌, ◌<◌, ◌≡◌, ◌≢◌, ◌∙◌, some, List, length, arith, false,
}
use league_ranker.Prelude.Bits.{bit_and-mask}
use league_ranker.Nanopb.Istream.{Istream}
use league_ranker.Nanopb.Decode.{decode_tag, tag, decode_varint32_eof}
use league_ranker.Nanopb.Decode.Varint.{Ahead, behind}
use league_ranker.Nanopb.Decode.Varint32.{decode_varint32_eof-varint}
use league_ranker.Nanopb.Encode.Varint.{varint}

of_value :
    (t : ℕ) (s : Istream) {s₁ : Istream}
    → t ≢ 0
    → decode_varint32_eof s ≡ ((some t, false), s₁)
    → decode_tag s ≡ (tag (t % 8) (t / 8), s₁)
unfolding decode_tag
of_value t s {s₁} h e = ground (arith, bit_and-mask 3 t)

pub decode_tag-varint :
    (wiretype field_number : ℕ) (rest : List ℕ) {s : Istream}
    → wiretype < 8
    → 0 < field_number
    → field_number < 2 ^ 29
    → Ahead (varint 9 (wiretype + field_number * 8)) rest s
    → decode_tag s
      ≡ (tag wiretype field_number, behind (length (varint 9 (wiretype + field_number * 8))) rest s)
decode_tag-varint wiretype field_number rest {s} hw hp hf a =
    let t = wiretype + field_number * 8 in
    of_value t s (omega arith) (decode_varint32_eof-varint t rest (omega arith) a) ∙ ground arith

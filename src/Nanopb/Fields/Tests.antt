-- ===== src/Nanopb/Fields/Tests.antt =====
-- Integer fields at concrete sizes, and the theorems on them there.
use league_ranker.Prelude.{
  ℕ, ◌-◌, ◌^◌, ◌≡◌, inl, inr, refl, none, some, List, [], ◌∷◌, replicate, arith,
}
use league_ranker.Nanopb.Istream.{istream_from_buffer, readbyte}
use league_ranker.Nanopb.Decode.{decode_varint, varint_loop, add_group64}
use league_ranker.Nanopb.RoundTrip.{ReadsBack}
use league_ranker.Nanopb.Iter.{Field}
use league_ranker.Nanopb.Fields.{
  enc_varint, enc_svarint, dec_varint, dec_uvarint, dec_svarint, store_varint, store_uvarint,
  clamp_signed, clamp_unsigned, extend,
}
use league_ranker.Nanopb.Fields.RoundTrip.{int_field_round_trip, sint_field_round_trip}

abbrev field_of_size : ℕ → Field
field_of_size n = record {
  tag = 1;
  type = 0;
  data_offset = 0;
  size_offset = 0;
  data_size = n;
  array_size = 0;
  ptr = 0;
}

-- 300 is too large for one byte, and -1 written as a 32-bit number is -1 all the same.
too_large : (dec_uvarint (field_of_size 1) (istream_from_buffer (0xac ∷ 0x02 ∷ []) 2)).0 ≡ none
unfolding dec_uvarint decode_varint varint_loop add_group64 readbyte istream_from_buffer
    store_uvarint clamp_unsigned
too_large = refl

short_minus_one :
    (dec_varint (field_of_size 2) (istream_from_buffer (0xff ∷ 0xff ∷ 0xff ∷ 0xff ∷ 0x0f ∷ []) 5)).0
    ≡ some (2 ^ 16 - 1)
unfolding dec_varint decode_varint varint_loop add_group64 readbyte istream_from_buffer store_varint
    clamp_signed extend
short_minus_one = refl

abbrev memory : List ℕ
memory = replicate 12 0

int_field_round_trip_example :
    ReadsBack (enc_varint (field_of_size 2) 65000) (dec_varint (field_of_size 2)) 65000 memory 12
int_field_round_trip_example =
    int_field_round_trip (field_of_size 2) 65000 memory 12 (omega arith) (omega arith) (omega arith)
      (inr (inl refl)) (omega arith)

sint_field_round_trip_example :
    ReadsBack
      (enc_svarint (field_of_size 4) 4000000000)
      (dec_svarint (field_of_size 4))
      4000000000
      memory
      12
sint_field_round_trip_example =
    sint_field_round_trip (field_of_size 4) 4000000000 memory 12 (omega arith) (omega arith)
      (omega arith) (inr (inr (inl refl))) (omega arith)

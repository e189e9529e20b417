-- ===== src/Nanopb/Tests.antt =====
-- Runs of the protobuf codec, and its theorems at concrete inputs.
use league_ranker.Prelude.{
  ◌+◌, ◌≢◌, ℕ, ◌-◌, ◌*◌, ◌^◌, ◌≤◌, ◌≡◌, ◌↔◌, refl, true, none, some, List, [], ◌∷◌, ◌++◌, length,
  replicate, drop, arith,
}
use league_ranker.Nanopb.Types.{wt_string}
use league_ranker.Nanopb.Ostream.{Ostream, ostream_from_buffer, ostream_sizing, write}
use league_ranker.Nanopb.Ostream.Buffer.{IsBuffer, write_fits}
use league_ranker.Nanopb.Encode.{
  varint_buffer, zigzag, encode_varint, encode_svarint, encode_fixed64,
}
use league_ranker.Nanopb.Istream.{Istream, buf_read}
use league_ranker.Nanopb.Istream.Bounds.{IsInput, Moved}
use league_ranker.Nanopb.Decode.{
  decode_varint, decode_varint32, decode_svarint, decode_fixed64, decode_tag, tag, skip_field,
}
use league_ranker.Nanopb.Decode.Bounds.{decoders_in_bounds}
use league_ranker.Nanopb.Decode.Fuel.{decode_varint_ends}
use league_ranker.Nanopb.Decode.Overlong.{overlong, padded, overlong_accepted, padded_truncated}
use league_ranker.Nanopb.Encode.Varint.{varint}
use league_ranker.Nanopb.Decode.Varint.{Ahead, behind}
use league_ranker.Nanopb.Substream.{make_string_substream, close_string_substream}
use league_ranker.Nanopb.Substream.Laws.{opened, substream_exact}
use league_ranker.Nanopb.RoundTrip.{
  ReadsBack, read_back, ostream_from_buffer-IsBuffer, varint_round_trip, varint32_round_trip,
  svarint_round_trip, fixed64_round_trip,
}
use league_ranker.Nanopb.RoundTrip.Field.{
  string_field, string_field_bytes, string_field_size, string_field_round_trip,
}

abbrev memory : List ℕ
memory = replicate 16 0xee

abbrev hello : List ℕ
hello = 104 ∷ 105 ∷ []

varint_300 : varint_buffer 300 ≡ 0xac ∷ 0x02 ∷ []
unfolding varint_buffer
varint_300 = refl

abbrev fresh : Ostream
fresh = ostream_from_buffer memory 16

abbrev tiny : Ostream
tiny = ostream_from_buffer memory 2

fresh-IsBuffer : IsBuffer fresh
fresh-IsBuffer = ostream_from_buffer-IsBuffer memory 16 (omega arith) (omega arith)

tiny-IsBuffer : IsBuffer tiny
tiny-IsBuffer = ostream_from_buffer-IsBuffer memory 2 (omega arith) (omega arith)

varint_round_trip_example : ReadsBack (encode_varint 300) decode_varint 300 memory 16
unfolding varint_buffer
varint_round_trip_example =
    varint_round_trip memory 16 (omega arith) (omega arith) 300 (omega arith) (omega arith)

varint32_round_trip_example : ReadsBack (encode_varint 300) decode_varint32 300 memory 16
unfolding varint_buffer
varint32_round_trip_example =
    varint32_round_trip memory 16 (omega arith) (omega arith) 300 (omega arith) (omega arith)

svarint_round_trip_example :
    ReadsBack (encode_svarint (2 ^ 64 - 3)) decode_svarint (2 ^ 64 - 3) memory 16
unfolding varint_buffer zigzag
svarint_round_trip_example =
    svarint_round_trip memory 16 (omega arith) (omega arith) (2 ^ 64 - 3) (omega arith)
      (omega arith)

fixed64_round_trip_example :
    ReadsBack (encode_fixed64 0xdeadbeef) decode_fixed64 0xdeadbeef memory 16
fixed64_round_trip_example =
    fixed64_round_trip memory 16 (omega arith) (omega arith) 0xdeadbeef (omega arith) (omega arith)

write_fits_example :
    let (done, t) = write fresh hello 2 in
    (done ≡ true)
    × (t.state.mem ≡ 104 ∷ 105 ∷ replicate 14 0xee)
    × (t.bytes_written ≡ 2)
    × IsBuffer t
unfolding ostream_from_buffer
write_fits_example = write_fits hello fresh-IsBuffer (omega arith) (omega arith)

abbrev junk : Istream
junk = record {
  callback = buf_read;
  state = 0xff ∷ 0xff ∷ 0x12 ∷ [];
  bytes_left = 2;
  errmsg = none;
}

junk-IsInput : IsInput junk
junk-IsInput = record { source = refl; held = omega arith; small = omega arith }

decoders_in_bounds_example :
    Moved junk (decode_tag junk).1
    × Moved junk (decode_varint junk).1
    × Moved junk (skip_field 2 junk).1
decoders_in_bounds_example = decoders_in_bounds junk 2 junk-IsInput

decode_varint_ends_example :
    let (value, t) = decode_varint junk in
    (t.bytes_left ≤ junk.bytes_left)
    × (junk.bytes_left ≤ t.bytes_left + 10)
    × (value ≡ none → t.errmsg ≢ none)
decode_varint_ends_example = decode_varint_ends junk

overlong_accepted_example :
    ((decode_varint32 (overlong 5)).0 ≡ some 40) × ((decode_varint (overlong 5)).0 ≡ none)
overlong_accepted_example = overlong_accepted 5 (omega arith)

padded_truncated_example :
    ((decode_varint32 (padded 3)).0 ≡ some 0) × ((decode_varint (padded 3)).0 ≡ some (3 * 2 ^ 32))
padded_truncated_example = padded_truncated 3 (omega arith)

string_field_size_example :
    ((string_field 7 hello fresh).0 ≡ true)
    ↔ ((string_field 7 hello ostream_sizing).1.bytes_written ≤ 16)
string_field_size_example =
    string_field_size 7 hello memory 16 (omega arith) (omega arith) (omega arith) (omega arith)

string_field_round_trip_example :
    let (done, out) = string_field 7 hello fresh in
    let (t, s) = decode_tag (read_back out) in
    (done ≡ true)
    × (t ≡ tag wt_string 7)
    × ((make_string_substream s).0
        ≡ some (opened hello (drop (length (string_field_bytes 7 hello)) memory) s))
    × ((make_string_substream s).1.bytes_left ≡ 0)
    × ((skip_field wt_string s).0 ≡ some tt)
    × ((skip_field wt_string s).1.bytes_left ≡ 0)
unfolding varint
string_field_round_trip_example =
    string_field_round_trip 7 hello memory 16 (omega arith) (omega arith) (omega arith)
      (omega arith) (omega arith) (omega arith)

-- The field `02 68 69` and a byte behind it.
abbrev field_hi : Istream
field_hi = record {
  callback = buf_read;
  state = 2 ∷ 104 ∷ 105 ∷ 9 ∷ [];
  bytes_left = 4;
  errmsg = none;
}

field_hi-Ahead : Ahead (varint 9 2 ++ hello) (9 ∷ []) field_hi
unfolding varint
field_hi-Ahead = record { source = refl; holds = refl; enough = omega arith; small = omega arith }

substream_exact_example :
    let (sub, parent) = make_string_substream field_hi in
    (sub ≡ some (opened hello (9 ∷ []) field_hi))
    × (close_string_substream (behind 1 (105 ∷ 9 ∷ []) (opened hello (9 ∷ []) field_hi)) parent
        ≡ (some tt, behind (length (varint 9 2 ++ hello)) (9 ∷ []) field_hi))
substream_exact_example =
    substream_exact (104 ∷ []) (105 ∷ []) (9 ∷ []) field_hi (omega arith) field_hi-Ahead

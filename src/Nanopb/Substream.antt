-- ===== src/Nanopb/Substream.antt =====
-- ScoreSender/Pods/nanopb/pb_decode.c: the substream of a length-delimited field, and the raw
-- value that is handed to a callback.
pub mod Laws
use league_ranker.Prelude.{
  ℕ, zero, suc, ◌+◌, ◌-◌, bit_and, Bool, true, false, Option, none, some, List, [], ◌∷◌, ◌++◌, ltb,
  ◌==◌, if◌then◌else◌, get_or,
}
use league_ranker.Nanopb.Types.{
  WireType, Errmsg, parent_stream_too_short, invalid_wire_type, sub_size,
}
use league_ranker.Nanopb.Istream.{
  Istream, Decoder, ◌>>=◌, pure, return_error, out_of_fuel, read_into, skip,
}
use league_ranker.Nanopb.Decode.{decode_varint32}

-- `*substream = *stream` behind the length, with `bytes_left` cut to it. The parent has the length
-- taken off its count at once, and its state is moved by the closing call.
unfoldable pub cut_substream : ℕ → Decoder Istream
cut_substream size stream =
    if ltb stream.bytes_left size then return_error parent_stream_too_short stream else (
      some (record stream { bytes_left = size }),
      record stream { bytes_left = sub_size stream.bytes_left size },
    )

unfoldable pub make_string_substream : Decoder Istream
unfolding cut_substream
make_string_substream = decode_varint32 >>= cut_substream

-- What is left of the substream is skipped; the parent goes on where the substream ended. Where
-- that fails the parent is unchanged.
unfoldable pub close_string_substream : Istream → Decoder (Unit {0})
close_string_substream substream stream =
    let finish = λ (sub : Istream). record stream { state = sub.state; errmsg = sub.errmsg } in
    if substream.bytes_left == 0
    then (some tt, finish substream)
    else let (skipped, sub) = skip substream.bytes_left substream in
      elim skipped [ none ↦ (none, stream) | some bytes ↦ (some tt, finish sub) ]

-- The loop of `read_raw_value` over a varint: `room` is what `max_size` still allows.
unfoldable pub raw_varint : ℕ → List ℕ → Decoder (List ℕ)
raw_varint zero buf = out_of_fuel
raw_varint (suc room) buf = read_into 1 >>= λ bytes.
    let byte = get_or bytes 0 0 in
    elim (bit_and byte 0x80 == 0) [
      | true ↦ pure (buf ++ (byte ∷ []))
      | false ↦ raw_varint room (buf ++ (byte ∷ []))
    ]

-- The bytes of a scalar as they stand in the stream, `max_size` of them at most for a varint.
unfoldable pub read_raw_value : WireType → ℕ → Decoder (List ℕ)
read_raw_value wire_type max_size =
    if wire_type == 0
    then raw_varint max_size []
    else if wire_type == 1
    then read_into 8
    else if wire_type == 5
    then read_into 4
    else return_error invalid_wire_type

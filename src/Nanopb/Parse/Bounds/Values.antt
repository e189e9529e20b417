-- ===== src/Nanopb/Parse/Bounds/Values.antt =====
-- The decoders of single values stay inside the input buffer.
use league_ranker.Prelude.{ℕ, Option, none, some}
use league_ranker.Nanopb.Istream.{read_into, pure}
use league_ranker.Nanopb.Istream.Bounds.{InBounds, pure-InBounds, read_into-InBounds, >>=-InBounds}
use league_ranker.Nanopb.Decode.{
  decode_varint, decode_svarint, decode_fixed32, decode_fixed64, unzigzag, fixed32_value,
  fixed64_value,
}
use league_ranker.Nanopb.Decode.Bounds.{decode_varint-InBounds, decode_varint32-InBounds}
use league_ranker.Nanopb.Iter.{Field}
use league_ranker.Nanopb.World.{Libc}
use league_ranker.Nanopb.World.Bounds.{
  Reads, pure-Reads, return_error-Reads, look-Reads, change-Reads, lift-Reads, >>=-Reads, if-Reads,
  read_to-Reads, allocate_field-Reads,
}
use league_ranker.Nanopb.Parse.Values.{
  store_integer, dec_varint_to, dec_uvarint_to, dec_svarint_to, dec_fixed32, dec_fixed64, dec_bytes,
  dec_string, terminated, dec_fixed_length_bytes,
}

pub decode_svarint-InBounds : InBounds decode_svarint
unfolding decode_svarint
decode_svarint-InBounds =
    >>=-InBounds decode_varint (λ value. pure (unzigzag value)) decode_varint-InBounds
      λ value. pure-InBounds _

pub decode_fixed32-InBounds : InBounds decode_fixed32
unfolding decode_fixed32
decode_fixed32-InBounds =
    >>=-InBounds (read_into 4) (λ bytes. pure (fixed32_value bytes)) (read_into-InBounds 4)
      λ bytes. pure-InBounds _

pub decode_fixed64-InBounds : InBounds decode_fixed64
unfolding decode_fixed64
decode_fixed64-InBounds =
    >>=-InBounds (read_into 8) (λ bytes. pure (fixed64_value bytes)) (read_into-InBounds 8)
      λ bytes. pure-InBounds _

pub ruleset reads = (
  pure-Reads, return_error-Reads, look-Reads, change-Reads, lift-Reads, >>=-Reads, if-Reads,
  read_to-Reads, allocate_field-Reads, decode_varint-InBounds, decode_varint32-InBounds,
  decode_svarint-InBounds, decode_fixed32-InBounds, decode_fixed64-InBounds,
)

store_integer-Reads :
    (field : Field) (dest : ℕ) (o : Option (ℕ × ℕ)) (value : ℕ)
    → Reads (store_integer field dest o value)
unfolding store_integer
store_integer-Reads field dest none value = search reads
store_integer-Reads field dest (some (cast, clamped)) value = search reads

pub dec_varint_to-Reads : (field : Field) (dest : ℕ) → Reads (dec_varint_to field dest)
unfolding dec_varint_to
dec_varint_to-Reads field dest = search (reads, store_integer-Reads)

pub dec_uvarint_to-Reads : (field : Field) (dest : ℕ) → Reads (dec_uvarint_to field dest)
unfolding dec_uvarint_to
dec_uvarint_to-Reads field dest = search (reads, store_integer-Reads)

pub dec_svarint_to-Reads : (field : Field) (dest : ℕ) → Reads (dec_svarint_to field dest)
unfolding dec_svarint_to
dec_svarint_to-Reads field dest = search (reads, store_integer-Reads)

pub dec_fixed32-Reads : (dest : ℕ) → Reads (dec_fixed32 dest)
unfolding dec_fixed32
dec_fixed32-Reads dest = search reads

pub dec_fixed64-Reads : (dest : ℕ) → Reads (dec_fixed64 dest)
unfolding dec_fixed64
dec_fixed64-Reads dest = search reads

pub dec_bytes-Reads : (libc : Libc) (field : Field) (dest : ℕ) → Reads (dec_bytes libc field dest)
unfolding dec_bytes
dec_bytes-Reads libc field dest = search reads depth 12

terminated-Reads : (at size : ℕ) → Reads (terminated at size)
unfolding terminated
terminated-Reads at size = record { moves = λ s w v. (read_to-Reads at size).moves s w v }

pub dec_string-Reads : (libc : Libc) (field : Field) (dest : ℕ) → Reads (dec_string libc field dest)
unfolding dec_string
dec_string-Reads libc field dest = search (reads, terminated-Reads) depth 12

pub dec_fixed_length_bytes-Reads :
    (field : Field) (dest : ℕ) → Reads (dec_fixed_length_bytes field dest)
unfolding dec_fixed_length_bytes
dec_fixed_length_bytes-Reads field dest = search reads

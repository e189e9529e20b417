-- ===== src/Nanopb/RoundTrip.antt =====
-- Laws of pb_encode.c and pb_decode.c together: a buffer is written and then read.
pub mod Field
use native.Mathlib.Nat.{zero-add}
use league_ranker.Prelude.{
  ℕ, zero, suc, ◌+◌, ◌-◌, ◌*◌, ◌^◌, ◌≤◌, ◌<◌, ◌≡◌, refl, ap, sym, ◌∙◌, Bool, true, false, Option,
  none, some, List, [], ◌∷◌, ◌++◌, length, drop, arith, length-append,
}
use league_ranker.Nanopb.Types.{IsU32, IsU64, WireType}
use league_ranker.Nanopb.Ostream.{Ostream, Encoder, ostream_from_buffer, buf_write}
use league_ranker.Prelude.Memory.{write_at}
use league_ranker.Prelude.Memory.{write_at-eq}
use league_ranker.Nanopb.Ostream.Buffer.{IsBuffer, emit}
use league_ranker.Nanopb.Ostream.Writes.{Writes}
use league_ranker.Nanopb.Encode.{
  varint_buffer, encode_varint, zigzag, encode_svarint, encode_fixed32, encode_fixed64,
  fixed32_bytes, fixed64_bytes,
}
use league_ranker.Nanopb.Encode.Varint.{varint, varint_buffer-varint}
use league_ranker.Nanopb.Encode.Scalars.{
  encode_varint-Writes, encode_svarint-Writes, encode_fixed32-Writes, encode_fixed64-Writes,
  zigzag-lt,
}
use league_ranker.Nanopb.Istream.{Istream, Decoder, istream_from_buffer}
use league_ranker.Nanopb.Decode.{
  decode_varint, decode_varint32, decode_svarint, decode_fixed32, decode_fixed64,
}
use league_ranker.Nanopb.Decode.Varint.{Ahead, behind, decode_varint-varint}
use league_ranker.Nanopb.Decode.Varint32.{decode_varint32-varint}
use league_ranker.Nanopb.Decode.Scalars.{
  decode_fixed32-bytes, decode_fixed64-bytes, decode_svarint-varint,
}

-- `pb_istream_from_buffer(buf, stream.bytes_written)` over the memory that was written.
abbrev pub read_back : Ostream → Istream
read_back out = istream_from_buffer out.state.mem out.bytes_written

pub ostream_from_buffer-IsBuffer :
    (buf : List ℕ) (size : ℕ)
    → size ≤ length buf
    → size < 2 ^ 63
    → IsBuffer (ostream_from_buffer buf size)
unfolding ostream_from_buffer
ostream_from_buffer-IsBuffer buf size h small = record {
  writes = refl;
  fits = omega arith;
  room = omega arith;
  small = small;
}

pub read_back-Ahead :
    (bs buf : List ℕ) (size : ℕ)
    → size ≤ length buf
    → size < 2 ^ 63
    → length bs ≤ size
    → Ahead bs (drop (length bs) buf) (read_back (emit bs (ostream_from_buffer buf size)))
unfolding ostream_from_buffer emit istream_from_buffer
read_back-Ahead bs buf size h small fits = record {
  source = refl;
  holds = write_at-eq buf 0 bs (omega arith) ∙ ap (λ n. bs ++ drop n buf) (zero-add (length bs));
  enough = omega arith;
  small = omega arith;
}

-- The encoder succeeds, and the decoder gives `v` and uses up all that was written.
abbrev pub ReadsBack : {A : Type 0} → Encoder → Decoder A → A → List ℕ → ℕ → Type 0
ReadsBack e d v buf size =
    let (done, out) = e (ostream_from_buffer buf size) in
    (done ≡ true) × ((d (read_back out)).0 ≡ some v) × ((d (read_back out)).1.bytes_left ≡ 0)

pub fits_fresh :
    {e : Encoder} (bs buf : List ℕ) (size : ℕ)
    → size ≤ length buf
    → size < 2 ^ 63
    → length bs ≤ size
    → Writes e bs
    → e (ostream_from_buffer buf size) ≡ (true, emit bs (ostream_from_buffer buf size))
fits_fresh bs buf size h small fits w =
    w.stored (ostream_from_buffer buf size) (ostream_from_buffer-IsBuffer buf size h small)
      (unfold ostream_from_buffer in omega arith)

used_up :
    (bs buf : List ℕ) (size : ℕ)
    → (read_back (emit bs (ostream_from_buffer buf size))).bytes_left - length bs ≡ 0
unfolding emit ostream_from_buffer istream_from_buffer
used_up bs buf size = omega arith

reads_back :
    {A : Type 0} (e : Encoder) (bs : List ℕ) (d : Decoder A) (v : A) (buf : List ℕ) (size : ℕ)
    → size ≤ length buf
    → size < 2 ^ 63
    → length bs ≤ size
    → Writes e bs
    → ((rest : List ℕ) (s : Istream) → Ahead bs rest s → d s ≡ (some v, behind (length bs) rest s))
    → ReadsBack e d v buf size
reads_back e bs d v buf size h small fits w reads =
    let out : Ostream = emit bs (ostream_from_buffer buf size) in
    rw (fits_fresh bs buf size h small fits w) (
      rw (reads (drop (length bs) buf) (read_back out) (read_back-Ahead bs buf size h small fits))
        (refl, refl, used_up bs buf size))

module _ (buf : List ℕ) (size : ℕ) (held : size ≤ length buf) (small : size < 2 ^ 63) where
  -- Every uint64 that `pb_encode_varint` finds room for in the buffer is read back by
  -- `pb_decode_varint`, which uses up exactly the bytes written.
  pub varint_round_trip :
      (value : ℕ)
      → IsU64 value
      → length (varint_buffer value) ≤ size
      → ReadsBack (encode_varint value) decode_varint value buf size
  varint_round_trip value h fits =
      reads_back (encode_varint value) (varint 9 value) decode_varint value buf size held small
        (rw (varint_buffer-varint value h) at fits) (encode_varint-Writes value h)
        (λ rest s a. decode_varint-varint value rest h a)

  -- Every uint32 that `pb_encode_varint` finds room for in the buffer is read back by
  -- `pb_decode_varint32`, which uses up exactly the bytes written.
  pub varint32_round_trip :
      (value : ℕ)
      → IsU32 value
      → length (varint_buffer value) ≤ size
      → ReadsBack (encode_varint value) decode_varint32 value buf size
  varint32_round_trip value h fits =
      let wide : IsU64 value = omega arith in
      reads_back (encode_varint value) (varint 9 value) decode_varint32 value buf size held small
        (rw (varint_buffer-varint value wide) at fits) (encode_varint-Writes value wide)
        (λ rest s a. decode_varint32-varint value rest h a)

  -- Every int64, as its 64-bit pattern, that `pb_encode_svarint` finds room for in the buffer is
  -- read back by `pb_decode_svarint`, which uses up exactly the bytes written.
  pub svarint_round_trip :
      (value : ℕ)
      → IsU64 value
      → length (varint_buffer (zigzag value)) ≤ size
      → ReadsBack (encode_svarint value) decode_svarint value buf size
  svarint_round_trip value h fits =
      reads_back (encode_svarint value) (varint 9 (zigzag value)) decode_svarint value buf size held
        small (rw (varint_buffer-varint (zigzag value) (zigzag-lt value h)) at fits)
        (encode_svarint-Writes value h) (λ rest s a. decode_svarint-varint value rest h a)

  -- Every 32-bit word is read back from its four bytes, if the buffer has four.
  pub fixed32_round_trip :
      (value : ℕ)
      → IsU32 value
      → 4 ≤ size
      → ReadsBack (encode_fixed32 value) decode_fixed32 value buf size
  unfolding fixed32_bytes
  fixed32_round_trip value h fits =
      reads_back (encode_fixed32 value) (fixed32_bytes value) decode_fixed32 value buf size held
        small fits (encode_fixed32-Writes value) (λ rest s a. decode_fixed32-bytes value rest h a)

  -- Every 64-bit word is read back from its eight bytes, if the buffer has eight.
  pub fixed64_round_trip :
      (value : ℕ)
      → IsU64 value
      → 8 ≤ size
      → ReadsBack (encode_fixed64 value) decode_fixed64 value buf size
  unfolding fixed64_bytes
  fixed64_round_trip value h fits =
      reads_back (encode_fixed64 value) (fixed64_bytes value) decode_fixed64 value buf size held
        small fits (encode_fixed64-Writes value) (λ rest s a. decode_fixed64-bytes value rest h a)

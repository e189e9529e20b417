-- ===== src/Nanopb/RoundTrip/Field.antt =====
-- A whole length-delimited field, tag and all: its size, its bytes read back, and its skipping.
use native.Mathlib.Decide.{dec_le}
use mathlib.Core.Bool.{false≢true}
use league_ranker.Prelude.{
  ℕ, ◌+◌, ◌*◌, ◌^◌, ◌≤◌, ◌<◌, ◌≡◌, ◌↔◌, refl, ap, sym, ◌∙◌, true, some, List, ◌++◌, length, drop,
  arith, length-append,
}
use league_ranker.Nanopb.Types.{wt_string}
use league_ranker.Nanopb.Ostream.{Ostream, Encoder, ◌>>◌, ostream_from_buffer, ostream_sizing}
use league_ranker.Nanopb.Ostream.Buffer.{emit, counted}
use league_ranker.Nanopb.Ostream.Writes.{Writes, Writes-then}
use league_ranker.Nanopb.Encode.{encode_tag, encode_string}
use league_ranker.Nanopb.Encode.Varint.{varint, length-varint}
use league_ranker.Nanopb.Encode.Scalars.{encode_tag-Writes, encode_string-Writes}
use league_ranker.Nanopb.Istream.{Istream, istream_from_buffer}
use league_ranker.Nanopb.Decode.{decode_tag, tag, TagResult, skip_field}
use league_ranker.Nanopb.Decode.Varint.{Ahead, behind, Ahead-left, Ahead-right}
use league_ranker.Nanopb.Decode.Tag.{decode_tag-varint}
use league_ranker.Nanopb.Decode.Skip.{skip_field-payload, delimited}
use league_ranker.Nanopb.Substream.{make_string_substream}
use league_ranker.Nanopb.Substream.Laws.{make_string_substream-varint, opened, waiting}
use league_ranker.Nanopb.RoundTrip.{
  read_back, ostream_from_buffer-IsBuffer, read_back-Ahead, fits_fresh,
}

-- `pb_encode_tag(stream, PB_WT_STRING, n)` and then `pb_encode_string(stream, buffer, size)`.
abbrev pub string_field : ℕ → List ℕ → Encoder
string_field n buffer = encode_tag wt_string n >> encode_string buffer (length buffer)

-- The bytes of that field.
abbrev pub string_field_bytes : ℕ → List ℕ → List ℕ
string_field_bytes n buffer = varint 9 (wt_string + n * 8) ++ (varint 9 (length buffer) ++ buffer)

pub string_field-Writes :
    (n : ℕ) (buffer : List ℕ)
    → n < 2 ^ 29
    → length buffer < 2 ^ 32
    → Writes (string_field n buffer) (string_field_bytes n buffer)
string_field-Writes n buffer hn hb =
    Writes-then (encode_tag-Writes wt_string n (omega arith) (omega arith))
      (encode_string-Writes buffer (omega arith))

-- What the sizing stream counts is the least buffer size at which the encoder succeeds.
size_exact :
    (e : Encoder) (bs buf : List ℕ) (size : ℕ)
    → size ≤ length buf
    → size < 2 ^ 63
    → length bs < 2 ^ 63
    → Writes e bs
    → ((e (ostream_from_buffer buf size)).0 ≡ true) ↔ ((e ostream_sizing).1.bytes_written ≤ size)
size_exact e bs buf size h small short w =
    (enough, λ le. ap (λ r. r.0) (fits_fresh bs buf size h small (omega (arith, count)) w))
  where
    count : (e ostream_sizing).1.bytes_written ≡ length bs
    count =
        rw
          (w.counts ostream_sizing (unfold ostream_sizing in record { no_callback = refl })
            (unfold ostream_sizing in omega arith))
          (unfold counted ostream_sizing in omega arith)

    enough : (e (ostream_from_buffer buf size)).0 ≡ true → (e ostream_sizing).1.bytes_written ≤ size
    enough done = elim (dec_le (length bs) size) [
      | yes fits ↦ omega (arith, count)
      | no over ↦
          let (refused, valid) =
            w.refused (ostream_from_buffer buf size) (ostream_from_buffer-IsBuffer buf size h small)
              (unfold ostream_from_buffer in omega arith) in
          absurd (false≢true (sym refused ∙ done))
    ]

length-string_field :
    (n : ℕ) (buffer : List ℕ) → length (string_field_bytes n buffer) ≤ 20 + length buffer
length-string_field n buffer = omega (
  arith,
  length-append (varint 9 (wt_string + n * 8)) (varint 9 (length buffer) ++ buffer),
  length-append (varint 9 (length buffer)) buffer,
  length-varint 9 (wt_string + n * 8),
  length-varint 9 (length buffer),
)

-- What each of the three readers makes of a stream that ends with the field.
record FieldRead (n : ℕ) (buffer tail : List ℕ) (t : TagResult) (s : Istream) : Type 0 where
  tagged : t ≡ tag wt_string n
  covered : (make_string_substream s).0 ≡ some (opened buffer tail s)
  taken : (make_string_substream s).1.bytes_left ≡ 0
  skipped : (skip_field wt_string s).0 ≡ some tt
  passed : (skip_field wt_string s).1.bytes_left ≡ 0

behind_tag :
    (n : ℕ) (buffer tail : List ℕ) {s : Istream}
    → length buffer < 2 ^ 32
    → Ahead (varint 9 (length buffer) ++ buffer) tail s
    → s.bytes_left ≡ length (varint 9 (length buffer) ++ buffer)
    → FieldRead n buffer tail (tag wt_string n) s
behind_tag n buffer tail {s} hb a all = record {
  tagged = refl;
  covered = rw made;
  taken = rw made (omega arith);
  skipped = rw skips;
  passed = rw skips (omega arith);
}
  where
    made : make_string_substream s ≡ (some (opened buffer tail s), waiting buffer tail s)
    made = make_string_substream-varint buffer tail hb a

    skips :
        skip_field wt_string s
        ≡ (some tt, behind (length (varint 9 (length buffer) ++ buffer)) tail s)
    skips = skip_field-payload (delimited buffer) tail hb a

field_read :
    (n : ℕ) (buffer tail : List ℕ) (s : Istream)
    → 0 < n
    → n < 2 ^ 29
    → length buffer < 2 ^ 32
    → Ahead (string_field_bytes n buffer) tail s
    → s.bytes_left ≡ length (string_field_bytes n buffer)
    → let (t, s₁) = decode_tag s in FieldRead n buffer tail t s₁
field_read n buffer tail s hp hn hb a all =
    let word : List ℕ = varint 9 (wt_string + n * 8) in
    let body : List ℕ = varint 9 (length buffer) ++ buffer in
    rw
      (decode_tag-varint wt_string n (body ++ tail) (omega arith) hp hn
        (Ahead-left word body tail a))
      (behind_tag n buffer tail hb (Ahead-right word body tail a)
        (omega (arith, length-append word body)))

all_written :
    (bs buf : List ℕ) (size : ℕ)
    → (read_back (emit bs (ostream_from_buffer buf size))).bytes_left ≡ length bs
unfolding emit ostream_from_buffer istream_from_buffer
all_written bs buf size = omega arith

module _ (n : ℕ) (buffer buf : List ℕ) (size : ℕ) where
  -- The encoder of a string field succeeds on a buffer exactly where the size that the sizing stream
  -- counts for it is at most the size of the buffer.
  pub string_field_size :
      n < 2 ^ 29
      → length buffer < 2 ^ 32
      → size ≤ length buf
      → size < 2 ^ 63
      → ((string_field n buffer (ostream_from_buffer buf size)).0 ≡ true)
        ↔ ((string_field n buffer ostream_sizing).1.bytes_written ≤ size)
  string_field_size hn hb h small =
      size_exact (string_field n buffer) (string_field_bytes n buffer) buf size h small
        (omega (arith, length-string_field n buffer)) (string_field-Writes n buffer hn hb)

  -- A string field that fits is encoded; then its tag is decoded, the substream behind it covers
  -- exactly the string, and making the substream as well as skipping the field uses up the input.
  pub string_field_round_trip :
      0 < n
      → n < 2 ^ 29
      → length buffer < 2 ^ 32
      → size ≤ length buf
      → size < 2 ^ 63
      → length (string_field_bytes n buffer) ≤ size
      → let (done, out) = string_field n buffer (ostream_from_buffer buf size) in
        let (t, s) = decode_tag (read_back out) in
        (done ≡ true)
        × (t ≡ tag wt_string n)
        × ((make_string_substream s).0
            ≡ some (opened buffer (drop (length (string_field_bytes n buffer)) buf) s))
        × ((make_string_substream s).1.bytes_left ≡ 0)
        × ((skip_field wt_string s).0 ≡ some tt)
        × ((skip_field wt_string s).1.bytes_left ≡ 0)
  string_field_round_trip hp hn hb h small fits =
      let bs : List ℕ = string_field_bytes n buffer in
      let w = string_field-Writes n buffer hn hb in
      let out : Ostream = emit bs (ostream_from_buffer buf size) in
      let r =
        field_read n buffer (drop (length bs) buf) (read_back out) hp hn hb
          (read_back-Ahead bs buf size h small fits) (all_written bs buf size) in
      rw (fits_fresh bs buf size h small fits w)
        (refl, r.tagged, r.covered, r.taken, r.skipped, r.passed)

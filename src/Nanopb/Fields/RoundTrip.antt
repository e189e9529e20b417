-- ===== src/Nanopb/Fields/RoundTrip.antt =====
-- The integer fields, written and read back.
use mathlib.Core.Path.{subst}
use league_ranker.Nanopb.Encode.Scalars.{zigzag-lt}
use league_ranker.Nanopb.Encode.Varint.{length-varint, varint_buffer-varint}
use league_ranker.Prelude.{
  ℕ, ◌*◌, ◌%◌, ◌^◌, ◌≡◌, ◌≤◌, ◌<◌, ◌⊎◌, inl, inr, refl, ap, sym, ◌∙◌, some, List, length, arith,
  ◌==◌, if◌then◌else◌,
}
use league_ranker.Nanopb.Types.{IsU64}
use league_ranker.Nanopb.Ostream.{Encoder, ostream_from_buffer}
use league_ranker.Nanopb.Encode.{varint_buffer, zigzag, encode_varint, encode_svarint}
use league_ranker.Nanopb.Istream.{Istream, Decoder, ◌>>=◌, >>=-some}
use league_ranker.Nanopb.Decode.{decode_varint, decode_svarint}
use league_ranker.Nanopb.RoundTrip.{ReadsBack, varint_round_trip, svarint_round_trip, read_back}
use league_ranker.Nanopb.Iter.{Field}
use league_ranker.Nanopb.Fields.{
  extend, signed_at, unsigned_at, enc_varint, enc_uvarint, enc_svarint, clamp_signed,
  clamp_unsigned, checked, store_varint, store_uvarint, store_svarint, dec_varint, dec_uvarint,
  dec_svarint,
}

-- The sizes that an integer has in a C structure.
abbrev pub IsSize : ℕ → Type 0
IsSize n = (n ≡ 1) ⊎ ((n ≡ 2) ⊎ ((n ≡ 4) ⊎ (n ≡ 8)))

-- A decoder that goes on with the value and takes no more bytes.
ReadsBack-then :
    (e : Encoder) (d : Decoder ℕ) (v w : ℕ) (buf : List ℕ) (size : ℕ) (k : ℕ → Decoder ℕ)
    → ((s : Istream) → k v s ≡ (some w, s))
    → ReadsBack e d v buf size
    → ReadsBack e (d >>= k) w buf size
ReadsBack-then e d v w buf size k goes_on (done, value, used) =
    let s = read_back (e (ostream_from_buffer buf size)).1 in
    let step : (d >>= k) s ≡ (some w, (d s).1) =
      >>=-some d k s (ap (λ o. (o, (d s).1)) value) ∙ goes_on (d s).1 in
    (done, ap (λ r. r.0) step, ap (λ r. r.1.bytes_left) step ∙ used)

-- What the encoder makes of an integer of the field, the decoder takes back.
record Signed (n src v : ℕ) : Type 0 where
  value : signed_at n src ≡ some v
  wide : v < 2 ^ 64
  narrow : clamp_signed n v ≡ some (src, v)
  issue_97 : (if n == 8 then v else extend 32 (v % 2 ^ 32)) ≡ v

module _ (src : ℕ) where
  Signed-byte : src < 2 ^ 8 → Signed 1 src (extend 8 src)
  unfolding signed_at extend clamp_signed
  Signed-byte h = record {
    value = refl;
    wide = ground arith;
    narrow = ground arith;
    issue_97 = ground arith;
  }

  Signed-short : src < 2 ^ 16 → Signed 2 src (extend 16 src)
  unfolding signed_at extend clamp_signed
  Signed-short h = record {
    value = refl;
    wide = ground arith;
    narrow = ground arith;
    issue_97 = ground arith;
  }

  Signed-word : src < 2 ^ 32 → Signed 4 src (extend 32 src)
  unfolding signed_at extend clamp_signed
  Signed-word h = record {
    value = refl;
    wide = ground arith;
    narrow = ground arith;
    issue_97 = ground arith;
  }

  Signed-long : src < 2 ^ 64 → Signed 8 src src
  unfolding signed_at extend clamp_signed
  Signed-long h = record { value = refl; wide = h; narrow = refl; issue_97 = refl }

  Signed-any : (n : ℕ) → IsSize n → src < 2 ^ (8 * n) → (v : ℕ) × Signed n src v
  Signed-any n (inl e) h =
      subst (λ n. src < 2 ^ (8 * n) → (v : ℕ) × Signed n src v) (sym e) (λ h. (_, Signed-byte h)) h
  Signed-any n (inr (inl e)) h =
      subst (λ n. src < 2 ^ (8 * n) → (v : ℕ) × Signed n src v) (sym e) (λ h. (_, Signed-short h)) h
  Signed-any n (inr (inr (inl e))) h =
      subst (λ n. src < 2 ^ (8 * n) → (v : ℕ) × Signed n src v) (sym e) (λ h. (_, Signed-word h)) h
  Signed-any n (inr (inr (inr e))) h =
      subst (λ n. src < 2 ^ (8 * n) → (v : ℕ) × Signed n src v) (sym e) (λ h. (_, Signed-long h)) h

length-varint_buffer : (v : ℕ) → IsU64 v → length (varint_buffer v) ≤ 10
length-varint_buffer v h = rw (varint_buffer-varint v h) (length-varint 9 v).1

checked-same : (src v : ℕ) (st : Istream) → checked (some (src, v)) v st ≡ (some src, st)
checked-same src v st = ground arith

unsigned_any :
    (src n : ℕ)
    → IsSize n
    → src < 2 ^ (8 * n)
    → (src < 2 ^ 64) × (unsigned_at n src ≡ some src) × (clamp_unsigned n src ≡ some (src, src))
unfolding unsigned_at clamp_unsigned
unsigned_any src n (inl e) h = ground (arith, ap (λ m. 2 ^ (8 * m)) e)
unsigned_any src n (inr (inl e)) h = ground (arith, ap (λ m. 2 ^ (8 * m)) e)
unsigned_any src n (inr (inr (inl e))) h = ground (arith, ap (λ m. 2 ^ (8 * m)) e)
unsigned_any src n (inr (inr (inr e))) h = ground (arith, ap (λ m. 2 ^ (8 * m)) e)

module _ (field : Field) (src : ℕ) (buf : List ℕ) (size : ℕ) (held : size ≤ length buf)
    (small : size < 2 ^ 63) (room : 10 ≤ size) (is : IsSize field.data_size)
    (h : src < 2 ^ (8 * field.data_size)) where
  -- Every signed integer of a field of 1, 2, 4 or 8 bytes that `pb_enc_varint` writes into a buffer
  -- of ten bytes at least is read back by `pb_dec_varint`, all bytes written being used up.
  pub int_field_round_trip : ReadsBack (enc_varint field src) (dec_varint field) src buf size
  unfolding enc_varint dec_varint store_varint
  int_field_round_trip =
      let (v, s) = Signed-any src field.data_size is h in
      rw s.value (
        ReadsBack-then (encode_varint v) decode_varint v src buf size (store_varint field)
          (λ st. rw (s.issue_97, s.narrow) (checked-same src v st))
          (varint_round_trip buf size held small v s.wide
            (omega (arith, length-varint_buffer v s.wide))))

  -- Every unsigned integer of such a field that `pb_enc_uvarint` writes into such a buffer is read
  -- back by `pb_dec_uvarint`, all bytes written being used up.
  pub uint_field_round_trip : ReadsBack (enc_uvarint field src) (dec_uvarint field) src buf size
  unfolding enc_uvarint dec_uvarint store_uvarint
  uint_field_round_trip =
      let (wide, at, narrow) = unsigned_any src field.data_size is h in
      rw at (
        ReadsBack-then (encode_varint src) decode_varint src src buf size (store_uvarint field)
          (λ st. rw narrow (checked-same src src st))
          (varint_round_trip buf size held small src wide
            (omega (arith, length-varint_buffer src wide))))

  -- Every signed integer of such a field that `pb_enc_svarint` writes, in zigzag form, into such a
  -- buffer is read back by `pb_dec_svarint`, all bytes written being used up.
  pub sint_field_round_trip : ReadsBack (enc_svarint field src) (dec_svarint field) src buf size
  unfolding enc_svarint dec_svarint store_svarint
  sint_field_round_trip =
      let (v, s) = Signed-any src field.data_size is h in
      rw s.value (
        ReadsBack-then (encode_svarint v) decode_svarint v src buf size (store_svarint field)
          (λ st. rw s.narrow (checked-same src v st))
          (svarint_round_trip buf size held small v s.wide
            (omega (arith, length-varint_buffer (zigzag v) (zigzag-lt v s.wide)))))

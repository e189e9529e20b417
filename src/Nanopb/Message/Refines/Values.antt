-- ===== src/Nanopb/Message/Refines/Values.antt =====
-- The encoders of values against the format.
use mathlib.Core.Path.{subst}
use league_ranker.Prelude.{
  ℕ, suc, ◌+◌, ◌-◌, ◌*◌, ◌/◌, ◌^◌, ◌<◌, ◌≡◌, refl, sym, Bool, true, false, Option, none, some, [],
  ==_iff, arith, if◌then◌else◌, ◌&&◌, ◌||◌, ltb, ◌==◌, bit_and,
}
use league_ranker.Prelude.Bits.{bit_and-mask}
use league_ranker.Nanopb.Types.{
  wt_varint, wt_64bit, wt_string, wt_32bit, invalid_field_type, invalid_data_size,
  bytes_size_exceeded, IsU64,
}
use league_ranker.Nanopb.Ostream.{Encoder, write}
use league_ranker.Nanopb.Encode.{
  zigzag, encode_varint, encode_svarint, fixed32_bytes, encode_fixed32, fixed64_bytes,
  encode_fixed64,
}
use league_ranker.Nanopb.Encode.Scalars.{zigzag-lt}
use league_ranker.Nanopb.Encode.Varint.{varint}
use league_ranker.Nanopb.Iter.{Field, atype, ltype}
use league_ranker.Nanopb.Fields.{
  extend, signed_at, unsigned_at, encode_at, enc_varint, enc_uvarint, enc_svarint,
}
use league_ranker.Nanopb.Store.{Mem, load, size_at, bytes_at, array_bytes, bytes_array_allocsize}
use league_ranker.Nanopb.Store.Loads.{IsMem, load-lt, length-bytes_at, strnlen-le}
use league_ranker.Nanopb.Message.Values.{
  encode_tag_for_field, enc_bytes, string_size, enc_string, enc_fixed_length_bytes,
}
use league_ranker.Nanopb.Message.Outcome.{
  written, delimited, Encodes, tag-Encodes, error-Encodes, if-Encodes, varint-Encodes,
  write-Encodes, string-Encodes,
}
use league_ranker.Nanopb.Message.Contents.{signed_pattern, unsigned_pattern, alternating, text_of}
use league_ranker.Nanopb.Message.Refines.Contents.{
  signed_at-pattern, unsigned_at-pattern, zigzag-alternating, string_size-text,
}
use league_ranker.Nanopb.Message.Format.{tag_outcome, number_outcome, bytes_outcome}

pub tag_for_field-Encodes :
    (field : Field) → Encodes (encode_tag_for_field field) (tag_outcome field)
unfolding encode_tag_for_field tag_outcome
tag_for_field-Encodes field =
    let t = ltype field.type in
    if-Encodes ((t == 0) || ((t == 1) || (t == 2))) (tag-Encodes wt_varint field.tag (omega arith))
      (if-Encodes (t == 3) (tag-Encodes wt_32bit field.tag (omega arith)) (
        if-Encodes (t == 4) (tag-Encodes wt_64bit field.tag (omega arith)) (
          if-Encodes ((t == 5) || ((t == 6) || ((t == 7) || (t == 9))))
            (tag-Encodes wt_string field.tag (omega arith)) (error-Encodes invalid_field_type))))

-- An optional number below 2 ^ 64.
abbrev IsWide : Option ℕ → Type 0
IsWide none = Unit
IsWide (some v) = IsU64 v

number-Encodes :
    (o : Option ℕ) (form : ℕ → ℕ) (encode : ℕ → Encoder)
    → IsWide o
    → ((v : ℕ) → IsU64 v → Encodes (encode v) (written (varint 9 (form v))))
    → Encodes (encode_at o encode) (number_outcome form o)
number-Encodes none form encode h step = error-Encodes invalid_data_size
number-Encodes (some v) form encode h step = step v h

if-IsWide :
    (b : Bool) (o o' : Option ℕ) → (b ≡ true → IsWide o) → IsWide o' → IsWide (if b then o else o')
if-IsWide true o o' h h' = h refl
if-IsWide false o o' h h' = h'

sized : (n k src : ℕ) → src < 256 ^ n → (n == k) ≡ true → src < 256 ^ k
sized n k src h e = subst (λ m. src < 256 ^ m) ((==_iff n k).0 e) h

signed_at-IsWide : (n src : ℕ) → src < 256 ^ n → IsWide (signed_at n src)
unfolding signed_at extend
signed_at-IsWide n src h =
    if-IsWide (n == 1) _ _ (λ e. let b : src < 256 ^ 1 = sized n 1 src h e in ground arith)
      (if-IsWide (n == 2) _ _ (λ e. let b : src < 256 ^ 2 = sized n 2 src h e in ground arith)
        (if-IsWide (n == 4) _ _ (λ e. let b : src < 256 ^ 4 = sized n 4 src h e in ground arith)
          (if-IsWide (n == 8) _ _ (λ e. let b : src < 256 ^ 8 = sized n 8 src h e in omega arith)
            tt)))

unsigned_at-IsWide : (n src : ℕ) → src < 256 ^ n → IsWide (unsigned_at n src)
unfolding unsigned_at
unsigned_at-IsWide n src h =
    if-IsWide (n == 1) _ _ (λ e. let b : src < 256 ^ 1 = sized n 1 src h e in omega arith)
      (if-IsWide (n == 2) _ _ (λ e. let b : src < 256 ^ 2 = sized n 2 src h e in omega arith)
        (if-IsWide (n == 4) _ _ (λ e. let b : src < 256 ^ 4 = sized n 4 src h e in omega arith)
          (if-IsWide (n == 8) _ _ (λ e. let b : src < 256 ^ 8 = sized n 8 src h e in omega arith)
            tt)))

-- `& 0xff` of a number is its lowest byte, and the shifts take the bytes of a word in the order of
-- the memory.
byte_of : (n b r : ℕ) → b < 256 → n ≡ b + 256 * r → bit_and n 0xff ≡ b
byte_of n b r h e = omega (arith, bit_and-mask 8 n)

module _ (mem : Mem) (v : IsMem mem) (p : ℕ) where
  fixed32_bytes-load : fixed32_bytes (load mem 4 p) ≡ bytes_at mem 4 p
  unfolding fixed32_bytes load bytes_at
  fixed32_bytes-load =
      let b₁ = v p in
      let b₂ = v (suc p) in
      let b₃ = v (suc (suc p)) in
      let b₄ = v (suc (suc (suc p))) in
      rw
        (
          byte_of (load mem 4 p) (mem p) (load mem 3 (suc p)) b₁ (omega arith),
          byte_of (load mem 4 p / 2 ^ 8) (mem (suc p)) (load mem 2 (suc (suc p))) b₂ (omega arith),
          byte_of (load mem 4 p / 2 ^ 16) (mem (suc (suc p))) (load mem 1 (suc (suc (suc p)))) b₃
              (omega arith),
          byte_of (load mem 4 p / 2 ^ 24) (mem (suc (suc (suc p)))) 0 b₄ (omega arith),
        )
        refl

  fixed64_bytes-load : fixed64_bytes (load mem 8 p) ≡ bytes_at mem 8 p
  unfolding fixed64_bytes load bytes_at
  fixed64_bytes-load =
      rw
        (
          byte_of (load mem 8 p) (mem p) (load mem 7 (suc p)) (v p) (omega (arith)),
          byte_of (load mem 8 p / 2 ^ 8) (mem (suc p)) (load mem 6 (suc (suc p))) (v (suc p))
              (omega (arith, v p)),
          byte_of (load mem 8 p / 2 ^ 16) (mem (suc (suc p))) (load mem 5 (suc (suc (suc p))))
              (v (suc (suc p))) (omega (arith, v p, v (suc p))),
          byte_of (load mem 8 p / 2 ^ 24) (mem (suc (suc (suc p))))
              (load mem 4 (suc (suc (suc (suc p))))) (v (suc (suc (suc p))))
              (omega (arith, v p, v (suc p), v (suc (suc p)))),
          byte_of (load mem 8 p / 2 ^ 32) (mem (suc (suc (suc (suc p)))))
              (load mem 3 (suc (suc (suc (suc (suc p)))))) (v (suc (suc (suc (suc p)))))
              (omega (arith, v p, v (suc p), v (suc (suc p)), v (suc (suc (suc p))))),
          byte_of (load mem 8 p / 2 ^ 40) (mem (suc (suc (suc (suc (suc p))))))
              (load mem 2 (suc (suc (suc (suc (suc (suc p))))))) (v (suc (suc (suc (suc (suc p))))))
              (omega (
                arith,
                v p,
                v (suc p),
                v (suc (suc p)),
                v (suc (suc (suc p))),
                v (suc (suc (suc (suc p)))),
              )),
          byte_of (load mem 8 p / 2 ^ 48) (mem (suc (suc (suc (suc (suc (suc p)))))))
              (load mem 1 (suc (suc (suc (suc (suc (suc (suc p))))))))
              (v (suc (suc (suc (suc (suc (suc p)))))))
              (omega (
                arith,
                v p,
                v (suc p),
                v (suc (suc p)),
                v (suc (suc (suc p))),
                v (suc (suc (suc (suc p)))),
                v (suc (suc (suc (suc (suc p))))),
              )),
          byte_of (load mem 8 p / 2 ^ 56) (mem (suc (suc (suc (suc (suc (suc (suc p)))))))) 0
              (v (suc (suc (suc (suc (suc (suc (suc p))))))))
              (omega (
                arith,
                v p,
                v (suc p),
                v (suc (suc p)),
                v (suc (suc (suc p))),
                v (suc (suc (suc (suc p)))),
                v (suc (suc (suc (suc (suc p))))),
                v (suc (suc (suc (suc (suc (suc p)))))),
              )),
        )
        refl

-- A pointer to bytes may be NULL; the strings are no longer than `strnlen` allows.
module _ (mem : Mem) (v : IsMem mem) (field : Field) (src : ℕ) where
  pub varint_field-Encodes :
      Encodes
        (enc_varint field (load mem field.data_size src))
        (number_outcome (λ v. v) (signed_pattern field.data_size (load mem field.data_size src)))
  unfolding enc_varint
  varint_field-Encodes = rw (← signed_at-pattern field.data_size (load mem field.data_size src)) (
      number-Encodes _ (λ v. v) encode_varint
        (signed_at-IsWide field.data_size _ (load-lt mem v field.data_size src)) varint-Encodes)

  pub uvarint_field-Encodes :
      Encodes
        (enc_uvarint field (load mem field.data_size src))
        (number_outcome (λ v. v) (unsigned_pattern field.data_size (load mem field.data_size src)))
  unfolding enc_uvarint
  uvarint_field-Encodes =
      rw (← unsigned_at-pattern field.data_size (load mem field.data_size src)) (
        number-Encodes _ (λ v. v) encode_varint
          (unsigned_at-IsWide field.data_size _ (load-lt mem v field.data_size src)) varint-Encodes)

  pub svarint_field-Encodes :
      Encodes
        (enc_svarint field (load mem field.data_size src))
        (number_outcome alternating (signed_pattern field.data_size (load mem field.data_size src)))
  unfolding enc_svarint encode_svarint
  svarint_field-Encodes = rw (← signed_at-pattern field.data_size (load mem field.data_size src)) (
      number-Encodes _ alternating encode_svarint
        (signed_at-IsWide field.data_size _ (load-lt mem v field.data_size src))
        (λ v h. rw (← zigzag-alternating v h) (varint-Encodes (zigzag v) (zigzag-lt v h))))

  pub fixed32-Encodes : Encodes (encode_fixed32 (load mem 4 src)) (written (bytes_at mem 4 src))
  unfolding encode_fixed32 bytes_at
  fixed32-Encodes =
      subst (λ bs. Encodes (λ s. write s bs 4) (written (bytes_at mem 4 src)))
        (sym (fixed32_bytes-load mem v src)) (write-Encodes (bytes_at mem 4 src))

  pub fixed64-Encodes : Encodes (encode_fixed64 (load mem 8 src)) (written (bytes_at mem 8 src))
  unfolding encode_fixed64 bytes_at
  fixed64-Encodes =
      subst (λ bs. Encodes (λ s. write s bs 8) (written (bytes_at mem 8 src)))
        (sym (fixed64_bytes-load mem v src)) (write-Encodes (bytes_at mem 8 src))

  pub bytes-Encodes : Encodes (enc_bytes mem field src) (bytes_outcome mem field src)
  unfolding enc_bytes bytes_outcome
  bytes-Encodes =
      let size = size_at mem src in
      if-Encodes (src == 0) (string-Encodes [] 0 refl (omega arith)) (
        if-Encodes ((atype field.type == 0x00) && ltb field.data_size (bytes_array_allocsize size))
          (error-Encodes bytes_size_exceeded)
          (string-Encodes (bytes_at mem size (array_bytes src)) size
            (length-bytes_at mem size (array_bytes src)) (omega (arith, load-lt mem v 4 src))))

  string_size-lt : field.data_size < 2 ^ 32 → string_size mem field src < 2 ^ 64
  unfolding string_size
  string_size-lt small =
      ground (arith, strnlen-le mem (2 ^ 64 - 1) src, strnlen-le mem field.data_size src)

  pub string_field-Encodes :
      field.data_size < 2 ^ 32
      → Encodes (enc_string mem field src) (written (delimited (text_of mem field src)))
  unfolding enc_string
  string_field-Encodes small = rw (← string_size-text mem field src) (
      string-Encodes _ _ (length-bytes_at mem (string_size mem field src) src)
        (string_size-lt small))

  pub fixed_length-Encodes :
      field.data_size < 2 ^ 32
      → Encodes
          (enc_fixed_length_bytes mem field src)
          (written (delimited (bytes_at mem field.data_size src)))
  unfolding enc_fixed_length_bytes
  fixed_length-Encodes small =
      string-Encodes _ _ (length-bytes_at mem field.data_size src) (omega arith)

-- ===== src/Nanopb/Message/Tests.antt =====
-- A message with a number, a submessage, a packed array and a callback field, and the theorems there.
use league_ranker.Prelude.{
  ℕ, zero, suc, ◌-◌, ◌%◌, ◌^◌, ◌<◌, ◌≡◌, refl, true, none, some, [], ◌∷◌, ◌==◌, if◌then◌else◌,
  length, replicate, get_or, arith, Bool-cases, inl, inr,
}
use league_ranker.Nanopb.Ostream.{◌>>◌, write, ostream_from_buffer, ostream_sizing}
use league_ranker.Nanopb.Ostream.Buffer.{IsBuffer}
use league_ranker.Nanopb.Encode.{
  encode_varint, varint_buffer, groups, unset_last, tag_word, encode_tag, encode_string,
  encode_fixed32, fixed32_bytes,
}
use league_ranker.Nanopb.Iter.{Field, field_at, iter_begin, iter_next}
use league_ranker.Nanopb.Iter.Walk.{IsFields, walk}
use league_ranker.Nanopb.Store.{Mem, load, bytes_at, all_zero}
use league_ranker.Nanopb.Fields.{unsigned_at, enc_uvarint}
use league_ranker.Nanopb.Encode.Varint.{varint}
use league_ranker.Nanopb.Message.Presence.{has_field, count_of}
use league_ranker.Nanopb.Message.Default.{default_value}
use league_ranker.Nanopb.Message.{Source, encode_array, encode, get_encoded_size}
use league_ranker.Nanopb.Message.Values.{
  done, encode_tag_for_field, encode_submessage, submessage_body, packed_body,
}
use league_ranker.Nanopb.Message.Outcome.{
  written, ◌then◌, delimited, done-Encodes, then-Encodes, string-Encodes,
}
use league_ranker.Nanopb.Message.Sample.{outer, inner, tables}
use league_ranker.Nanopb.Message.Format.{Users, tag_outcome, message_outcome}
use league_ranker.Nanopb.Message.Refines.Values.{tag_for_field-Encodes}
use league_ranker.Nanopb.Message.Refines.Fields.{IsSource}
use league_ranker.Nanopb.Message.Refines.Size.{
  fits_in, buffer-IsClean, get_encoded_size_exact, encode-IsBuffer,
}

-- The structure at 1000: 300, the flag and the 7 of the submessage, two of three numbers, and the
-- callback 5.
abbrev memory : Mem
memory a =
    get_or
      (0x2c ∷ 1 ∷ 0 ∷ 0 ∷ 1 ∷ 0 ∷ 0 ∷ 0 ∷ 7 ∷ 0 ∷ 0 ∷ 0 ∷ 2 ∷ 0 ∷ 0 ∷ 0 ∷ 1 ∷ 0 ∷ 150 ∷ 0 ∷ 9 ∷ 9
        ∷ 0 ∷ 0 ∷ 5 ∷ [])
      (a - 1000) 0
    % 256

-- A callback that writes a string of two characters.
abbrev app : Source
app = record {
  mem = memory;
  fields = tables;
  callback = λ func field arg. encode_tag_for_field field >> encode_string (97 ∷ 98 ∷ []) 2;
  extension = λ func extension. done;
}

abbrev users : Users
users = record {
  callback = λ func field arg. tag_outcome field then written (delimited (97 ∷ 98 ∷ []));
  extension = λ func extension. written [];
}

outer-IsFields : IsFields outer
outer-IsFields zero h = omega arith
outer-IsFields (suc zero) h = omega arith
outer-IsFields (suc (suc zero)) h = omega arith
outer-IsFields (suc (suc (suc zero))) h = omega arith
outer-IsFields (suc (suc (suc (suc i)))) h = absurd (omega arith)

inner-IsFields : IsFields inner
inner-IsFields zero h = omega arith
inner-IsFields (suc i) h = absurd (omega arith)

tables-IsFields : (ptr : ℕ) → IsFields (tables ptr)
tables-IsFields ptr = elim (Bool-cases (ptr == 1)) [
  | inl e ↦ rw e outer-IsFields
  | inr e ↦ elim (Bool-cases (ptr == 2)) [
    | inl e' ↦ rw (e, e') inner-IsFields
    | inr e' ↦ rw (e, e') (λ i h. absurd (omega arith))
  ]
]

outer_sizes : (i : ℕ) → (field_at outer i).data_size < 2 ^ 32
outer_sizes zero = omega arith
outer_sizes (suc zero) = omega arith
outer_sizes (suc (suc zero)) = omega arith
outer_sizes (suc (suc (suc zero))) = omega arith
outer_sizes (suc (suc (suc (suc i)))) = omega arith

inner_sizes : (i : ℕ) → (field_at inner i).data_size < 2 ^ 32
inner_sizes zero = omega arith
inner_sizes (suc i) = omega arith

tables_sizes : (ptr i : ℕ) → (field_at (tables ptr) i).data_size < 2 ^ 32
tables_sizes ptr i = elim (Bool-cases (ptr == 1)) [
  | inl e ↦ rw e (outer_sizes i)
  | inr e ↦ elim (Bool-cases (ptr == 2)) [
    | inl e' ↦ rw (e, e') (inner_sizes i)
    | inr e' ↦ rw (e, e') (omega arith)
  ]
]

app-IsSource : IsSource app users
app-IsSource = record {
  memory = λ a. omega arith;
  descriptors = tables-IsFields;
  sizes = tables_sizes;
  callbacks = λ func field arg.
      then-Encodes _ _ _ _ (tag_for_field-Encodes field)
        (string-Encodes (97 ∷ 98 ∷ []) 2 refl (omega arith));
  extensions = λ func extension. done-Encodes;
}

expected :
    message_outcome memory tables users 3 1 1000
    ≡ written (
        0x08 ∷ 0xac ∷ 0x02 ∷ 0x12 ∷ 0x05 ∷ 0x0d ∷ 7 ∷ 0 ∷ 0 ∷ 0 ∷ 0x1a ∷ 3 ∷ 1 ∷ 0x96 ∷ 1 ∷ 0x22 ∷ 2
        ∷ 97 ∷ 98 ∷ [])
unfolding message_outcome walk iter_begin unsigned_at varint tag_word load has_field iter_next
    default_value all_zero bytes_at
expected = refl

short : length (message_outcome memory tables users 3 1 1000).0 < 2 ^ 63
short = rw expected (omega arith)

counted_size : get_encoded_size app 3 1 1000 ≡ some 19
unfolding get_encoded_size iter_begin encode_tag_for_field encode_tag encode_varint write
    ostream_sizing enc_uvarint unsigned_at iter_next has_field encode_submessage default_value
    all_zero encode_fixed32 submessage_body load packed_body encode_string fixed32_bytes groups
    tag_word unset_last varint_buffer
counted_size = refl

-- With too few levels the submessage is not encoded.
too_shallow : get_encoded_size app 1 1 1000 ≡ none
unfolding get_encoded_size iter_begin encode_tag_for_field encode_tag encode_varint write
    ostream_sizing enc_uvarint unsigned_at iter_next has_field encode_submessage
too_shallow = refl

get_encoded_size_exact_example :
    (encode app 3 1 1000 (ostream_from_buffer (replicate 18 0) 18)).0
    ≡ fits_in (get_encoded_size app 3 1 1000) 18
get_encoded_size_exact_example =
    get_encoded_size_exact app users app-IsSource 3 1 1000 short (replicate 18 0) 18 (omega arith)
      (omega arith)

encode-IsBuffer_example : IsBuffer (encode app 3 1 1000 (ostream_from_buffer (replicate 10 0) 10)).1
encode-IsBuffer_example =
    encode-IsBuffer app users app-IsSource 3 1 1000 short (ostream_from_buffer (replicate 10 0) 10)
      (buffer-IsClean (replicate 10 0) 10 (omega arith) (omega arith))

-- A message whose array of four numbers has a fixed count, and so no field for it.
abbrev fixed_count : Field
fixed_count = record {
  tag = 1;
  type = 0x21;
  data_offset = 0;
  size_offset = 0;
  data_size = 4;
  array_size = 4;
  ptr = 0;
}

-- As its first number is 0, `pb_check_proto3_default_value` takes it for empty, whatever the others
-- are: it reads the count where the data are.
fixed_count_dropped :
    default_value (λ a. if a == 1004 then 7 else 0) (λ ptr. []) 2 fixed_count 1000 ≡ true
unfolding default_value load
fixed_count_dropped = refl

-- `encode_basic_field` would write it.
fixed_count_encoded :
    (encode_array app
      (λ p. done)
      fixed_count
      1000
      (count_of memory fixed_count 1000)
      ostream_sizing).0
    ≡ true
unfolding encode_array encode_tag encode_varint write ostream_sizing packed_body
fixed_count_encoded = refl

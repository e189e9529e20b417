-- ===== src/Nanopb/Message/Refines/Fields.antt =====
-- The encoders of fields and messages against the format.
use league_ranker.Prelude.{
  ℕ, zero, suc, ◌^◌, ◌<◌, refl, true, false, arith, if◌then◌else◌, ◌&&◌, ◌||◌, not, ltb, leb, ◌==◌,
  Bool-cases, inl, inr,
}
use league_ranker.Nanopb.Types.{
  wt_string, array_max_size_exceeded, missing_required_field, invalid_field_type, callback_error,
  invalid_field_descriptor,
}
use league_ranker.Nanopb.Ostream.{Encoder, return_error}
use league_ranker.Nanopb.Encode.{encode_tag}
use league_ranker.Nanopb.Iter.{Field, atype, htype, ltype, field_at}
use league_ranker.Nanopb.Iter.Walk.{IsFields}
use league_ranker.Nanopb.Store.{
  pointer_at, callback_arg, extension_dest, extension_next, type_encode, type_arg,
}
use league_ranker.Nanopb.Store.Loads.{IsMem, length-bytes_at}
use league_ranker.Nanopb.Message.{
  Source, encode_entry, encode_array, encode_callback_field, enc_submessage, encoder_of, tagged,
  encode_basic_field, encode_field, default_extension_encoder, encode_extension, extension_loop,
  encode_at,
}
use league_ranker.Nanopb.Message.Contents.{value_at, is_there, is_chosen, items_of}
use league_ranker.Nanopb.Message.Refines.Contents.{
  has_field-is_there, which_field-is_chosen, count_of-items,
}
use league_ranker.Nanopb.Message.Values.{array_loop, packed_size, packed_from}
use league_ranker.Nanopb.Message.Outcome.{
  Outcome, written, ◌then◌, tag_bytes, Encodes, return_error-IsBuffer, tag-Encodes, error-Encodes,
  if-Encodes, done-Encodes, stuck-Encodes, then-Encodes,
}
use league_ranker.Nanopb.Message.Submessage.{submessage-Encodes}
use league_ranker.Nanopb.Message.Format.{
  Users, items_outcome, entry_outcome, array_outcome, callback_outcome, value_outcome,
  tagged_outcome, basic_outcome, field_outcome, extension_outcome, chain_outcome, outcome_at,
}
use league_ranker.Nanopb.Message.Refines.Values.{
  tag_for_field-Encodes, varint_field-Encodes, uvarint_field-Encodes, svarint_field-Encodes,
  fixed32-Encodes, fixed64-Encodes, bytes-Encodes, string_field-Encodes, fixed_length-Encodes,
}
use league_ranker.Nanopb.Message.Refines.Arrays.{
  loop-Encodes, packed-Encodes, packed_size-eq, IsFixed,
}

-- What the encoder relies on: bytes below 256 in the memory, descriptors that end at their end mark
-- with sizes of 32 bits, and user functions that write the same bytes on every stream that counts or
-- is over a buffer.
pub record IsSource (c : Source) (u : Users) : Type 0 where
  pub memory : IsMem c.mem
  pub descriptors : (ptr : ℕ) → IsFields (c.fields ptr)
  pub sizes : (ptr i : ℕ) → (field_at (c.fields ptr) i).data_size < 2 ^ 32
  pub callbacks :
      (func : ℕ) (field : Field) (arg : ℕ)
      → Encodes (c.callback func field arg) (u.callback func field arg)
  pub extensions :
      (func extension : ℕ) → Encodes (c.extension func extension) (u.extension func extension)

-- `if (!callback(...)) PB_RETURN_ERROR(stream, "callback error")`
catch-Encodes :
    (e : Encoder) (o : Outcome)
    → Encodes e o
    → Encodes
        (λ s. let (ok, s') = e s in if ok then (true, s') else return_error callback_error s')
        o
catch-Encodes e (bs, true) h = record {
  counts = λ s v. rw (h.counts s v) refl;
  stored = λ small s v fits. rw (h.stored small s v fits) refl;
  refused = λ small s v over.
      let (no_room, b) = h.refused small s v over in
      rw no_room (refl, return_error-IsBuffer callback_error b);
}
catch-Encodes e (bs, false) h = record {
  counts = λ s v. rw (h.counts s v) refl;
  stored = λ small s v fits.
      let (no_room, b) = h.stored small s v fits in
      rw no_room (refl, return_error-IsBuffer callback_error b);
  refused = λ small s v over.
      let (no_room, b) = h.refused small s v over in
      rw no_room (refl, return_error-IsBuffer callback_error b);
}

module _ (c : Source) (u : Users) (v : IsSource c u) where
  entry-Encodes :
      (func : ℕ → Encoder) (value : ℕ → Outcome) (field : Field)
      → ((p : ℕ) → Encodes (func p) (value p))
      → (p : ℕ)
      → Encodes (encode_entry c func field p) (entry_outcome c.mem c.fields u value field p)
  unfolding encode_entry
  entry-Encodes func value field h p = then-Encodes _ _ _ _ (tag_for_field-Encodes field) (h _)

  array-Encodes :
      (func : ℕ → Encoder) (value : ℕ → Outcome) (field : Field)
      → ((p : ℕ) → Encodes (func p) (value p))
      → IsFixed field value 3 4
      → IsFixed field value 4 8
      → (p count : ℕ)
      → Encodes
          (encode_array c func field p count)
          (array_outcome c.mem c.fields u value field p count)
  unfolding encode_array array_outcome
  array-Encodes func value field h h3 h4 p count =
      let packed =
        packed-Encodes (array_loop func count field.data_size p)
          (items_outcome value count field.data_size p)
          (loop-Encodes func value h count field.data_size p) in
      if-Encodes (count == 0) done-Encodes (
        if-Encodes (not (atype field.type == 0x80) && ltb field.array_size count)
          (error-Encodes array_max_size_exceeded)
          (if-Encodes (leb (ltype field.type) 4)
            (then-Encodes (encode_tag wt_string field.tag)
              (packed_from (array_loop func count field.data_size p)
                (packed_size func field p count))
              (written (tag_bytes wt_string field.tag)) _
              (tag-Encodes wt_string field.tag (omega arith))
              (rw (packed_size-eq field func value h count p h3 h4) packed))
            (loop-Encodes (encode_entry c func field) (entry_outcome c.mem c.fields u value field)
              (entry-Encodes func value field h) count field.data_size p)))

  callback-Encodes :
      (field : Field) (p : ℕ)
      → Encodes (encode_callback_field c field p) (callback_outcome c.mem c.fields u field p)
  unfolding encode_callback_field
  callback-Encodes field p =
      if-Encodes (pointer_at c.mem p == 0) done-Encodes
        (catch-Encodes _ _ (v.callbacks (pointer_at c.mem p) field (callback_arg p)))

  module _ (message : ℕ → ℕ → Encoder) (meaning : ℕ → ℕ → Outcome)
      (hm : (ptr src : ℕ) → Encodes (message ptr src) (meaning ptr src)) (fuel : ℕ) where
    value-Encodes :
        (field : Field) (src : ℕ)
        → field.data_size < 2 ^ 32
        → Encodes
            (encoder_of c message fuel field src)
            (value_outcome c.mem c.fields u meaning fuel field src)
    unfolding encoder_of enc_submessage value_outcome
    value-Encodes field src small =
        let t = ltype field.type in
        if-Encodes (t == 0) (varint_field-Encodes c.mem v.memory field src) (
          if-Encodes (t == 1) (uvarint_field-Encodes c.mem v.memory field src) (
            if-Encodes (t == 2) (svarint_field-Encodes c.mem v.memory field src) (
              if-Encodes (t == 3) (fixed32-Encodes c.mem v.memory field src) (
                if-Encodes (t == 4) (fixed64-Encodes c.mem v.memory field src) (
                  if-Encodes (t == 5) (bytes-Encodes c.mem v.memory field src) (
                    if-Encodes (t == 6) (string_field-Encodes c.mem v.memory field src small) (
                      if-Encodes (t == 7)
                        (if-Encodes (field.ptr == 0) (error-Encodes invalid_field_descriptor) (
                          submessage-Encodes (message field.ptr src) (meaning field.ptr src)
                            (hm field.ptr src)))
                        (if-Encodes (t == 9) (fixed_length-Encodes c.mem v.memory field src small)
                          stuck-Encodes))))))))

    tagged-Encodes :
        (field : Field) (src : ℕ)
        → field.data_size < 2 ^ 32
        → Encodes
            (tagged c message fuel field src)
            (tagged_outcome c.mem c.fields u meaning fuel field src)
    tagged-Encodes field src small =
        then-Encodes _ _ _ _ (tag_for_field-Encodes field) (value-Encodes field src small)

    words-IsFixed :
        (field : Field) → IsFixed field (value_outcome c.mem c.fields u meaning fuel field) 3 4
    unfolding value_outcome
    words-IsFixed field e p = rw e (refl, length-bytes_at c.mem 4 p)

    long_words-IsFixed :
        (field : Field) → IsFixed field (value_outcome c.mem c.fields u meaning fuel field) 4 8
    unfolding value_outcome
    long_words-IsFixed field e p = rw e (refl, length-bytes_at c.mem 8 p)

    basic-Encodes :
        (field : Field) (p : ℕ)
        → field.data_size < 2 ^ 32
        → Encodes
            (encode_basic_field c message fuel field p)
            (basic_outcome c.mem c.fields u meaning fuel field p)
    unfolding encode_basic_field basic_outcome
    basic-Encodes field p small =
        let src = value_at c.mem field p in
        if-Encodes (htype field.type == 0x00)
          (if-Encodes (src == 0) (error-Encodes missing_required_field)
            (tagged-Encodes field src small))
          (if-Encodes (htype field.type == 0x10)
            (rw (has_field-is_there c.mem c.fields v.descriptors fuel field p) (
              if-Encodes (is_there c.mem c.fields fuel field p) (tagged-Encodes field src small)
                done-Encodes))
            (if-Encodes (htype field.type == 0x20)
              (rw (count_of-items c.mem field p) (
                array-Encodes (encoder_of c message fuel field)
                  (value_outcome c.mem c.fields u meaning fuel field) field
                  (λ q. value-Encodes field q small) (words-IsFixed field)
                  (long_words-IsFixed field) src (items_of c.mem field p)))
              (rw (which_field-is_chosen c.mem c.fields v.descriptors fuel field p) (
                if-Encodes (is_chosen c.mem c.fields fuel field p) (tagged-Encodes field src small)
                  done-Encodes))))

    field-Encodes :
        (field : Field) (p : ℕ)
        → field.data_size < 2 ^ 32
        → Encodes
            (encode_field c message fuel field p)
            (field_outcome c.mem c.fields u meaning fuel field p)
    unfolding encode_field field_outcome
    field-Encodes field p small =
        if-Encodes ((atype field.type == 0x00) || (atype field.type == 0x80))
          (basic-Encodes field p small)
          (if-Encodes (atype field.type == 0x40) (callback-Encodes field p)
            (error-Encodes invalid_field_type))

    extension-Encodes :
        (extension : ℕ)
        → Encodes
            (encode_extension c message fuel extension)
            (extension_outcome c.mem c.fields u meaning fuel extension)
    unfolding default_extension_encoder
    extension-Encodes extension =
        let type_p = pointer_at c.mem extension in
        let arg = pointer_at c.mem (type_arg type_p) in
        let field = field_at (c.fields arg) 0 in
        let small = v.sizes arg 0 in
        let func = pointer_at c.mem (type_encode type_p) in
        if-Encodes (func == 0)
          (if-Encodes (atype field.type == 0x80)
            (field-Encodes field (extension_dest extension) small)
            (field-Encodes field (pointer_at c.mem (extension_dest extension)) small))
          (v.extensions func extension)

    chain-Encodes :
        (rounds extension : ℕ)
        → Encodes
            (extension_loop c message fuel rounds extension)
            (chain_outcome c.mem c.fields u meaning fuel rounds extension)
    unfolding extension_loop chain_outcome
    chain-Encodes zero extension = stuck-Encodes
    chain-Encodes (suc rounds) extension = elim (Bool-cases (extension == 0)) [
      | inl e ↦ rw (extension_loop, chain_outcome, e) done-Encodes
      | inr e ↦
          rw (extension_loop, chain_outcome, e)
            (then-Encodes _ _ _ _ (extension-Encodes extension)
              (chain-Encodes rounds (pointer_at c.mem (extension_next extension))))
    ]

    pub at-Encodes :
        (field : Field) (p : ℕ)
        → field.data_size < 2 ^ 32
        → Encodes
            (encode_at c message fuel field p)
            (outcome_at c.mem c.fields u meaning fuel field p)
    unfolding encode_at
    at-Encodes field p small =
        if-Encodes (ltype field.type == 8) (chain-Encodes fuel (pointer_at c.mem p))
          (field-Encodes field p small)

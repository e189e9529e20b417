-- ===== src/Nanopb/Parse/Bounds/Fields.antt =====
-- The decoders of fields stay inside the input buffer, if the user's functions do.
use league_ranker.Prelude.{
  ℕ, zero, suc, ◌&&◌, ◌||◌, Option, none, some, List, leb, ◌==◌, if◌then◌else◌,
}
use league_ranker.Nanopb.Types.{WireType, array_overflow, callback_failed, invalid_field_descriptor}
use league_ranker.Nanopb.Istream.{Istream, read_into}
use league_ranker.Nanopb.Istream.Bounds.{
  InBounds, out_of_fuel-InBounds, >>=-InBounds, read_into-InBounds, pure-InBounds,
  return_error-InBounds,
}
use league_ranker.Nanopb.Decode.{skip_field}
use league_ranker.Nanopb.Decode.Bounds.{skip_field-InBounds, Bool-InBounds, if-InBounds}
use league_ranker.Nanopb.Substream.{close_string_substream, raw_varint, read_raw_value}
use league_ranker.Nanopb.Iter.{Field, FieldIter, htype, ltype}
use league_ranker.Nanopb.Store.{size_at, callback_arg}
use league_ranker.Nanopb.World.{World, Run, return_error, lift}
use league_ranker.Nanopb.World.Bounds.{
  Within, Within-refl, Reads, Split, Split-IsInput, close-Within, pure-Reads, fail-Reads,
  look-Reads, change-Reads, lift-Reads, >>=-Reads, if-Reads, allocate_field-Reads, substream-Reads,
}
use league_ranker.Nanopb.Parse.Defaults.{field_of}
use league_ranker.Nanopb.Parse.Release.{release_union_field}
use league_ranker.Nanopb.Parse.Fields.{
  Target, static_items, static_packed, static_item, callback_loop, callback_string, callback_scalar,
  decode_callback_field, dec_submessage, decoder_of, decode_static_field, more_storage,
  pointer_item, pointer_items, pointer_packed, pointer_next, pointer_single, decode_pointer_field,
  decode_field,
}
use league_ranker.Nanopb.Parse.Bounds.Results.{
  same_stream, inside-Within, if-Within, Bool-Within, if_run-Within, error-Within, errmsg-Split,
}
use league_ranker.Nanopb.Parse.Bounds.Values.{
  reads, dec_varint_to-Reads, dec_uvarint_to-Reads, dec_svarint_to-Reads, dec_fixed32-Reads,
  dec_fixed64-Reads, dec_bytes-Reads, dec_string-Reads, dec_fixed_length_bytes-Reads,
}

ruleset more_reads = (
  reads, fail-Reads, dec_varint_to-Reads, dec_uvarint_to-Reads, dec_svarint_to-Reads,
  dec_fixed32-Reads, dec_fixed64-Reads, dec_bytes-Reads, dec_string-Reads,
  dec_fixed_length_bytes-Reads, substream-Reads, skip_field-InBounds,
)

raw_varint-InBounds : (room : ℕ) (buf : List ℕ) → InBounds (raw_varint room buf)
unfolding raw_varint
raw_varint-InBounds zero buf = out_of_fuel-InBounds
raw_varint-InBounds (suc room) buf =
    >>=-InBounds (read_into 1) _ (read_into-InBounds 1)
      λ bytes. Bool-InBounds _ (pure-InBounds _) (raw_varint-InBounds room _)

read_raw_value-InBounds :
    (wire_type : WireType) (max_size : ℕ) → InBounds (read_raw_value wire_type max_size)
unfolding read_raw_value
read_raw_value-InBounds wire_type max_size =
    search (if-InBounds, raw_varint-InBounds, read_into-InBounds, return_error-InBounds)

module _ (func : ℕ → Run (Unit {0})) (h : (p : ℕ) → Reads (func p)) (it : FieldIter) where
  static_items-Reads : (rounds : ℕ) → Reads (static_items func it rounds)
  unfolding static_items
  static_items-Reads zero = record { moves = λ s w v. Within-refl s }
  static_items-Reads (suc rounds) = record {
    moves = λ s w v.
        Bool-Within _ _ _ s
          ((>>=-Reads _ _ (h _)
              λ _. >>=-Reads _ _ (change-Reads _) λ _. static_items-Reads rounds).moves
            s w v)
          (Within-refl s);
  }

  static_packed-Within :
      (whole s sub : Istream) (w : World)
      → Split whole s sub
      → Within whole (static_packed func it sub s w).1
  unfolding static_packed
  static_packed-Within whole s sub w v =
      let read =
        (static_items-Reads (suc (field_of it).array_size)).moves sub w (Split-IsInput v) in
      if-Within _ _ _ whole (error-Within array_overflow whole s sub _ v)
        (same_stream _ _ whole _ _ (close-Within v read))

  static_item-Reads : Reads (static_item func it)
  unfolding static_item
  static_item-Reads = search (more_reads, h) depth 12

module _ (func : Run (Unit {0})) (h : Reads func) where
  callback_loop-Reads : (rounds : ℕ) → Reads (callback_loop func rounds)
  unfolding callback_loop
  callback_loop-Reads zero = fail-Reads
  callback_loop-Reads (suc rounds) = >>=-Reads func _ h λ _. record {
    moves = λ s w v.
        Bool-Within (s.bytes_left == 0) (some tt, s, w) (callback_loop func rounds s w) s
          (Within-refl s) ((callback_loop-Reads rounds).moves s w v);
  }

  callback_string-Within :
      (whole s sub : Istream) (w : World)
      → Split whole s sub
      → Within whole (callback_string func sub s w).1
  unfolding callback_string
  callback_string-Within whole s sub w v =
      let r = callback_loop func (suc sub.bytes_left) sub w in
      let read = (callback_loop-Reads (suc sub.bytes_left)).moves sub w (Split-IsInput v) in
      elim r.0
        as (λ o.
          Within whole
            (elim o as (λ _. Option (Unit {0}) × Istream × World) [
              | none ↦ return_error callback_failed s r.2
              | some done ↦
                  ((close_string_substream r.1 s).0, (close_string_substream r.1 s).1, r.2)
            ]).1) [
              | none ↦ error-Within callback_failed whole s sub r.2 v
              | some done ↦ close-Within v read
            ]

  callback_scalar-Reads : (wire_type : WireType) → Reads (callback_scalar func wire_type)
  callback_scalar-Reads wire_type =
      >>=-Reads (lift (read_raw_value wire_type 10)) _
        (lift-Reads (read_raw_value wire_type 10) (read_raw_value-InBounds wire_type 10))
        λ buffer. record { moves = λ s w v. Within-refl s }

-- The user's functions stay inside the buffer that they are given.
pub record IsTarget (c : Target) : Type 0 where
  pub callbacks : (func : ℕ) (field : Field) (arg : ℕ) → Reads (c.callback func field arg)
  pub extensions :
      (func extension number : ℕ) (wire_type : WireType)
      → Reads (c.extension func extension number wire_type)

module _ (c : Target) (t : IsTarget c) where
  decode_callback_field-Reads :
      (wire_type : WireType) (it : FieldIter) → Reads (decode_callback_field c wire_type it)
  unfolding decode_callback_field
  decode_callback_field-Reads wire_type it = >>=-Reads _ _ (look-Reads _) λ decode.
      let func = c.callback decode (field_of it) (callback_arg it.p_data) in
      let h = t.callbacks decode (field_of it) (callback_arg it.p_data) in
      if-Reads ((it.p_data == 0) || (decode == 0))
        (lift-Reads (skip_field wire_type) (skip_field-InBounds wire_type))
        (if-Reads (wire_type == 2)
          (substream-Reads (callback_string func) (callback_string-Within func h))
          (callback_scalar-Reads func h wire_type))

  module _ (decode noinit : ℕ → ℕ → Run (Unit {0})) (hd : (ptr dest : ℕ) → Reads (decode ptr dest))
      (hn : (ptr dest : ℕ) → Reads (noinit ptr dest)) (fuel : ℕ) where
    submessage_of-Reads :
        (field : Field) (dest : ℕ)
        → Reads (if htype field.type == 0x20 then decode field.ptr dest else noinit field.ptr dest)
    submessage_of-Reads field dest =
        if-Reads (htype field.type == 0x20) (hd field.ptr dest) (hn field.ptr dest)

    dec_submessage-Reads :
        (field : Field) (dest : ℕ) → Reads (dec_submessage c decode noinit fuel field dest)
    unfolding dec_submessage
    dec_submessage-Reads field dest = substream-Reads _ λ whole s sub w v.
        if_run-Within (field.ptr == 0) _ _ whole s w
          (error-Within invalid_field_descriptor whole s sub w v)
          (inside-Within _ (submessage_of-Reads field dest) whole s sub w v)

    decoder_of-Reads :
        (field : Field) (dest : ℕ) → Reads (decoder_of c decode noinit fuel field dest)
    unfolding decoder_of
    decoder_of-Reads field dest = search (more_reads, dec_submessage-Reads) depth 14

    decode_static_field-Reads :
        (wire_type : WireType) (it : FieldIter)
        → Reads (decode_static_field c decode noinit fuel wire_type it)
    unfolding decode_static_field
    decode_static_field-Reads wire_type it =
        let func = decoder_of c decode noinit fuel (field_of it) in
        let h = decoder_of-Reads (field_of it) in
        let packed = substream-Reads (static_packed func it) (static_packed-Within func h it) in
        let item = static_item-Reads func h it in
        if-Reads (htype (field_of it).type == 0x00) (h it.p_data) (
          if-Reads (htype (field_of it).type == 0x10)
            (if-Reads (it.p_size == it.p_data) (h it.p_data)
              (>>=-Reads _ _ (change-Reads _) λ _. h it.p_data))
            (if-Reads (htype (field_of it).type == 0x20)
              (if-Reads ((wire_type == 2) && leb (ltype (field_of it).type) 4) packed item)
              (>>=-Reads _ _ (change-Reads _) λ _. h it.p_data)))

    more_storage-Reads : (it : FieldIter) (n : ℕ) → Reads (more_storage c decode noinit fuel it n)
    more_storage-Reads it n = record {
      moves = λ s w v.
          if-Within _ _ _ s
            ((>>=-Reads _ _ (allocate_field-Reads _ _ _ _) λ _. pure-Reads _).moves s w v)
            (Within-refl s);
    }

    pointer_item-Reads :
        (it : FieldIter) (index : ℕ) → Reads (pointer_item c decode noinit fuel it index)
    pointer_item-Reads it index = search (look-Reads, change-Reads, >>=-Reads, decoder_of-Reads)

    pointer_items-Reads :
        (it : FieldIter) (rounds n : ℕ) → Reads (pointer_items c decode noinit fuel it rounds n)
    unfolding pointer_items
    pointer_items-Reads it zero n = record { moves = λ s w v. Within-refl s }
    pointer_items-Reads it (suc rounds) n = record {
      moves = λ s w v. Bool-Within _ _ _ s (Within-refl s) (
          (>>=-Reads _ _ (more_storage-Reads it n) λ allocated. >>=-Reads _ _ (look-Reads _) λ size.
              >>=-Reads _ _ (pointer_item-Reads it size) λ _. record {
                moves = λ s w v.
                    Bool-Within _ _ _ s (Within-refl s)
                      ((pointer_items-Reads it rounds allocated).moves s _ v);
              }).moves
            s w v);
    }

    pointer_packed-Within :
        (it : FieldIter) (whole s sub : Istream) (w : World)
        → Split whole s sub
        → Within whole (pointer_packed c decode noinit fuel it sub s w).1
    unfolding pointer_packed
    pointer_packed-Within it whole s sub w v =
        let rounds = suc sub.bytes_left in
        let read =
          (pointer_items-Reads it rounds (size_at w.mem it.p_size)).moves sub w (Split-IsInput v) in
        same_stream _ _ whole _ _ (close-Within (errmsg-Split _ whole s sub v) read)

    pointer_next-Reads : (it : FieldIter) → Reads (pointer_next c decode noinit fuel it)
    unfolding pointer_next
    pointer_next-Reads it = search (more_reads, pointer_item-Reads) depth 12

    pointer_single-Reads : (it : FieldIter) → Reads (pointer_single c decode noinit fuel it)
    unfolding pointer_single
    pointer_single-Reads it = search (more_reads, decoder_of-Reads) depth 12

    decode_pointer_field-Reads :
        (wire_type : WireType) (it : FieldIter)
        → Reads (decode_pointer_field c decode noinit fuel wire_type it)
    unfolding decode_pointer_field
    decode_pointer_field-Reads wire_type it =
        if-Reads (htype (field_of it).type == 0x20)
          (if-Reads ((wire_type == 2) && leb (ltype (field_of it).type) 4)
            (substream-Reads (pointer_packed c decode noinit fuel it) (pointer_packed-Within it))
            (pointer_next-Reads it))
          (pointer_single-Reads it)

    release_union_field-Reads :
        (it : FieldIter) → Reads (release_union_field c.libc c.fields fuel it)
    unfolding release_union_field
    release_union_field-Reads it = search more_reads depth 12

    pub decode_field-Reads :
        (wire_type : WireType) (it : FieldIter)
        → Reads (decode_field c decode noinit fuel wire_type it)
    unfolding decode_field
    decode_field-Reads wire_type it =
        search
          (
            more_reads, release_union_field-Reads, decode_static_field-Reads,
            decode_pointer_field-Reads, decode_callback_field-Reads,
          )
          depth 12

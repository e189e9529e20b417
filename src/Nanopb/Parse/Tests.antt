-- ===== src/Nanopb/Parse/Tests.antt =====
-- Messages decoded at concrete inputs, and the theorems on them there.
use league_ranker.Prelude.{
  length, replicate, true, ◌<◌, ◌↔◌, ℕ, ◌+◌, ◌*◌, ◌≡◌, refl, none, [], ◌∷◌, ◌==◌, if◌then◌else◌,
  arith,
}
use league_ranker.Nanopb.Types.{keep_first, realloc_failed}
use league_ranker.Nanopb.Istream.{istream_from_buffer, skip, readbyte, read_into}
use league_ranker.Nanopb.Decode.{decode_tag, decode_varint32_eof, decode_fixed32, fixed32_value}
use league_ranker.Nanopb.Istream.Bounds.{skip-InBounds}
use league_ranker.Nanopb.Iter.{Field, FieldIter, iter_begin, iter_next, iter_find, find_loop}
use league_ranker.Nanopb.Store.{load, size_at}
use league_ranker.Nanopb.World.{
  World, Run, ◌>>=◌, pure, lift, left, look, change, store, return_error,
}
use league_ranker.Nanopb.World.Bounds.{Reads, pure-Reads, left-Reads, lift-Reads, >>=-Reads}
use league_ranker.Nanopb.Message.Sample.{tables}
use league_ranker.Nanopb.Parse.Fields.{Target, decode_pointer_field}
use league_ranker.Nanopb.Parse.Values.{
  dec_fixed32, dec_varint_to, dec_uvarint_to, dec_svarint_to, dec_string, dec_bytes,
  dec_fixed_length_bytes,
}
use league_ranker.Nanopb.World.Confined.{Confined}
use league_ranker.Nanopb.Parse.Confined.{values_stay_inside}
use league_ranker.Nanopb.Parse.Arrays.{failed_item_counted}
use league_ranker.Nanopb.Ostream.{ostream_from_buffer}
use league_ranker.Nanopb.Encode.{encode_string}
use league_ranker.Nanopb.Encode.Varint.{varint}
use league_ranker.Nanopb.RoundTrip.{read_back}
use league_ranker.Nanopb.Message.Outcome.{delimited}
use league_ranker.Nanopb.Parse.Strings.{HoldsString, string_value_round_trip}
use league_ranker.Nanopb.Parse.Required.{marks, member, required_exact}
use league_ranker.Nanopb.Parse.Whole.{
  all_seen, decode, decode_noinit, decode_delimited, decode_delimited_noinit, decode_nullterminated,
}
use league_ranker.Nanopb.Parse.Bounds.Fields.{IsTarget}
use league_ranker.Nanopb.Parse.Bounds.Whole.{message_decoders_in_bounds}

-- A callback that passes over its value, and a C library with no memory left.
abbrev pass_over : Run (Unit {0})
pass_over = left >>= λ n. lift (skip n) >>= λ _. pure tt

abbrev app : Target
app = record {
  libc = record { realloc = λ p n w. (0, w); free = λ p w. w };
  fields = tables;
  callback = λ func field arg. pass_over;
  extension = λ func extension number wire_type. pure tt;
  counter = λ depth. 5000 + 4 * depth;
}

app-IsTarget : IsTarget app
app-IsTarget = record {
  callbacks =
      λ func field arg. search (left-Reads, lift-Reads, skip-InBounds, pure-Reads, >>=-Reads);
  extensions = λ func extension number wire_type. pure-Reads tt;
}

-- Memory with nothing but the callback of the fourth field, 5.
abbrev fresh : World
fresh = record { mem = λ a. if a == 1024 then 5 else 0; blocks = [] }

-- A message whose required field is not there, and one of the inner type.
required_field_missing : (decode app 1 1 1000 (istream_from_buffer [] 0) fresh).0 ≡ none
unfolding decode ◌>>=◌ istream_from_buffer look iter_next return_error
required_field_missing = refl

inner_decoded :
    (decode app 1 2 1008 (istream_from_buffer (0x0d ∷ 7 ∷ 0 ∷ 0 ∷ 0 ∷ []) 5) fresh).2.mem 1008 ≡ 7
unfolding decode ◌>>=◌ istream_from_buffer decode_tag decode_varint32_eof readbyte iter_find
    find_loop iter_begin pure dec_fixed32 lift decode_fixed32 read_into change look iter_next store
    fixed32_value
inner_decoded = refl

message_decoders_in_bounds_example :
    Reads (decode app 3 1 1000)
    × Reads (decode_noinit app 3 1 1000)
    × Reads (decode_delimited app 3 1 1000)
    × Reads (decode_delimited_noinit app 3 1 1000)
    × Reads (decode_nullterminated app 3 1 1000)
message_decoders_in_bounds_example = message_decoders_in_bounds app app-IsTarget 3 1 1000

-- A repeated pointer field with two entries, whose count is at 2000.
abbrev two_entries : World
two_entries = record { mem = λ a. if a == 2000 then 2 else 0; blocks = [] }

abbrev array_field : ℕ → ℕ → FieldIter
array_field type array_size = record {
  start =
      record {
        tag = 1;
        type = type;
        data_offset = 0;
        size_offset = 0;
        data_size = 4;
        array_size = array_size;
        ptr = 0;
      }
      ∷ [];
  pos = 0;
  required_field_index = 0;
  dest_struct = 2000;
  p_data = 2008;
  p_size = 2000;
}

two_counted : size_at two_entries.mem 2000 ≡ 2
unfolding load
two_counted = refl

failed_item_counted_example :
    let (status, s', w') =
      decode_pointer_field app
        (decode app 1)
        (decode_noinit app 1)
        1
        5
        (array_field 0xa3 0)
        (istream_from_buffer [] 0)
        two_entries in
    (status ≡ none)
    × (s'.errmsg ≡ keep_first (istream_from_buffer [] 0).errmsg realloc_failed)
    × (size_at w'.mem 2000 ≡ size_at two_entries.mem 2000 + 1)
failed_item_counted_example =
    failed_item_counted app (decode app 1) (decode_noinit app 1) 1 5 (array_field 0xa3 0)
      (istream_from_buffer [] 0) two_entries (λ p n w. refl) refl refl (omega arith) (omega arith)
      (omega (arith, two_counted))

three_required : (k : ℕ) → member k (2 ∷ 0 ∷ 1 ∷ []) ≡ true → k < 3
unfolding member
three_required k e = ground (arith, e)

required_exact_example :
    (all_seen 3 (marks (2 ∷ 0 ∷ 1 ∷ [])) ≡ true)
    ↔ ((i : ℕ) → i < 3 → member i (2 ∷ 0 ∷ 1 ∷ []) ≡ true)
required_exact_example = required_exact 3 (2 ∷ 0 ∷ 1 ∷ []) three_required

abbrev text_field : Field
text_field = record {
  tag = 1;
  type = 0x06;
  data_offset = 0;
  size_offset = 0;
  data_size = 8;
  array_size = 0;
  ptr = 0;
}

values_stay_inside_example :
    Confined 1000 8 (dec_varint_to text_field 1000)
    × Confined 1000 8 (dec_uvarint_to text_field 1000)
    × Confined 1000 8 (dec_svarint_to text_field 1000)
    × Confined 1000 8 (dec_string app.libc text_field 1000)
    × Confined 1000 8 (dec_bytes app.libc text_field 1000)
    × Confined 1000 8 (dec_fixed_length_bytes text_field 1000)
values_stay_inside_example =
    values_stay_inside app.libc text_field 1000 (record { static = refl; ends = omega arith })

text_length : length (delimited (104 ∷ 105 ∷ [])) ≡ 3
unfolding varint
text_length = refl

string_value_round_trip_example :
    let (written, out) = encode_string (104 ∷ 105 ∷ []) 2 (ostream_from_buffer (replicate 8 0) 8) in
    (written ≡ true)
    × HoldsString (104 ∷ 105 ∷ []) 1000 (dec_string app.libc text_field 1000 (read_back out) fresh)
string_value_round_trip_example =
    string_value_round_trip app.libc text_field 1000 (record { static = refl; ends = omega arith })
      (104 ∷ 105 ∷ []) (replicate 8 0) 8 fresh (omega arith) (omega arith) (omega arith)
      (omega arith) (omega (arith, text_length))

-- ===== src/Nanopb/Iter.antt =====
-- ScoreSender/Pods/nanopb/pb_common.c: the iterator over the fields of a message, and the field
-- descriptors of pb.h that it runs over.
pub mod Walk
pub mod Find
mod Tests
use league_ranker.Prelude.{
  ℕ, zero, suc, ◌+◌, ◌-◌, ◌*◌, ◌%◌, ◌^◌, bit_and, Bool, true, false, not, ◌&&◌, List, [], ◌∷◌, ◌==◌,
  if◌then◌else◌, length, get_or,
}

-- `pb_field_t`. The signed `size_offset` is a pattern of 64 bits, as it is added to a pointer.
pub record Field : Type 0 where
  pub tag : ℕ
  pub type : ℕ
  pub data_offset : ℕ
  pub size_offset : ℕ
  pub data_size : ℕ
  pub array_size : ℕ
  pub ptr : ℕ

-- `PB_LAST_FIELD`, which ends every array of fields.
abbrev pub last_field : Field
last_field = record {
  tag = 0;
  type = 0;
  data_offset = 0;
  size_offset = 0;
  data_size = 0;
  array_size = 0;
  ptr = 0;
}

abbrev pub atype : ℕ → ℕ
atype x = bit_and x 0xc0

abbrev pub htype : ℕ → ℕ
htype x = bit_and x 0x30

abbrev pub ltype : ℕ → ℕ
ltype x = bit_and x 0x0f

-- `pb_field_iter_t`. `start` is the array up to its end mark, and `pos` an index into it; the other
-- pointers are addresses.
pub record FieldIter : Type 0 where
  pub start : List Field
  pub pos : ℕ
  pub required_field_index : ℕ
  pub dest_struct : ℕ
  pub p_data : ℕ
  pub p_size : ℕ

-- `fields[i]`, the end mark included.
abbrev pub field_at : List Field → ℕ → Field
field_at fields i = get_or fields i last_field

-- `pb_field_iter_begin`
unfoldable pub iter_begin : List Field → ℕ → Bool × FieldIter
iter_begin fields dest_struct =
    let first = field_at fields 0 in
    let address = (dest_struct + first.data_offset) % 2 ^ 64 in
    (
      not (first.tag == 0),
      record {
        start = fields;
        pos = 0;
        required_field_index = 0;
        dest_struct = dest_struct;
        p_data = address;
        p_size = (address + first.size_offset) % 2 ^ 64;
      },
    )

-- How far `pData` moves past a field; `sizeof(void*)` is 8.
unfoldable pub step_size : Field → ℕ
step_size prev =
    if (atype prev.type == 0x00) && (htype prev.type == 0x20)
    then prev.data_size * prev.array_size % 2 ^ 64
    else if atype prev.type == 0x80
    then 8
    else prev.data_size

-- `pb_field_iter_next`. Fields of one union stand at the same place.
unfoldable pub iter_next : FieldIter → Bool × FieldIter
unfolding iter_begin step_size
iter_next it =
    let prev = field_at it.start it.pos in
    let next = field_at it.start (suc it.pos) in
    if prev.tag == 0
    then (false, it)
    else if next.tag == 0
    then (false, (iter_begin it.start it.dest_struct).1)
    else if (htype prev.type == 0x30)
        && ((htype next.type == 0x30) && (next.data_offset == 2 ^ 32 - 1))
    then (true, record it { pos = suc it.pos })
    else let address = (it.p_data + step_size prev + next.data_offset) % 2 ^ 64 in
      (
        true,
        record it {
          pos = suc it.pos;
          required_field_index =
              if htype prev.type == 0x00
              then (it.required_field_index + 1) % 2 ^ 32
              else it.required_field_index;
          p_data = address;
          p_size = (address + next.size_offset) % 2 ^ 64;
        },
      )

-- Whether `pb_field_iter_find` stops at a field.
abbrev pub matches : ℕ → Field → Bool
matches tag field = (field.tag == tag) && not (ltype field.type == 0x08)

-- The do-while loop of `pb_field_iter_find`, which comes back to `start` in as many rounds as there
-- are fields.
unfoldable pub find_loop : ℕ → ℕ → ℕ → FieldIter → Bool × FieldIter
find_loop zero tag start it = (false, it)
find_loop (suc fuel) tag start it = elim (matches tag (field_at it.start it.pos)) [
  | true ↦ (true, it)
  | false ↦
      let it' = (iter_next it).1 in
      elim (it'.pos == start) [ true ↦ (false, it') | false ↦ find_loop fuel tag start it' ]
]

unfoldable pub iter_find : FieldIter → ℕ → Bool × FieldIter
iter_find it tag = find_loop (suc (length it.start)) tag it.pos it

-- ===== src/Nanopb/Message/Contents.antt =====
-- What a C structure holds for a message, told from the memory alone and apart from the code: where
-- the value of a field stands, whether there is one, how many there are, and the numbers and
-- characters themselves. The wire format of `Format` is told with it.
use league_ranker.Prelude.{
  ℕ, zero, suc, ◌+◌, ◌-◌, ◌*◌, ◌%◌, ◌^◌, Bool, true, false, not, ◌&&◌, ◌||◌, Option, none, some,
  List, [], ◌∷◌, ltb, ◌==◌, if◌then◌else◌, length,
}
use league_ranker.Nanopb.Iter.{Field, atype, htype, ltype, field_at}
use league_ranker.Nanopb.Store.{Mem, offset, pointer_at, size_at, bytes_at}

-- A field in the structure itself, or one of which the structure has a pointer.
abbrev pub is_inline : Field → Bool
is_inline field = atype field.type == 0x00

abbrev pub is_pointer : Field → Bool
is_pointer field = atype field.type == 0x80

abbrev pub is_optional : Field → Bool
is_optional field = htype field.type == 0x10

abbrev pub is_oneof : Field → Bool
is_oneof field = htype field.type == 0x30

-- A field with a number beside it: of its items, or of the member that a union holds.
abbrev pub is_counted : Field → Bool
is_counted field = is_oneof field || (htype field.type == 0x20)

-- The bytes that a field takes up, for the place of the next one.
abbrev pub extent : Field → ℕ
extent field =
    if is_pointer field
    then 8
    else if is_inline field && (htype field.type == 0x20)
    then field.array_size * field.data_size % 2 ^ 64
    else field.data_size

-- The members of a union share a place, which the second one tells by its offset.
abbrev pub is_shared : Field → Field → Bool
is_shared member next = (next.data_offset == 2 ^ 32 - 1) && (is_oneof next && is_oneof member)

-- The place of the field `i` of the structure at `src`.
unfoldable pub address : List Field → ℕ → ℕ → ℕ
address fields src zero = (src + (field_at fields 0).data_offset) % 2 ^ 64
address fields src (suc i) =
    let here = address fields src i in
    if is_shared (field_at fields i) (field_at fields (suc i))
    then here
    else (here + extent (field_at fields i) + (field_at fields (suc i)).data_offset) % 2 ^ 64

abbrev pub all_of : (ℕ → Bool) → List ℕ → Bool
all_of test [] = true
all_of test (b ∷ bs) = test b && all_of test bs

-- The `n` bytes are zeros.
abbrev pub is_blank : Mem → ℕ → ℕ → Bool
is_blank mem n p = all_of (λ b. b == 0) (bytes_at mem n p)

-- The `n` fields from the field `i` on pass the test.
unfoldable pub every_field : (Field → ℕ → Bool) → List Field → ℕ → ℕ → ℕ → Bool
every_field test fields src zero i = true
every_field test fields src (suc n) i =
    test (field_at fields i) (address fields src i) && every_field test fields src n (suc i)

-- Whether a value in the structure itself is the default of its type: no bytes, no characters, a
-- message of unset fields, or zeros.
abbrev pub is_default : (Field → ℕ → Bool) → Mem → (ℕ → List Field) → Field → ℕ → Bool
is_default test mem fields field p =
    let t = ltype field.type in
    let inner = fields field.ptr in
    ((t == 5) && (size_at mem p == 0))
    || (((t == 6) && (mem p == 0))
        || (((t == 9) && (field.data_size == 0))
            || (((t == 7) && every_field test inner p (length inner) 0)
                || (not ((t == 5) || ((t == 6) || ((t == 9) || (t == 7))))
                    && is_blank mem field.data_size p))))

-- A proto3 field holds nothing but its default: it is not required, and its count is zero, or its flag
-- is down, or it has neither and its value is the default, or its pointer null.
unfoldable pub is_unset : Mem → (ℕ → List Field) → ℕ → Field → ℕ → Bool
unfolding every_field
is_unset mem fields zero field p = false
is_unset mem fields (suc fuel) field p =
    let beside = offset p field.size_offset in
    let flagged = not (field.size_offset == 0) in
    let value =
      (is_inline field && is_default (is_unset mem fields fuel) mem fields field p)
      || (not (is_inline field) && is_blank mem field.data_size p) in
    not (htype field.type == 0x00)
    && ((is_counted field && (size_at mem beside == 0))
        || (not (is_counted field) && ((flagged && (mem beside == 0)) || (not flagged && value))))

-- Where the value of a field stands.
abbrev pub value_at : Mem → Field → ℕ → ℕ
value_at mem field p = if is_pointer field then pointer_at mem p else p

-- Whether an optional field is there: by its flag, if it has one at that distance, and else by its
-- pointer or its value.
abbrev pub there_by : Mem → (ℕ → List Field) → ℕ → Field → ℕ → ℕ → Bool
there_by mem fields fuel field p zero =
    (is_pointer field && not (pointer_at mem p == 0))
    || (not (is_pointer field) && not (is_optional field && is_unset mem fields fuel field p))
there_by mem fields fuel field p (suc n) = not (mem (offset p (suc n)) == 0)

abbrev pub is_there : Mem → (ℕ → List Field) → ℕ → Field → ℕ → Bool
is_there mem fields fuel field p = there_by mem fields fuel field p field.size_offset

-- Whether a union holds this field. A oneof field has a number beside it; without one, its being there
-- is read for the number.
abbrev pub chosen_by : Mem → (ℕ → List Field) → ℕ → Field → ℕ → ℕ → Bool
chosen_by mem fields fuel field p zero =
    let there = there_by mem fields fuel field p zero in
    ((field.tag == 1) && there) || ((field.tag == 0) && not there)
chosen_by mem fields fuel field p (suc n) = field.tag == size_at mem (offset p (suc n))

abbrev pub is_chosen : Mem → (ℕ → List Field) → ℕ → Field → ℕ → Bool
is_chosen mem fields fuel field p = chosen_by mem fields fuel field p field.size_offset

-- How many items an array has.
abbrev pub items_by : Mem → Field → ℕ → ℕ → ℕ
items_by mem field p zero = field.array_size
items_by mem field p (suc n) = size_at mem (offset p (suc n))

abbrev pub items_of : Mem → Field → ℕ → ℕ
items_of mem field p = items_by mem field p field.size_offset

-- The characters before the first zero, `n` at most.
unfoldable pub text : Mem → ℕ → ℕ → List ℕ
text mem zero p = []
text mem (suc n) p = elim (mem p == 0) [ true ↦ [] | false ↦ mem p ∷ text mem n (suc p) ]

-- The string of a field; a null pointer is the empty one.
abbrev pub text_of : Mem → Field → ℕ → List ℕ
text_of mem field p =
    if p == 0 then [] else text mem (if is_pointer field then 2 ^ 64 - 1 else field.data_size) p

-- An integer of `size` bytes, as a pattern of 64 bits.
abbrev pub is_width : ℕ → Bool
is_width size = (size == 1) || ((size == 2) || ((size == 4) || (size == 8)))

abbrev pub unsigned_pattern : ℕ → ℕ → Option ℕ
unsigned_pattern size v = if is_width size then some v else none

abbrev pub signed_pattern : ℕ → ℕ → Option ℕ
signed_pattern size v =
    if is_width size
    then some (if ltb v (2 ^ (8 * size - 1)) then v else 2 ^ 64 + v - 2 ^ (8 * size))
    else none

-- The integers 0, -1, 1, -2 and so on in a row, of a pattern of 64 bits.
abbrev pub alternating : ℕ → ℕ
alternating v = if ltb v (2 ^ 63) then 2 * v else 2 * (2 ^ 64 - v) - 1

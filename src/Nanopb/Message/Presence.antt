-- ===== src/Nanopb/Message/Presence.antt =====
-- ScoreSender/Pods/nanopb/pb_encode.c: what `encode_basic_field` finds out about a field before it is
-- encoded: where its data are, whether there are any, and how many.
use league_ranker.Prelude.{ℕ, Bool, true, not, List, ◌==◌, if◌then◌else◌}
use league_ranker.Nanopb.Iter.{Field, atype, htype}
use league_ranker.Nanopb.Store.{Mem, offset, pointer_at, size_at, is_false}
use league_ranker.Nanopb.Message.Default.{default_value}

-- Where the data of a field are: a pointer field holds their address.
abbrev pub data_of : Mem → Field → ℕ → ℕ
data_of mem field p = if atype field.type == 0x80 then pointer_at mem p else p

-- `implicit_has` behind the test of pointers, which is what `pSize` points to where the field
-- has no `size_offset`.
unfoldable pub implicit_has : Mem → (ℕ → List Field) → ℕ → Field → ℕ → Bool
implicit_has mem fields fuel field p =
    if atype field.type == 0x80
    then not (data_of mem field p == 0)
    else if not (field.size_offset == 0)
    then true
    else if htype field.type == 0x10
    then not (default_value mem fields fuel field p)
    else true

-- `*(const bool*)pSize` and `*(const pb_size_t*)pSize`. A oneof field has a `size_offset`.
unfoldable pub has_field : Mem → (ℕ → List Field) → ℕ → Field → ℕ → Bool
unfolding implicit_has
has_field mem fields fuel field p =
    if field.size_offset == 0
    then implicit_has mem fields fuel field p
    else not (is_false mem (offset p field.size_offset))

unfoldable pub which_field : Mem → (ℕ → List Field) → ℕ → Field → ℕ → ℕ
unfolding implicit_has
which_field mem fields fuel field p =
    if field.size_offset == 0
    then (if implicit_has mem fields fuel field p then 1 else 0)
    else size_at mem (offset p field.size_offset)

abbrev pub count_of : Mem → Field → ℕ → ℕ
count_of mem field p =
    if field.size_offset == 0 then field.array_size else size_at mem (offset p field.size_offset)

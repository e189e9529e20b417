-- ===== src/Nanopb/Message/Refines/Contents.antt =====
-- The tests of `encode_basic_field`, pb_check_proto3_default_value and the iterator against what a
-- structure holds.
use mathlib.Core.Path.{fun_ext, subst}
use mathlib.Core.Bool.{false≢true}
use native.Mathlib.Decide.{dec_le}
use league_ranker.Prelude.{
  ℕ, zero, suc, ◌+◌, ◌%◌, ◌^◌, ◌≡◌, ◌<◌, ◌≤◌, refl, sym, ap, ap₂, ◌∙◌, Bool, true, false, not,
  ==_iff, ◌&&◌, ◌||◌, List, ◌∷◌, length, arith, ◌==◌, if◌then◌else◌, inl, inr, Bool-cases,
}
use league_ranker.Nanopb.Encode.{zigzag}
use league_ranker.Nanopb.Types.{IsU64}
use league_ranker.Nanopb.Iter.{
  Field, FieldIter, atype, htype, field_at, iter_begin, step_size, iter_next,
}
use league_ranker.Nanopb.Iter.Walk.{IsFields, walk, walk-Stands, next_wraps, begins}
use league_ranker.Nanopb.Fields.{signed_at, unsigned_at}
use league_ranker.Nanopb.Store.{Mem, bytes_at, all_zero, strnlen, size_at, offset}
use league_ranker.Nanopb.Message.Default.{
  all_default, default_message, default_static, default_value,
}
use league_ranker.Nanopb.Message.Presence.{implicit_has, has_field, which_field, count_of}
use league_ranker.Nanopb.Message.Values.{string_size}
use league_ranker.Nanopb.Message.Contents.{
  extent, is_shared, address, is_blank, every_field, is_default, is_unset, there_by, is_there,
  is_chosen, items_of, items_by, chosen_by, text, text_of, signed_pattern, unsigned_pattern,
  alternating,
}

step_size-extent : (field : Field) → step_size field ≡ extent field
unfolding step_size
step_size-extent field = ground arith

next_address :
    (it : FieldIter) (here next : Field)
    → field_at it.start it.pos ≡ here
    → field_at it.start (suc it.pos) ≡ next
    → 0 < here.tag
    → 0 < next.tag
    → (iter_next it).1.p_data ≡ (
        if is_shared here next
        then it.p_data
        else (it.p_data + extent here + next.data_offset) % 2 ^ 64)
unfolding iter_next
next_address it here next over place some_tag next_tag =
    rw (over, place, iter_next, step_size-extent here) (ground arith)

nonempty : (n : ℕ) → 1 ≤ n → (n == 0) ≡ false
nonempty n h = ground arith

-- The tests of pb_check_proto3_default_value in their order, and as one condition.
choice :
    (required repeated oneof no_items bare down inline : Bool) {value value' blank blank' : Bool}
    → value ≡ value'
    → blank ≡ blank'
    → (if required
        then false
        else if repeated || oneof
        then no_items
        else if not bare
        then down
        else if inline
        then value
        else blank)
      ≡ (not required
          && (((oneof || repeated) && no_items)
              || (not (oneof || repeated)
                  && ((not bare && down)
                      || (not (not bare) && ((inline && value') || (not inline && blank')))))))
choice required repeated oneof no_items bare down inline same same_blank = ground arith

-- The iterator walks over the places of the fields.
pub walk-address :
    (fields : List Field) (src i : ℕ)
    → IsFields fields
    → i < length fields
    → (walk fields src i).p_data ≡ address fields src i
unfolding walk address iter_begin iter_next
walk-address fields src zero v h = refl
walk-address fields src (suc i) v h =
    let s = walk-Stands fields src i v (omega arith) in
    let before = walk-address fields src i v (omega arith) in
    next_address (walk fields src i) (field_at fields i) (field_at fields (suc i))
      (ap₂ (λ fs k. field_at fs k) s.over s.place)
      (ap₂ (λ fs k. field_at fs (suc k)) s.over s.place) (v i (omega arith)) (v (suc i) h)
    ∙ ap
        (λ q.
          if is_shared (field_at fields i) (field_at fields (suc i))
          then q
          else (q + extent (field_at fields i) + (field_at fields (suc i)).data_offset) % 2 ^ 64)
        before

pub all_zero-is_blank : (mem : Mem) (n p : ℕ) → all_zero mem n p ≡ is_blank mem n p
unfolding all_zero bytes_at
all_zero-is_blank mem zero p = refl
all_zero-is_blank mem (suc n) p = ground (arith, all_zero-is_blank mem n (suc p))

strnlen-text : (mem : Mem) (n p : ℕ) → bytes_at mem (strnlen mem n p) p ≡ text mem n p
unfolding strnlen bytes_at text
strnlen-text mem zero p = refl
strnlen-text mem (suc n) p = elim (Bool-cases (mem p == 0)) [
  | inl end ↦ rw (end, text, strnlen) refl
  | inr more ↦ rw (more, text, strnlen) (ap (λ bs. mem p ∷ bs) (strnlen-text mem n (suc p)))
]

pub string_size-text :
    (mem : Mem) (field : Field) (src : ℕ)
    → bytes_at mem (string_size mem field src) src ≡ text_of mem field src
unfolding string_size bytes_at
string_size-text mem field src = elim (Bool-cases (src == 0)) [
  | inl null ↦ rw (null, string_size) refl
  | inr some_text ↦ rw (some_text, string_size) (strnlen-text mem _ src)
]

pub signed_at-pattern : (size v : ℕ) → signed_at size v ≡ signed_pattern size v
unfolding signed_at
signed_at-pattern size v = elim (Bool-cases (size == 1)) [
  | inl one ↦ at_size 1 one (ground arith)
  | inr not_one ↦ elim (Bool-cases (size == 2)) [
    | inl two ↦ at_size 2 two (ground arith)
    | inr not_two ↦ elim (Bool-cases (size == 4)) [
      | inl four ↦ at_size 4 four (ground arith)
      | inr not_four ↦ elim (Bool-cases (size == 8)) [
        | inl eight ↦ at_size 8 eight (ground arith)
        | inr not_eight ↦ rw (not_one, not_two, not_four, not_eight) refl
      ]
    ]
  ]
]
  where
    at_size :
        (n : ℕ)
        → (size == n) ≡ true
        → signed_at n v ≡ signed_pattern n v
        → signed_at size v ≡ signed_pattern size v
    at_size n same e =
        subst (λ k. signed_at k v ≡ signed_pattern k v) (sym ((==_iff size n).0 same)) e

pub unsigned_at-pattern : (size v : ℕ) → unsigned_at size v ≡ unsigned_pattern size v
unfolding unsigned_at
unsigned_at-pattern size v = ground arith

pub zigzag-alternating : (v : ℕ) → IsU64 v → zigzag v ≡ alternating v
unfolding zigzag
zigzag-alternating v h = ground arith

pub count_of-items :
    (mem : Mem) (field : Field) (p : ℕ) → count_of mem field p ≡ items_of mem field p
count_of-items mem field p = by_offset field.size_offset
  where
    by_offset :
        (n : ℕ)
        → (if n == 0 then field.array_size else size_at mem (offset p n)) ≡ items_by mem field p n
    by_offset zero = refl
    by_offset (suc n) = ground arith

-- The loop over the fields of a submessage.
module _ (check : Field → ℕ → Bool) (fields : List Field) (src : ℕ) (v : IsFields fields) where
  -- What `all_default` does behind a field.
  abbrev tail : ℕ → Bool × FieldIter → Bool
  tail rounds (more, it) = elim more [ true ↦ all_default check rounds it | false ↦ true ]

  round :
      (rounds i : ℕ)
      → i < length fields
      → all_default check (suc rounds) (walk fields src i) ≡ (
          check (field_at fields i) (address fields src i)
          && tail rounds (iter_next (walk fields src i)))
  unfolding all_default
  round rounds i h =
      let s = walk-Stands fields src i v h in
      let here = ap₂ (λ fs k. field_at fs k) s.over s.place in
      let same = ap₂ check here (walk-address fields src i v h) in
      elim (Bool-cases (check (field_at fields i) (address fields src i))) [
        | inl passes ↦ rw (same, passes, all_default) refl
        | inr fails ↦ rw (same, fails, all_default) refl
      ]

  tail_end : (rounds : ℕ) (r : Bool × FieldIter) → r.0 ≡ false → tail rounds r ≡ true
  tail_end rounds (true, it) e = absurd (false≢true (sym e))
  tail_end rounds (false, it) e = refl

  tail_on :
      (rounds : ℕ) (r : Bool × FieldIter)
      → r.0 ≡ true
      → tail rounds r ≡ all_default check rounds r.1
  tail_on rounds (true, it) e = refl
  tail_on rounds (false, it) e = absurd (false≢true e)

  loop-every_field :
      (rounds n i : ℕ)
      → i + n ≡ length fields
      → 0 < n
      → n ≤ rounds
      → all_default check rounds (walk fields src i) ≡ every_field check fields src n i
  unfolding every_field walk
  loop-every_field rounds zero i e pos le = absurd (omega arith)
  loop-every_field zero (suc n) i e pos le = absurd (omega arith)
  loop-every_field (suc rounds) (suc zero) i e pos le =
      round rounds i (omega arith)
      ∙ ap (λ b. check (field_at fields i) (address fields src i) && b)
          (elim (next_wraps fields src i v (omega arith)) [
            | inl (inner, more, _) ↦ absurd (omega arith)
            | inr (last, more, _) ↦ tail_end rounds (iter_next (walk fields src i)) more
          ])
  loop-every_field (suc rounds) (suc (suc n)) i e pos le =
      round rounds i (omega arith)
      ∙ ap (λ b. check (field_at fields i) (address fields src i) && b)
          (elim (next_wraps fields src i v (omega arith)) [
            | inl (inner, more, _) ↦
                tail_on rounds (iter_next (walk fields src i)) more
                ∙ loop-every_field rounds (suc n) (suc i) (omega arith) (omega arith) (omega arith)
            | inr (last, more, _) ↦ absurd (omega arith)
          ])

  pub message-every_field :
      default_message check fields src ≡ every_field check fields src (length fields) 0
  unfolding walk every_field
  message-every_field = elim (dec_le 1 (length fields)) [
    | yes some_field ↦
        rw (begins fields src v, nonempty (length fields) some_field)
          (loop-every_field (suc (length fields)) (length fields) 0 (omega arith) some_field
            (omega arith))
    | no no_field ↦
        let none_there : length fields ≡ 0 = omega arith in
        rw (begins fields src v, none_there, every_field) refl
  ]

module _ (mem : Mem) (fields : ℕ → List Field) (v : (ptr : ℕ) → IsFields (fields ptr)) where
  static-is_default :
      (check : Field → ℕ → Bool) (field : Field) (p : ℕ)
      → default_static check mem fields field p ≡ is_default check mem fields field p
  unfolding default_static
  static-is_default check field p = ground (
    arith,
    message-every_field check (fields field.ptr) p (v field.ptr),
    all_zero-is_blank mem field.data_size p,
  )

  pub default_value-is_unset :
      (fuel : ℕ) (field : Field) (p : ℕ)
      → default_value mem fields fuel field p ≡ is_unset mem fields fuel field p
  unfolding default_value is_unset
  default_value-is_unset zero field p = refl
  default_value-is_unset (suc fuel) field p =
      let same : default_value mem fields fuel ≡ is_unset mem fields fuel =
        fun_ext (λ f. fun_ext (λ q. default_value-is_unset fuel f q)) in
      choice (htype field.type == 0x00) (htype field.type == 0x20) (htype field.type == 0x30) _
        (field.size_offset == 0) _ (atype field.type == 0x00)
        (static-is_default (default_value mem fields fuel) field p
          ∙ ap (λ check. is_default check mem fields field p) same)
        (all_zero-is_blank mem field.data_size p)

  pub has_field-is_there :
      (fuel : ℕ) (field : Field) (p : ℕ)
      → has_field mem fields fuel field p ≡ is_there mem fields fuel field p
  unfolding has_field implicit_has
  has_field-is_there fuel field p = by_offset field.size_offset refl
    where
      by_offset :
          (n : ℕ)
          → field.size_offset ≡ n
          → has_field mem fields fuel field p ≡ there_by mem fields fuel field p n
      by_offset zero e = ground (arith, e, default_value-is_unset fuel field p)
      by_offset (suc n) e = ground (arith, e)

  pub which_field-is_chosen :
      (fuel : ℕ) (field : Field) (p : ℕ)
      → (which_field mem fields fuel field p == field.tag) ≡ is_chosen mem fields fuel field p
  unfolding which_field implicit_has
  which_field-is_chosen fuel field p = by_offset field.size_offset refl
    where
      by_offset :
          (n : ℕ)
          → field.size_offset ≡ n
          → (which_field mem fields fuel field p == field.tag) ≡ chosen_by mem fields fuel field p n
      by_offset zero e = ground (arith, e, default_value-is_unset fuel field p)
      by_offset (suc n) e = ground (arith, e)

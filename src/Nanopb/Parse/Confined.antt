-- ===== src/Nanopb/Parse/Confined.antt =====
-- The decoders of static values store nothing outside of their field.
use league_ranker.Prelude.{
  ℕ, ◌+◌, ◌-◌, ◌%◌, ◌^◌, ◌≤◌, ◌<◌, ◌≡◌, ◌∙◌, refl, Bool-cases, inl, inr, false, Option, none, some,
  arith, ltb, ◌==◌,
}
use league_ranker.Nanopb.Types.{
  Errmsg, invalid_data_size, integer_too_large, bytes_overflow, size_too_large, string_overflow,
  incorrect_fixed_length_bytes_size,
}
use league_ranker.Nanopb.Decode.{decode_varint, decode_varint32, decode_svarint}
use league_ranker.Nanopb.Decode.Bounds.{decode_varint-InBounds, decode_varint32-InBounds}
use league_ranker.Nanopb.Iter.{Field, atype}
use league_ranker.Nanopb.Store.{offset, array_bytes, bytes_array_allocsize}
use league_ranker.Nanopb.World.{
  Libc, Run, ◌>>=◌, pure, return_error, lift, change, set_size, read_to,
}
use league_ranker.Nanopb.World.Bounds.{change-Reads, lift-Reads}
use league_ranker.Nanopb.World.Frame.{store-outside}
use league_ranker.Nanopb.World.Confined.{
  Confined, pure-Confined, return_error-Confined, lift-Confined, store-Confined, clear-Confined,
  read_to-Confined, >>=-Confined, either-Confined,
}
use league_ranker.Nanopb.Parse.Values.{
  store_integer, dec_varint_to, dec_uvarint_to, dec_svarint_to, room_for, dec_bytes, terminated,
  dec_string, dec_fixed_length_bytes,
}
use league_ranker.Nanopb.Parse.Bounds.Values.{decode_svarint-InBounds}

-- A static field that does not reach the end of the address space.
pub record IsPlace (field : Field) (dest : ℕ) : Type 0 where
  pub static : atype field.type ≡ 0x00
  pub ends : dest + field.data_size < 2 ^ 64

module _ (libc : Libc) (field : Field) (dest : ℕ) (v : IsPlace field dest) where
  integer-Confined :
      (o : Option (ℕ × ℕ)) (value : ℕ)
      → Confined dest field.data_size (store_integer field dest o value)
  unfolding store_integer
  integer-Confined none value = return_error-Confined dest field.data_size invalid_data_size
  integer-Confined (some (cast, clamped)) value =
      >>=-Confined dest field.data_size _ _ (change-Reads _)
        (store-Confined dest field.data_size field.data_size cast dest (omega arith) (omega arith))
        λ _.
          either-Confined dest field.data_size (clamped == value)
            (pure-Confined dest field.data_size tt)
            (return_error-Confined dest field.data_size integer_too_large)

  varint-Confined : Confined dest field.data_size (dec_varint_to field dest)
  unfolding dec_varint_to
  varint-Confined =
      >>=-Confined dest field.data_size (lift decode_varint) _
        (lift-Reads decode_varint decode_varint-InBounds)
        (lift-Confined dest field.data_size decode_varint) λ value. integer-Confined _ _

  uvarint-Confined : Confined dest field.data_size (dec_uvarint_to field dest)
  unfolding dec_uvarint_to
  uvarint-Confined =
      >>=-Confined dest field.data_size (lift decode_varint) _
        (lift-Reads decode_varint decode_varint-InBounds)
        (lift-Confined dest field.data_size decode_varint) λ value. integer-Confined _ _

  svarint-Confined : Confined dest field.data_size (dec_svarint_to field dest)
  unfolding dec_svarint_to
  svarint-Confined =
      >>=-Confined dest field.data_size (lift decode_svarint) _
        (lift-Reads decode_svarint decode_svarint-InBounds)
        (lift-Confined dest field.data_size decode_svarint) λ value. integer-Confined _ _

  -- What comes behind the size of a value.
  sized-Confined :
      (k : ℕ → Run (Unit {0}))
      → ((size : ℕ) → Confined dest field.data_size (k size))
      → Confined dest field.data_size (lift decode_varint32 >>= k)
  sized-Confined k h =
      >>=-Confined dest field.data_size (lift decode_varint32) k
        (lift-Reads decode_varint32 decode_varint32-InBounds)
        (lift-Confined dest field.data_size decode_varint32) h

  fixed_length-Confined : Confined dest field.data_size (dec_fixed_length_bytes field dest)
  unfolding dec_fixed_length_bytes
  fixed_length-Confined =
      let n = field.data_size in
      sized-Confined _ λ size.
        either-Confined dest n _ (return_error-Confined dest n bytes_overflow) (
          either-Confined dest n _ (clear-Confined dest n n dest (omega arith) (omega arith)) (
            either-Confined dest n _
              (return_error-Confined dest n incorrect_fixed_length_bytes_size)
              (read_to-Confined dest n dest n (omega arith) (omega arith))))

  not_pointer : (atype field.type == 0x80) ≡ false
  not_pointer = ground (arith, v.static)

  overflow-Confined :
      (e : Errmsg) (k : ℕ → Run (Unit {0}))
      → Confined dest field.data_size (return_error {A = Unit {0}} e >>= (λ _. pure dest) >>= k)
  unfolding ◌>>=◌ return_error
  overflow-Confined e k = record { keeps = λ s w v a h. refl }

  own_place-Confined :
      (k : ℕ → Run (Unit {0}))
      → Confined dest field.data_size (k dest)
      → Confined dest field.data_size (pure dest >>= k)
  unfolding ◌>>=◌ pure
  own_place-Confined k h = record { keeps = h.keeps }

  -- The room for a static value is its own place, if the value fits.
  room-Confined :
      (alloc_size : ℕ) (e : Errmsg) (k : ℕ → Run (Unit {0}))
      → (alloc_size ≤ field.data_size → Confined dest field.data_size (k dest))
      → Confined dest field.data_size (room_for libc field dest alloc_size (return_error e) >>= k)
  room-Confined alloc_size e k h = elim (Bool-cases (ltb field.data_size alloc_size)) [
    | inl over ↦ rw (not_pointer, over) (overflow-Confined e k)
    | inr fits ↦ rw (not_pointer, fits) (own_place-Confined k (h (ground (arith, fits))))
  ]

  terminated-Confined :
      (size : ℕ) → size + 1 ≤ field.data_size → Confined dest field.data_size (terminated dest size)
  unfolding terminated
  terminated-Confined size fits =
      let n = field.data_size in
      record {
        keeps = λ s w i a h.
            store-outside 1 0 (offset dest size) a (read_to dest size s w).2
              (ground (arith, h, v.ends))
            ∙ (read_to-Confined dest n dest size (omega arith) (omega arith)).keeps s w i a h;
      }

  string-Confined : Confined dest field.data_size (dec_string libc field dest)
  unfolding dec_string
  string-Confined = sized-Confined _ λ size. elim (Bool-cases (ltb ((size + 1) % 2 ^ 32) size)) [
    | inl wraps ↦ rw wraps (return_error-Confined dest field.data_size size_too_large)
    | inr no_wrap ↦
        let small : size ≤ (size + 1) % 2 ^ 32 = ground (arith, no_wrap) in
        rw no_wrap (
          room-Confined ((size + 1) % 2 ^ 32) string_overflow (λ at. terminated at size)
            λ fits. terminated-Confined size (omega arith))
  ]

  counted_bytes-Confined :
      (size : ℕ)
      → size + 4 ≤ field.data_size
      → Confined dest field.data_size
          (change (set_size size dest) >>= λ _. read_to (array_bytes dest) size)
  counted_bytes-Confined size fits =
      let n = field.data_size in
      let ends = v.ends in
      >>=-Confined dest n _ _ (change-Reads _)
        (store-Confined dest n 4 size dest (omega arith) (omega arith))
        λ _. read_to-Confined dest n (array_bytes dest) size (omega arith) (omega arith)

  bytes-Confined : Confined dest field.data_size (dec_bytes libc field dest)
  unfolding dec_bytes
  bytes-Confined = sized-Confined _ λ size. elim (Bool-cases (ltb (2 ^ 32 - 1) size)) [
    | inl large ↦ rw large (return_error-Confined dest field.data_size bytes_overflow)
    | inr small ↦
        let bound : size < 2 ^ 32 = ground (arith, small) in
        rw small (
          either-Confined dest field.data_size _
            (return_error-Confined dest field.data_size size_too_large)
            (room-Confined (bytes_array_allocsize size) bytes_overflow
              (λ bdest. change (set_size size bdest) >>= λ _. read_to (array_bytes bdest) size)
              λ fits. counted_bytes-Confined size (omega arith)))
  ]

-- Whatever bytes a buffer holds, the decoders of a static integer, string, bytes or fixed-length
-- bytes change no memory outside of the `data_size` bytes of the field, also where they fail.
pub values_stay_inside :
    (libc : Libc) (field : Field) (dest : ℕ)
    → IsPlace field dest
    → let n = field.data_size in
      Confined dest n (dec_varint_to field dest)
      × Confined dest n (dec_uvarint_to field dest)
      × Confined dest n (dec_svarint_to field dest)
      × Confined dest n (dec_string libc field dest)
      × Confined dest n (dec_bytes libc field dest)
      × Confined dest n (dec_fixed_length_bytes field dest)
values_stay_inside libc field dest v = (
  varint-Confined libc field dest v,
  uvarint-Confined libc field dest v,
  svarint-Confined libc field dest v,
  string-Confined libc field dest v,
  bytes-Confined libc field dest v,
  fixed_length-Confined libc field dest v,
)

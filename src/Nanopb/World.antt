-- ===== src/Nanopb/World.antt =====
-- What the decoders of messages change besides their stream: the memory of the C program, and the
-- blocks of it that were allocated.
pub mod Frame
pub mod Bounds
pub mod Confined
use league_ranker.Prelude.{
  ℕ, zero, suc, ◌+◌, ◌-◌, ◌*◌, ◌/◌, ◌%◌, ◌^◌, Bool, true, false, not, ◌&&◌, ◌||◌, Option, none,
  some, List, [], ◌∷◌, ltb, leb, ◌==◌, if◌then◌else◌, length, get_or,
}
use league_ranker.Nanopb.Types.{
  Errmsg, end_of_stream, io_error, invalid_size, size_too_large, realloc_failed, sub_size,
}
use league_ranker.Nanopb.Istream.{Istream, Decoder, call}
use league_ranker.Nanopb.Istream as Istream
use league_ranker.Nanopb.Store.{Mem, pointer_at}

-- The memory and the allocated blocks, each with its address and size.
pub record World : Type 0 where
  pub mem : Mem
  pub blocks : List (ℕ × ℕ)

-- `realloc` and `free` of the C library.
pub record Libc : Type 0 where
  pub realloc : ℕ → ℕ → World → ℕ × World
  pub free : ℕ → World → World

-- A function of a stream that may change the world; `none` is a false result.
abbrev pub Run : Type 0 → Type 0
Run A = Istream → World → Option A × Istream × World

infixl 5 ◌>>=◌
unfoldable pub ◌>>=◌ : {A B : Type 0} → Run A → (A → Run B) → Run B
◌>>=◌ m k s w = let (o, s', w') = m s w in elim o [ none ↦ (none, s', w') | some a ↦ k a s' w' ]

unfoldable pub pure : {A : Type 0} → A → Run A
pure a s w = (some a, s, w)

unfoldable pub fail : {A : Type 0} → Run A
fail s w = (none, s, w)

unfoldable pub return_error : {A : Type 0} → Errmsg → Run A
return_error e s w = let (o, s') = Istream.return_error e s in (o, s', w)

-- A decoder that leaves the world alone.
unfoldable pub lift : {A : Type 0} → Decoder A → Run A
lift m s w = let (o, s') = m s in (o, s', w)

-- A read and a change of the world.
unfoldable pub look : {A : Type 0} → (World → A) → Run A
look f s w = (some (f w), s, w)

unfoldable pub change : (World → World) → Run (Unit {0})
change f s w = (some tt, s, f w)

-- `stream->bytes_left`
unfoldable pub left : Run ℕ
left s w = (some s.bytes_left, s, w)

-- `n` bytes at `p`, as `source` has them from its address `q` on.
unfoldable pub copy : Mem → ℕ → ℕ → ℕ → Mem → Mem
copy source q n p mem a = if leb p a && ltb a (p + n) then source (q + (a - p)) else mem a

-- Bytes stored at `p`, an integer of `n` bytes, `memset(p, 0, n)` and `memcpy(p, q, n)`.
unfoldable pub store_bytes : List ℕ → ℕ → World → World
unfolding copy
store_bytes bs p w = record w { mem = copy (λ i. get_or bs i 0) 0 (length bs) p w.mem }

unfoldable pub bytes_of : ℕ → ℕ → List ℕ
bytes_of zero v = []
bytes_of (suc n) v = v % 256 ∷ bytes_of n (v / 256)

unfoldable pub store : ℕ → ℕ → ℕ → World → World
unfolding store_bytes bytes_of
store n v p = store_bytes (bytes_of n v) p

unfoldable pub clear : ℕ → ℕ → World → World
unfolding copy
clear n p w = record w { mem = copy (λ i. 0) 0 n p w.mem }

unfoldable pub memcpy : ℕ → ℕ → ℕ → World → World
unfolding copy
memcpy n p q w = record w { mem = copy w.mem q n p w.mem }

-- Stores of a `pb_size_t`, a pointer and a `bool`.
abbrev pub set_size : ℕ → ℕ → World → World
set_size v = store 4 v

abbrev pub set_pointer : ℕ → ℕ → World → World
set_pointer v = store 8 v

abbrev pub set_bool : Bool → ℕ → World → World
set_bool b = store 1 (if b then 1 else 0)

-- `pb_read(stream, dest, count)`
unfoldable pub read_to : ℕ → ℕ → Run (Unit {0})
unfolding call
read_to dest count s w =
    if ltb s.bytes_left count
    then return_error end_of_stream s w
    else let (done, bytes, st) = call s.callback s.state count in
      let w' = store_bytes bytes dest w in
      if done
      then (some tt, record s { state = st; bytes_left = sub_size s.bytes_left count }, w')
      else return_error io_error (record s { state = st }) w'

-- Whether `data_size * array_size` is more than a `size_t` holds, as `allocate_field` finds out.
unfoldable pub multiply_overflows : ℕ → ℕ → Bool
multiply_overflows data_size array_size =
    let check_limit : ℕ = 2 ^ 32 in
    if leb check_limit data_size || leb check_limit array_size
    then ltb ((2 ^ 64 - 1) / array_size) data_size
    else false

unfoldable pub allocate_field : Libc → ℕ → ℕ → ℕ → Run (Unit {0})
unfolding multiply_overflows
allocate_field libc p_data data_size array_size s w =
    if (data_size == 0) || (array_size == 0)
    then return_error invalid_size s w
    else if multiply_overflows data_size array_size
    then return_error size_too_large s w
    else let (ptr, w') =
        libc.realloc (pointer_at w.mem p_data) (array_size * data_size % 2 ^ 64) w in
      if ptr == 0 then return_error realloc_failed s w' else (some tt, s, set_pointer ptr p_data w')

-- ===== src/Nanopb/Store.antt =====
-- The memory of the C program as nanopb reads it: a byte at every address, integers with the low byte
-- first, and the layouts of the structures of ScoreSender/Pods/nanopb/pb.h.
pub mod Loads
use league_ranker.Prelude.{
  ℕ, zero, suc, ◌+◌, ◌*◌, ◌%◌, ◌^◌, ◌<◌, Bool, true, false, List, [], ◌∷◌, ◌==◌,
}

abbrev pub Mem : Type 0
Mem = ℕ → ℕ

-- `p + n`, as an address.
abbrev pub offset : ℕ → ℕ → ℕ
offset p n = (p + n) % 2 ^ 64

-- The unsigned integer of `n` bytes at `p`.
unfoldable pub load : Mem → ℕ → ℕ → ℕ
load mem zero p = 0
load mem (suc n) p = mem p + 256 * load mem n (suc p)

-- A pointer, a `pb_size_t` and a `bool`.
abbrev pub pointer_at : Mem → ℕ → ℕ
pointer_at mem p = load mem 8 p

abbrev pub size_at : Mem → ℕ → ℕ
size_at mem p = load mem 4 p

abbrev pub is_false : Mem → ℕ → Bool
is_false mem p = mem p == 0

-- The `n` bytes from `p` on.
unfoldable pub bytes_at : Mem → ℕ → ℕ → List ℕ
bytes_at mem zero p = []
bytes_at mem (suc n) p = mem p ∷ bytes_at mem n (suc p)

-- The `strnlen` loop of `pb_enc_string`.
unfoldable pub strnlen : Mem → ℕ → ℕ → ℕ
strnlen mem zero p = 0
strnlen mem (suc max_size) p = elim (mem p == 0) [
  | true ↦ 0
  | false ↦ suc (strnlen mem max_size (suc p))
]

-- Whether `n` bytes are all 0.
unfoldable pub all_zero : Mem → ℕ → ℕ → Bool
all_zero mem zero p = true
all_zero mem (suc n) p = elim (mem p == 0) [ true ↦ all_zero mem n (suc p) | false ↦ false ]

-- `pb_bytes_array_t` is its `size` and then the bytes.
abbrev pub array_bytes : ℕ → ℕ
array_bytes p = offset p 4

abbrev pub bytes_array_allocsize : ℕ → ℕ
bytes_array_allocsize n = (n + 4) % 2 ^ 64

-- `pb_callback_t` is a function and its `arg`.
abbrev pub callback_arg : ℕ → ℕ
callback_arg p = offset p 8

-- `pb_extension_t` is `type`, `dest`, `next` and `found`; its type is `decode`, `encode` and `arg`.
abbrev pub extension_dest : ℕ → ℕ
extension_dest p = offset p 8

abbrev pub extension_next : ℕ → ℕ
extension_next p = offset p 16

abbrev pub extension_found : ℕ → ℕ
extension_found p = offset p 24

abbrev pub type_encode : ℕ → ℕ
type_encode p = offset p 8

abbrev pub type_arg : ℕ → ℕ
type_arg p = offset p 16

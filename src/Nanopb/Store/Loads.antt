-- ===== src/Nanopb/Store/Loads.antt =====
-- What is read from the memory of the C program.
use native.Mathlib.Nat.{pow-suc}
use league_ranker.Prelude.{ℕ, zero, suc, ◌^◌, ◌≤◌, ◌<◌, ◌≡◌, ◌↔◌, refl, ap, true, length, arith}
use league_ranker.Nanopb.Store.{Mem, load, bytes_at, strnlen, all_zero}

abbrev pub IsMem : Mem → Type 0
IsMem mem = (a : ℕ) → mem a < 256

pub load-lt : (mem : Mem) → IsMem mem → (n p : ℕ) → load mem n p < 256 ^ n
unfolding load
load-lt mem v zero p = omega arith
load-lt mem v (suc n) p = omega (arith, v p, load-lt mem v n (suc p), pow-suc 256 n)

pub length-bytes_at : (mem : Mem) (n p : ℕ) → length (bytes_at mem n p) ≡ n
unfolding bytes_at
length-bytes_at mem zero p = refl
length-bytes_at mem (suc n) p = ap suc (length-bytes_at mem n (suc p))

pub strnlen-le : (mem : Mem) (n p : ℕ) → strnlen mem n p ≤ n
unfolding strnlen
strnlen-le mem zero p = omega arith
strnlen-le mem (suc n) p = ground (arith, strnlen-le mem n (suc p))

-- Bytes are all 0 just where they are the number 0.
pub all_zero-load : (mem : Mem) (n p : ℕ) → (all_zero mem n p ≡ true) ↔ (load mem n p ≡ 0)
unfolding load all_zero
all_zero-load mem zero p = ground arith
all_zero-load mem (suc n) p = ground (arith, all_zero-load mem n (suc p))

-- ===== src/Nanopb/World/Frame.antt =====
-- What a store changes, and what is read there then.
use native.Mathlib.Nat.{pow-suc}
use league_ranker.Prelude.{
  ℕ, zero, suc, ◌+◌, ◌/◌, ◌%◌, ◌^◌, ◌≤◌, ◌<◌, ◌≡◌, ◌⊎◌, refl, ap, ◌∙◌, length, get_or, arith,
}
use league_ranker.Nanopb.Store.{Mem, load}
use league_ranker.Nanopb.World.{World, copy, store_bytes, bytes_of, store}

length-bytes_of : (n v : ℕ) → length (bytes_of n v) ≡ n
unfolding bytes_of
length-bytes_of zero v = refl
length-bytes_of (suc n) v = ap suc (length-bytes_of n (v / 256))

-- The bytes of a number read as a number again.
load-bytes_of :
    (n v p : ℕ) (mem : Mem)
    → v < 256 ^ n
    → ((i : ℕ) → i < n → mem (p + i) ≡ get_or (bytes_of n v) i 0)
    → load mem n p ≡ v
unfolding load bytes_of
load-bytes_of zero v p mem small h = omega arith
load-bytes_of (suc n) v p mem small h =
    let first : mem p ≡ v % 256 = ap mem (omega arith) ∙ h 0 (omega arith) in
    let rest =
      load-bytes_of n (v / 256) (suc p) mem (omega (arith, pow-suc 256 n))
        (λ i l. ap mem (omega arith) ∙ h (suc i) (omega arith)) in
    omega (arith, first, rest)

-- A number that is stored is read back.
pub load-store : (n v p : ℕ) (w : World) → v < 256 ^ n → load (store n v p w).mem n p ≡ v
unfolding store store_bytes copy
load-store n v p w small =
    load-bytes_of n v p (store n v p w).mem small (λ i l. ground (arith, length-bytes_of n v))

-- An address outside of the bytes stored keeps its byte.
pub store-outside :
    (n v p a : ℕ) (w : World) → (a < p) ⊎ (p + n ≤ a) → (store n v p w).mem a ≡ w.mem a
unfolding store store_bytes copy
store-outside n v p a w h = ground (arith, length-bytes_of n v)

-- ===== src/Nanopb/Encode/Varint.antt =====
-- What `pb_encode_varint` hands to `pb_write`, as an arithmetic description of the format.
use native.Mathlib.Nat.{pow-suc}
use league_ranker.Prelude.{
  ℕ, zero, suc, ◌+◌, ◌/◌, ◌%◌, ◌^◌, ◌≤◌, ◌<◌, bit_and, bit_or, ◌≡◌, ◌≢◌, refl, inl, inr, List, [],
  ◌∷◌, leb, ltb, if◌then◌else◌, length, arith, All, Bool-cases,
}
use league_ranker.Prelude.Bits.{and_0x7f, or_0x80}
use league_ranker.Nanopb.Types.{IsByte, IsU64}
use league_ranker.Nanopb.Encode.{groups, unset_last, varint_buffer}

-- Seven bits a byte, the low ones first; all bytes but the last have 128 added. For `v` below
-- `128 ^ suc k`.
unfoldable pub varint : ℕ → ℕ → List ℕ
varint zero v = v ∷ []
varint (suc k) v =
    let rest = varint k (v / 128) in if ltb v 128 then v ∷ [] else (v % 128 + 128) ∷ rest

group_byte : (v : ℕ) → bit_or (bit_and v 0x7f) 0x80 ≡ v % 128 + 128
group_byte v = rw and_0x7f (or_0x80 _ (omega arith))

groups-zero : (k : ℕ) → groups k 0 ≡ []
unfolding groups
groups-zero zero = refl
groups-zero (suc k) = refl

unset_last-cons : (b : ℕ) (xs : List ℕ) → xs ≢ [] → unset_last (b ∷ xs) ≡ b ∷ unset_last xs
unfolding unset_last
unset_last-cons b [] h = absurd (h refl)
unset_last-cons b (c ∷ xs) h = refl

groups-ne-nil : (k v : ℕ) → 0 < v → v < 128 ^ k → groups k v ≢ []
unfolding groups
groups-ne-nil zero v p h e = absurd (omega arith)
groups-ne-nil (suc k) v p h e = ground arith

unset_last-groups : (k v : ℕ) → 0 < v → v < 128 ^ suc k → unset_last (groups (suc k) v) ≡ varint k v
unfolding groups varint
unset_last-groups zero v p h =
    unfold unset_last in ground (arith, group_byte v, and_0x7f (v % 128 + 128))
unset_last-groups (suc k) v p h = elim (Bool-cases (ltb v 128)) [
  | inl small ↦ unfold unset_last in ground (arith, group_byte v, and_0x7f (v % 128 + 128))
  | inr large ↦ ground (
    arith,
    group_byte v,
    pow-suc 128 (suc k),
    unset_last-cons (v % 128 + 128) (groups (suc k) (v / 128)),
    groups-ne-nil (suc k) (v / 128),
    unset_last-groups k (v / 128),
  )
]

pub varint_buffer-varint : (v : ℕ) → IsU64 v → varint_buffer v ≡ varint 9 v
unfolding varint_buffer
varint_buffer-varint v h = elim (Bool-cases (leb v 0x7f)) [
  | inl small ↦ unfold varint in ground arith
  | inr large ↦ rw large (unset_last-groups 9 v (ground arith) (omega arith))
]

pub varint-IsByte : (k v : ℕ) → v < 128 ^ suc k → All IsByte (varint k v)
unfolding varint
varint-IsByte zero v h = omega arith
varint-IsByte (suc k) v h = ground (arith, pow-suc 128 (suc k), varint-IsByte k (v / 128))

pub length-varint : (k v : ℕ) → (1 ≤ length (varint k v)) × (length (varint k v) ≤ suc k)
unfolding varint
length-varint zero v = omega arith
length-varint (suc k) v = ground (arith, length-varint k (v / 128))

-- Room for more groups changes nothing.
pub varint_more : (k v : ℕ) → v < 128 ^ suc k → varint (suc k) v ≡ varint k v
unfolding varint
varint_more zero v h = ground arith
varint_more (suc k) v h = ground (arith, pow-suc 128 (suc k), varint_more k (v / 128))

pub varint_small : (k v : ℕ) → v < 128 → varint (suc k) v ≡ v ∷ []
unfolding varint
varint_small k v h = ground arith

pub varint_large : (k v : ℕ) → 128 ≤ v → varint (suc k) v ≡ (v % 128 + 128) ∷ varint k (v / 128)
unfolding varint
varint_large k v h = ground arith

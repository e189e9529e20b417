-- ===== src/Prelude/Bits.antt =====
-- `&` and `|` as arithmetic: one equation for the lowest digit, low masks, and disjoint fields.
use Prim.Native.Nat.{ℕ, zero, suc, ◌+◌, ◌-◌, ◌*◌, ◌/◌, ◌%◌, ◌^◌, ◌≤◌, ◌<◌, min, max}
use Prim.Native.Nat.{bit_and, bit_or, digits, bitwise, bit_and-bitwise, bit_or-bitwise}
use mathlib.Core.Path.{◌≡◌, refl, ap}
use native.Mathlib.Nat.{pow-suc, le_refl, one-le-pow, div-add-mod, div-div-eq-div-mul}
use native.Mathlib.Omega.{arith}

module _ (rest : ℕ → ℕ) (digit : ℕ → ℕ → ℕ) where
  -- A first operand below both amounts of fuel has run out of digits before either of them.
  enough_fuel :
      (a k l b : ℕ) → (a ≤ k) × (a ≤ l) → digits rest digit k a b ≡ digits rest digit l a b
  enough_fuel (suc a) (suc k) (suc l) b (hk, hl) =
      rw (enough_fuel (suc a / 2) k l (b / 2) (omega arith, omega arith))
  enough_fuel (suc a) (suc k) zero b (hk, hl) = absurd (omega arith)
  enough_fuel (suc a) zero l b (hk, hl) = absurd (omega arith)
  enough_fuel zero (suc k) (suc l) b h = refl
  enough_fuel zero (suc k) zero b h = refl
  enough_fuel zero zero (suc l) b h = refl
  enough_fuel zero zero zero b h = refl

  lowest_digit :
      (b a : ℕ)
      → bitwise rest digit (suc a) b
        ≡ digit (suc a % 2) (b % 2) + 2 * bitwise rest digit (suc a / 2) (b / 2)
  lowest_digit b a =
      omega (arith, enough_fuel (suc a / 2) (suc a / 2) a (b / 2) (le_refl _, omega arith))

bit_and_step : (a b : ℕ) → bit_and a b ≡ min (a % 2) (b % 2) + 2 * bit_and (a / 2) (b / 2)
bit_and_step (suc a) b = simp bit_and-bitwise (lowest_digit (λ _. 0) min b a)
bit_and_step zero b = simp bit_and-bitwise (omega arith)

pub bit_or_step : (a b : ℕ) → bit_or a b ≡ max (a % 2) (b % 2) + 2 * bit_or (a / 2) (b / 2)
bit_or_step (suc a) b = simp bit_or-bitwise (lowest_digit (λ b. b) max b a)
bit_or_step zero b = simp bit_or-bitwise (omega arith)

pub zero-bit_or : (b : ℕ) → bit_or 0 b ≡ b
zero-bit_or b = simp bit_or-bitwise refl

no_common_bits : (bound a : ℕ) → a < bound → bit_and a 0 ≡ 0
no_common_bits (suc bound) (suc a) h =
    let half = no_common_bits bound (suc a / 2) (omega arith) in
    omega (arith, bit_and_step (suc a) 0)
no_common_bits (suc bound) zero h = refl
no_common_bits zero a h = absurd (omega arith)

bit_and-zero : (a : ℕ) → bit_and a 0 ≡ 0
bit_and-zero a = no_common_bits (suc a) a (omega arith)

shift_once_more : (k q : ℕ) → 2 * (q * 2 ^ k) ≡ q * 2 ^ suc k
shift_once_more k q = let e = ap (λ p. q * p) (pow-suc 2 k) in omega arith

-- A field put in above `k` low bits is added.
pub bit_or-shifted : (k a q : ℕ) → a < 2 ^ k → bit_or a (q * 2 ^ k) ≡ a + q * 2 ^ k
bit_or-shifted zero a q h = ground (arith, zero-bit_or q)
bit_or-shifted (suc k) a q h = ground (
  arith,
  bit_or_step a (q * 2 ^ suc k),
  shift_once_more k q,
  pow-suc 2 k,
  bit_or-shifted k (a / 2) q,
)

bit_or_comm_below : (n a b : ℕ) → a + b ≤ n → bit_or a b ≡ bit_or b a
bit_or_comm_below zero zero zero h = refl
bit_or_comm_below zero zero (suc b) h = absurd (omega arith)
bit_or_comm_below zero (suc a) b h = absurd (omega arith)
bit_or_comm_below (suc n) a b h =
    omega
      (arith, bit_or_step a b, bit_or_step b a, bit_or_comm_below n (a / 2) (b / 2) (omega arith))

pub bit_or_comm : (a b : ℕ) → bit_or a b ≡ bit_or b a
bit_or_comm a b = bit_or_comm_below (a + b) a b (le_refl _)

low_mask_fields : (k q r : ℕ) → r < 2 ^ k → bit_and (r + q * 2 ^ k) (2 ^ k - 1) ≡ r
low_mask_fields zero q r h = omega (arith, bit_and-zero (r + q * 2 ^ 0))
low_mask_fields (suc k) q r h = ground (
  arith,
  bit_and_step (r + q * 2 ^ suc k) (2 ^ suc k - 1),
  shift_once_more k q,
  pow-suc 2 k,
  low_mask_fields k q (r / 2),
)

-- A mask of `k` low bits is the remainder by `2 ^ k`.
pub bit_and-mask : (k a : ℕ) → bit_and a (2 ^ k - 1) ≡ a % 2 ^ k
bit_and-mask k a =
    ground (arith, one-le-pow k 2, low_mask_fields k (a / 2 ^ k) (a % 2 ^ k), div-add-mod a (2 ^ k))

-- A mask above `k` low bits looks past them.
pub bit_and-shifted : (k a m : ℕ) → bit_and a (m * 2 ^ k) ≡ bit_and (a / 2 ^ k) m * 2 ^ k
bit_and-shifted zero a m = ground arith
bit_and-shifted (suc k) a m = ground (
  arith,
  bit_and_step a (m * 2 ^ suc k),
  shift_once_more k m,
  shift_once_more k (bit_and (a / 2 ^ suc k) m),
  pow-suc 2 k,
  div-div-eq-div-mul a 2 (2 ^ k),
  bit_and-shifted k (a / 2) m,
)

-- The masks of the program.
pub and_0x7f : (a : ℕ) → bit_and a 0x7f ≡ a % 128
and_0x7f a = bit_and-mask 7 a

pub and_0x80 : (a : ℕ) → bit_and a 0x80 ≡ a / 128 % 2 * 128
and_0x80 a = omega (arith, bit_and-shifted 7 a 1, bit_and-mask 1 (a / 128))

pub or_0x80 : (a : ℕ) → a < 128 → bit_or a 0x80 ≡ a + 128
or_0x80 a h = omega (arith, bit_or-shifted 7 a 1 h)

pub and_0x70 : (a : ℕ) → bit_and a 0x70 ≡ a / 16 % 8 * 16
and_0x70 a = omega (arith, bit_and-shifted 4 a 7, bit_and-mask 3 (a / 16))

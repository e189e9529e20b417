-- ===== src/Base64/Decode.antt =====
-- `f_b64_pton` on the format.
use league_ranker.Prelude.{
  ℕ, ◌+◌, ◌*◌, ◌/◌, ◌%◌, ◌^◌, ◌≡◌, ◌<◌, refl, ap, true, false, not, ◌&&◌, none, some, List, ◌∷◌,
  length, set, arith, ◌==◌, get_or-set, set-set, holds_from, holds_at, bit_or,
}
use league_ranker.Prelude.Bits.{bit_and-mask, bit_or-shifted, bit_or_comm}
use league_ranker.Base64.{
  table, char, pad, is_space, index_in, Pton, store, digit, pton_from, minus_one,
}

char-table :
    holds_from 64 0 (λ v.
      not (is_space (char v))
      && (not (char v == pad) && elim (index_in table (char v)) [ none ↦ false | some i ↦ i == v ]))
    ≡ true
unfolding holds_from index_in
char-table = refl

-- What a character of the table is taken for.
pub record Char (v ch : ℕ) : Type 0 where
  visible : is_space ch ≡ false
  no_pad : (ch == pad) ≡ false
  found : index_in table ch ≡ some v

pub Char-char : (v : ℕ) → v < 64 → Char v (char v)
Char-char v h =
    let row = holds_at 64 0 v _ char-table (omega arith) h in
    record { visible = ground arith; no_pad = ground arith; found = ground arith }

-- One character of the table is one round of the loop.
pub pton_from-Char :
    (v : ℕ) {ch : ℕ} (src : List ℕ) (targsize : ℕ) (p q : Pton)
    → Char v ch
    → digit targsize v p ≡ (true, q)
    → pton_from (ch ∷ src) targsize p ≡ pton_from src targsize q
unfolding pton_from
pton_from-Char v src targsize p q c e =
    rw (pton_from, c.visible, c.no_pad, c.found)
      (ap (λ r. elim r.0 [ true ↦ pton_from src targsize r.1 | false ↦ (minus_one, r.1.target) ]) e)

-- The decoder in front of a character.
abbrev pub at : List ℕ → ℕ → ℕ → Pton
at t i state = record { target = some t; tarindex = i; state = state }

merge : (k hi lo : ℕ) → lo < 2 ^ k → bit_or (hi * 2 ^ k) lo ≡ hi * 2 ^ k + lo
merge k hi lo h = omega (arith, bit_or_comm (hi * 2 ^ k) lo, bit_or-shifted k lo hi h)

-- The four states, each behind the bits that the one before left in `target[i]`.
module _ (t : List ℕ) (targsize i v : ℕ) (h : v < 64) (small : i + 1 < 2 ^ 32) where
  pub digit_0 : i < targsize → digit targsize v (at t i 0) ≡ (true, at (set t i (v * 4)) i 1)
  unfolding digit store
  digit_0 room = ground arith

  pub digit_1 :
      (x : ℕ)
      → x < 64
      → i < length t
      → i + 1 < targsize
      → digit targsize v (at (set t i (x * 4)) i 1)
        ≡ (true, at (set (set t i (x * 4 + v / 16)) (i + 1) (v % 16 * 16)) (i + 1) 2)
  unfolding digit store
  digit_1 x hx holds room = ground (
    arith,
    get_or-set t i (x * 4) 0 holds,
    set-set t i (x * 4) (x * 4 + v / 16),
    merge 2 x (v / 16) (omega arith),
    bit_and-mask 4 v,
  )

  pub digit_2 :
      (x : ℕ)
      → x < 16
      → i < length t
      → i + 1 < targsize
      → digit targsize v (at (set t i (x * 16)) i 2)
        ≡ (true, at (set (set t i (x * 16 + v / 4)) (i + 1) (v % 4 * 64)) (i + 1) 3)
  unfolding digit store
  digit_2 x hx holds room = ground (
    arith,
    get_or-set t i (x * 16) 0 holds,
    set-set t i (x * 16) (x * 16 + v / 4),
    merge 4 x (v / 4) (omega arith),
    bit_and-mask 2 v,
  )

  pub digit_3 :
      (x : ℕ)
      → x < 4
      → i < length t
      → i < targsize
      → digit targsize v (at (set t i (x * 64)) i 3) ≡ (true, at (set t i (x * 64 + v)) (i + 1) 0)
  unfolding digit store
  digit_3 x hx holds room =
      ground
        (arith, get_or-set t i (x * 64) 0 holds, set-set t i (x * 64) (x * 64 + v), merge 6 x v h)

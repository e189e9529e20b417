-- ===== src/Nanopb/Decode/Fuel.antt =====
-- The fuel of the varint loops of pb_decode.c.
use mathlib.Core.Path.{subst}
use league_ranker.Prelude.{
  ℕ, zero, suc, ◌+◌, ◌*◌, ◌%◌, ◌^◌, ◌≤◌, ◌<◌, ◌≡◌, ◌≢◌, refl, sym, ◌∙◌, bit_and, Bool, true, false,
  Option, none, some, leb, ◌==◌, arith, Bool-cases, Option-cases, inl, inr,
}
use league_ranker.Nanopb.Types.{Errmsg, keep_first, end_of_stream, io_error, varint_overflow}
use league_ranker.Nanopb.Istream.{
  Istream, Decoder, ◌>>=◌, pure, return_error, readbyte, >>=-some, >>=-none,
}
use league_ranker.Nanopb.Decode.{
  add_group64, varint_loop, decode_varint, add_group32, last_group32, varint32_loop,
}

-- Two amounts of fuel that are both enough give the same decoder. From bit 64 on the loop stops.
varint_loop_same :
    (f g result bitpos : ℕ)
    → bitpos ≤ 70
    → 70 < bitpos + 7 * f
    → 70 < bitpos + 7 * g
    → varint_loop f result bitpos ≡ varint_loop g result bitpos
unfolding varint_loop
varint_loop_same zero g result bitpos hb hf hg = absurd (omega arith)
varint_loop_same (suc f) zero result bitpos hb hf hg = absurd (omega arith)
varint_loop_same (suc f) (suc g) result bitpos hb hf hg = elim (Bool-cases (leb 64 bitpos)) [
  | inl stop ↦ rw (varint_loop, stop)
  | inr more ↦
      rw (varint_loop, more)
        (λ i. readbyte >>= λ byte. elim (bit_and byte 0x80 == 0) [
          | true ↦ pure (add_group64 result bitpos byte)
          | false ↦
              varint_loop_same f g (add_group64 result bitpos byte) ((bitpos + 7) % 2 ^ 8)
                (ground arith) (ground arith) (ground arith) i
        ])
]

-- `pb_decode_varint` is its loop at any fuel above ten: an eleventh round ends it.
pub decode_varint_fuel : (fuel : ℕ) → 10 < fuel → varint_loop fuel 0 0 ≡ decode_varint
unfolding decode_varint
decode_varint_fuel fuel h = varint_loop_same fuel 11 0 0 (omega arith) (omega arith) (omega arith)

keep_first-some : (m : Option Errmsg) (e : Errmsg) → keep_first m e ≢ none
keep_first-some none e h = cc
keep_first-some (some m) e h = cc

-- How a decoder ends that takes at most `n` bytes: it takes none back, and fails with a message.
abbrev EndsWithin : {A : Type 0} → ℕ → Istream → Option A × Istream → Type 0
EndsWithin n s (value, t) =
    (t.bytes_left ≤ s.bytes_left)
    × (s.bytes_left ≤ t.bytes_left + n)
    × (value ≡ none → t.errmsg ≢ none)

error-EndsWithin :
    {A : Type 0} (e : Errmsg) (n : ℕ) (s : Istream) → EndsWithin {A = A} n s (return_error e s)
error-EndsWithin e n s = (omega arith, omega arith, λ _. keep_first-some s.errmsg e)

either-EndsWithin :
    {A : Type 0} (n : ℕ) (s : Istream) (b : Bool) (m k : Decoder A)
    → EndsWithin n s (m s)
    → EndsWithin n s (k s)
    → EndsWithin n s (elim b as (λ _. Decoder A) [ true ↦ m | false ↦ k ] s)
either-EndsWithin n s true m k h h' = h
either-EndsWithin n s false m k h h' = h'

readbyte-EndsWithin : (s : Istream) → EndsWithin 1 s (readbyte s)
unfolding readbyte
readbyte-EndsWithin s =
    ground (arith, keep_first-some s.errmsg end_of_stream, keep_first-some s.errmsg io_error)

module _ {A B : Type 0} (k : A → Decoder B) (a b : ℕ) (s : Istream) where
  after-EndsWithin :
      (r : Option A × Istream)
      → EndsWithin a s r
      → ((x : A) (t : Istream) → EndsWithin b t (k x t))
      → EndsWithin (a + b) s (◌>>=◌ {A = A} {B = B} (λ _. r) k s)
  after-EndsWithin (none, t) h step = (h.0, omega (arith, h.1), λ _. h.2 refl)
  after-EndsWithin (some x, t) h step =
      let (kept, taken, message) = step x t in (omega (arith, h.0), omega (arith, h.1), message)

  >>=-EndsWithin :
      (m : Decoder A)
      → EndsWithin a s (m s)
      → ((x : A) (t : Istream) → EndsWithin b t (k x t))
      → EndsWithin (a + b) s ((m >>= k) s)
  >>=-EndsWithin m h step = after-EndsWithin (m s) h step

-- What the loop does behind its byte.
abbrev round64 : ℕ → ℕ → ℕ → ℕ → Decoder ℕ
round64 fuel result bitpos byte = elim (bit_and byte 0x80 == 0) [
  | true ↦ pure (add_group64 result bitpos byte)
  | false ↦ varint_loop fuel (add_group64 result bitpos byte) ((bitpos + 7) % 2 ^ 8)
]

-- The loop from bit 7 * k on.
varint_loop-EndsWithin :
    (fuel result bitpos k n : ℕ) (s : Istream)
    → bitpos ≡ 7 * k
    → k + n ≡ 10
    → n < fuel
    → EndsWithin n s (varint_loop fuel result bitpos s)
unfolding varint_loop
varint_loop-EndsWithin zero result bitpos k n s place sum enough = absurd (omega arith)
varint_loop-EndsWithin (suc fuel) result bitpos k zero s place sum enough =
    let stop : leb 64 bitpos ≡ true = ground arith in
    rw (varint_loop, stop) (error-EndsWithin varint_overflow 0 s)
varint_loop-EndsWithin (suc fuel) result bitpos k (suc n) s place sum enough =
    let more : leb 64 bitpos ≡ false = ground arith in
    let count : 1 + n ≡ suc n = omega arith in
    rw (varint_loop, more)
      (subst (λ j. EndsWithin j s ((readbyte >>= round64 fuel result bitpos) s)) count
        (>>=-EndsWithin (round64 fuel result bitpos) 1 n s readbyte (readbyte-EndsWithin s)
          (λ byte t.
            either-EndsWithin n t (bit_and byte 0x80 == 0) (pure (add_group64 result bitpos byte))
              (varint_loop fuel (add_group64 result bitpos byte) ((bitpos + 7) % 2 ^ 8))
              (omega arith, omega arith, λ e. cc)
              (varint_loop-EndsWithin fuel (add_group64 result bitpos byte) ((bitpos + 7) % 2 ^ 8)
                (k + 1) n t (omega arith) (omega arith) (omega arith)))))

-- Whatever the stream and its source, `pb_decode_varint` takes at most ten bytes from it and gives
-- none back, and where it fails it leaves an error message.
pub decode_varint_ends :
    (s : Istream)
    → let (value, t) = decode_varint s in
      (t.bytes_left ≤ s.bytes_left)
      × (s.bytes_left ≤ t.bytes_left + 10)
      × (value ≡ none → t.errmsg ≢ none)
unfolding decode_varint
decode_varint_ends s = varint_loop-EndsWithin 11 0 0 0 10 s refl refl (omega arith)

readbyte_fewer :
    (s : Istream) {b : ℕ} {t : Istream} → readbyte s ≡ (some b, t) → t.bytes_left < s.bytes_left
unfolding readbyte
readbyte_fewer s {b} {t} e = ground arith

-- One round of the 32-bit loop behind its byte, for any loop that goes on from there.
round32 : (ℕ → ℕ → Decoder ℕ) → ℕ → ℕ → ℕ → Decoder ℕ
round32 loop result bitpos byte = elim (add_group32 result bitpos byte) [
  | none ↦ return_error varint_overflow
  | some next ↦ elim (bit_and byte 0x80 == 0) [
    | true ↦ last_group32 next ((bitpos + 7) % 2 ^ 8) byte
    | false ↦ loop next ((bitpos + 7) % 2 ^ 8)
  ]
]

round32_same :
    (l m : ℕ → ℕ → Decoder ℕ) (result bitpos byte : ℕ) (t : Istream)
    → ((r b : ℕ) → l r b t ≡ m r b t)
    → round32 l result bitpos byte t ≡ round32 m result bitpos byte t
unfolding round32
round32_same l m result bitpos byte t h = elim (Option-cases (add_group32 result bitpos byte)) [
  | inl stop ↦ rw (round32, stop)
  | inr (next, e) ↦ elim (Bool-cases (bit_and byte 0x80 == 0)) [
    | inl last ↦ rw (round32, e, last)
    | inr more ↦ rw (round32, e, more) (h next ((bitpos + 7) % 2 ^ 8))
  ]
]

varint32_loop_step :
    (f result bitpos : ℕ)
    → varint32_loop (suc f) result bitpos ≡ (readbyte >>= round32 (varint32_loop f) result bitpos)
unfolding varint32_loop round32
varint32_loop_step f result bitpos = refl

-- Any two amounts of fuel above `bytes_left` give the same result of the loop of
-- `pb_decode_varint32_eof`, whatever the source of the bytes.
pub varint32_loop_fuel :
    (f g result bitpos : ℕ) (s : Istream)
    → s.bytes_left < f
    → s.bytes_left < g
    → varint32_loop f result bitpos s ≡ varint32_loop g result bitpos s
varint32_loop_fuel zero g result bitpos s hf hg = absurd (omega arith)
varint32_loop_fuel (suc f) zero result bitpos s hf hg = absurd (omega arith)
varint32_loop_fuel (suc f) (suc g) result bitpos s hf hg =
    rw (varint32_loop_step f result bitpos, varint32_loop_step g result bitpos)
      (go (λ r b t. varint32_loop_fuel f g r b t) (readbyte s) refl)
  where
    go :
        ((r b : ℕ) (t : Istream)
          → t.bytes_left < f
          → t.bytes_left < g
          → varint32_loop f r b t ≡ varint32_loop g r b t)
        → (r : Option ℕ × Istream) → readbyte s ≡ r
        → (readbyte >>= round32 (varint32_loop f) result bitpos) s
          ≡ (readbyte >>= round32 (varint32_loop g) result bitpos) s
    go ih (none, t) e =
        >>=-none readbyte (round32 (varint32_loop f) result bitpos) s e
        ∙ sym (>>=-none readbyte (round32 (varint32_loop g) result bitpos) s e)
    go ih (some byte, t) e =
        >>=-some readbyte (round32 (varint32_loop f) result bitpos) s e
        ∙ round32_same (varint32_loop f) (varint32_loop g) result bitpos byte t (λ r b.
          ih r b t (omega (arith, readbyte_fewer s e)) (omega (arith, readbyte_fewer s e)))
        ∙ sym (>>=-some readbyte (round32 (varint32_loop g) result bitpos) s e)

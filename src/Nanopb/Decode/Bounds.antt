-- ===== src/Nanopb/Decode/Bounds.antt =====
-- The decoders of pb_decode.c on buffers with any contents.
use league_ranker.Prelude.{
  ℕ, zero, suc, ◌+◌, ◌%◌, ◌^◌, ◌≡◌, refl, Bool, true, false, Option, none, some, bit_and, arith,
  if◌then◌else◌, ◌==◌, Bool-cases, inl, inr,
}
use league_ranker.Nanopb.Types.{WireType, varint_overflow, invalid_wire_type}
use league_ranker.Nanopb.Istream.{Istream, Decoder, ◌>>=◌, pure, readbyte, read_into, skip}
use league_ranker.Nanopb.Istream.Bounds.{
  IsInput, Moved, InBounds, Moved-trans, Moved-IsInput, pure-InBounds, return_error-InBounds,
  out_of_fuel-InBounds, read_into-InBounds, skip-InBounds, readbyte-InBounds, >>=-InBounds,
}
use league_ranker.Nanopb.Decode.{
  varint_loop, decode_varint, add_group32, last_group32, varint32_loop, decode_varint32_eof,
  decode_varint32, decode_tag, skip_varint_loop, skip_varint, skip_string, skip_field,
}

ruleset bounds = (
  pure-InBounds, return_error-InBounds, out_of_fuel-InBounds, read_into-InBounds, skip-InBounds,
  readbyte-InBounds, >>=-InBounds,
)

pub Bool-InBounds :
    {A : Type 0} (b : Bool) {d e : Decoder A}
    → InBounds d
    → InBounds e
    → InBounds (elim b [ true ↦ d | false ↦ e ])
Bool-InBounds true h k = h
Bool-InBounds false h k = k

Option-InBounds :
    {A : Type 0} (o : Option ℕ) {d : Decoder A} {k : ℕ → Decoder A}
    → InBounds d
    → ((n : ℕ) → InBounds (k n))
    → InBounds (elim o [ none ↦ d | some n ↦ k n ])
Option-InBounds none h k = h
Option-InBounds (some n) h k = k n

pub if-InBounds :
    {A : Type 0} (b : Bool) {d e : Decoder A}
    → InBounds d
    → InBounds e
    → InBounds (if b then d else e)
if-InBounds true h k = h
if-InBounds false h k = k

varint_loop-InBounds : (fuel result bitpos : ℕ) → InBounds (varint_loop fuel result bitpos)
unfolding varint_loop
varint_loop-InBounds zero result bitpos = out_of_fuel-InBounds
varint_loop-InBounds (suc fuel) result bitpos = Bool-InBounds _ (return_error-InBounds _) (
    >>=-InBounds readbyte _ readbyte-InBounds
      λ byte. Bool-InBounds _ (pure-InBounds _) (varint_loop-InBounds fuel _ _))

pub decode_varint-InBounds : InBounds decode_varint
unfolding decode_varint
decode_varint-InBounds = varint_loop-InBounds 11 0 0

last_group32-InBounds : (result bitpos byte : ℕ) → InBounds (last_group32 result bitpos byte)
unfolding last_group32
last_group32-InBounds result bitpos byte = if-InBounds _ (return_error-InBounds _) (pure-InBounds _)

varint32_loop-InBounds : (fuel result bitpos : ℕ) → InBounds (varint32_loop fuel result bitpos)
unfolding varint32_loop
varint32_loop-InBounds zero result bitpos = out_of_fuel-InBounds
varint32_loop-InBounds (suc fuel) result bitpos = >>=-InBounds readbyte _ readbyte-InBounds λ byte.
    Option-InBounds (add_group32 result bitpos byte) (return_error-InBounds varint_overflow) λ next.
      Bool-InBounds (bit_and byte 0x80 == 0)
        (last_group32-InBounds next ((bitpos + 7) % 2 ^ 8) byte)
        (varint32_loop-InBounds fuel next ((bitpos + 7) % 2 ^ 8))

decode_varint32_eof_moves : (s : Istream) → IsInput s → Moved s (decode_varint32_eof s).1
unfolding decode_varint32_eof
decode_varint32_eof_moves s v = go (readbyte s) refl
  where
    go : (r : Option ℕ × Istream) → readbyte s ≡ r → Moved s (decode_varint32_eof s).1
    go (none, t) e = rw (decode_varint32_eof, e, e) (rw e at (readbyte-InBounds.moves s v))
    go (some byte, t) e =
        let first : Moved s t = rw e at (readbyte-InBounds.moves s v) in
        elim (Bool-cases (bit_and byte 0x80 == 0)) [
          | inl last ↦ rw (decode_varint32_eof, e, last, e) first
          | inr more ↦
              rw (decode_varint32_eof, e, more, e)
                (Moved-trans first (
                  (varint32_loop-InBounds (suc t.bytes_left) (bit_and byte 0x7f) 7).moves t
                    (Moved-IsInput first v)))
        ]

pub decode_varint32-InBounds : InBounds decode_varint32
decode_varint32-InBounds = record { moves = unfold decode_varint32 in decode_varint32_eof_moves }

skip_varint_loop-InBounds : (fuel : ℕ) → InBounds (skip_varint_loop fuel)
unfolding skip_varint_loop
skip_varint_loop-InBounds zero = out_of_fuel-InBounds
skip_varint_loop-InBounds (suc fuel) =
    >>=-InBounds (read_into 1) _ (read_into-InBounds 1)
      λ bytes. Bool-InBounds _ (pure-InBounds _) (skip_varint_loop-InBounds fuel)

skip_string-InBounds : InBounds skip_string
unfolding skip_string
skip_string-InBounds =
    >>=-InBounds decode_varint32 _ decode_varint32-InBounds
      λ n. >>=-InBounds (skip n) _ (skip-InBounds n) λ _. pure-InBounds tt

past-InBounds : (count : ℕ) → InBounds (skip count >>= λ _. pure tt)
past-InBounds count = >>=-InBounds (skip count) _ (skip-InBounds count) λ _. pure-InBounds tt

skip_varint-InBounds : InBounds skip_varint
unfolding skip_varint
skip_varint-InBounds = record {
  moves = λ s v. (skip_varint_loop-InBounds (suc s.bytes_left)).moves s v;
}

pub skip_field-InBounds : (wire_type : WireType) → InBounds (skip_field wire_type)
unfolding skip_field
skip_field-InBounds wire_type = if-InBounds _ skip_varint-InBounds (
    if-InBounds _ (past-InBounds 8) (
      if-InBounds _ skip_string-InBounds
        (if-InBounds _ (past-InBounds 4) (return_error-InBounds invalid_wire_type))))

decode_tag_stream : (s : Istream) → (decode_tag s).1 ≡ (decode_varint32_eof s).1
unfolding decode_tag
decode_tag_stream s = ground arith

pub decode_tag_moves : (s : Istream) → IsInput s → Moved s (decode_tag s).1
decode_tag_moves s v = rw decode_tag_stream (decode_varint32_eof_moves s v)

-- Whatever bytes a buffer holds, decoding a tag, a varint or skipping a field of any wire type
-- leaves the stream inside the buffer, with `bytes_left` down by just the bytes passed over.
pub decoders_in_bounds :
    (s : Istream) (wire_type : WireType)
    → IsInput s
    → Moved s (decode_tag s).1 × Moved s (decode_varint s).1 × Moved s (skip_field wire_type s).1
decoders_in_bounds s wire_type v = (
  decode_tag_moves s v,
  decode_varint-InBounds.moves s v,
  (skip_field-InBounds wire_type).moves s v,
)

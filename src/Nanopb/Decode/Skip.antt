-- ===== src/Nanopb/Decode/Skip.antt =====
-- `pb_skip_field` passes over exactly one payload of its wire type.
use native.Mathlib.Nat.{pow-suc}
use native.Mathlib.Decide.{dec_lt}
use league_ranker.Prelude.{
  ℕ, zero, suc, ◌+◌, ◌/◌, ◌%◌, ◌^◌, ◌≤◌, ◌<◌, ◌≡◌, refl, ◌∙◌, some, List, [], ◌∷◌, ◌++◌, length,
  arith, length-append,
}
use league_ranker.Prelude.Bits.{and_0x80}
use league_ranker.Nanopb.Types.{WireType, IsU64, wt_varint, wt_64bit, wt_string, wt_32bit}
use league_ranker.Nanopb.Istream.{Istream, ◌>>=◌, pure, read_into, skip, >>=-some}
use league_ranker.Nanopb.Decode.{
  skip_varint_loop, skip_varint, skip_string, skip_field, decode_varint32,
}
use league_ranker.Nanopb.Decode.Varint.{Ahead, behind, Ahead-step, Ahead-left, Ahead-right}
use league_ranker.Nanopb.Decode.Scalars.{read_into_lem}
use league_ranker.Nanopb.Decode.Varint32.{decode_varint32-varint}
use league_ranker.Nanopb.Encode.Varint.{varint, varint_small, varint_large, length-varint}

-- What may stand behind a tag.
pub data Payload : Type 0 where
  number : ℕ → Payload
  eight_bytes four_bytes delimited : List ℕ → Payload

abbrev pub payload_type : Payload → WireType
payload_type (number v) = wt_varint
payload_type (eight_bytes bs) = wt_64bit
payload_type (four_bytes bs) = wt_32bit
payload_type (delimited bs) = wt_string

abbrev pub payload_bytes : Payload → List ℕ
payload_bytes (number v) = varint 9 v
payload_bytes (eight_bytes bs) = bs
payload_bytes (four_bytes bs) = bs
payload_bytes (delimited bs) = varint 9 (length bs) ++ bs

abbrev pub IsPayload : Payload → Type 0
IsPayload (number v) = IsU64 v
IsPayload (eight_bytes bs) = length bs ≡ 8
IsPayload (four_bytes bs) = length bs ≡ 4
IsPayload (delimited bs) = length bs < 2 ^ 32

read_first :
    (b : ℕ) (bytes rest : List ℕ) {s : Istream}
    → Ahead (b ∷ bytes) rest s
    → read_into 1 s ≡ (some (b ∷ []), behind 1 (bytes ++ rest) s)
unfolding read_into
read_first b bytes rest {s} a = ground arith

last_skipped :
    (fuel b : ℕ) (rest : List ℕ) {s : Istream}
    → b < 128
    → Ahead (b ∷ []) rest s
    → skip_varint_loop (suc fuel) s ≡ (some tt, behind 1 rest s)
unfolding skip_varint_loop
last_skipped fuel b rest {s} h a = ground (arith, read_first b [] rest a, and_0x80 b)

inner_skipped :
    (fuel g : ℕ) (bytes rest : List ℕ) {s : Istream}
    → g < 128
    → Ahead ((g + 128) ∷ bytes) rest s
    → skip_varint_loop (suc fuel) s ≡ skip_varint_loop fuel (behind 1 (bytes ++ rest) s)
unfolding skip_varint_loop
inner_skipped fuel g bytes rest {s} h a =
    ground (arith, read_first (g + 128) bytes rest a, and_0x80 (g + 128))

skip_varint_loop-varint :
    (k fuel v : ℕ) (rest : List ℕ) {s : Istream}
    → v < 128 ^ suc k
    → length (varint k v) ≤ fuel
    → Ahead (varint k v) rest s
    → skip_varint_loop fuel s ≡ (some tt, behind (length (varint k v)) rest s)
skip_varint_loop-varint k zero v rest {s} hv hf a = absurd (omega (arith, length-varint k v))
skip_varint_loop-varint zero (suc fuel) v rest {s} hv hf a =
    unfold varint in last_skipped fuel v rest (omega arith) a
skip_varint_loop-varint (suc k) (suc fuel) v rest {s} hv hf a = elim (dec_lt v 128) [
  | yes small ↦ let e = varint_small k v small in rw e (last_skipped fuel v rest small (rw e at a))
  | no large ↦
      let e = varint_large k v (omega arith) in
      let more : List ℕ = varint k (v / 128) in
      let a₁ : Ahead ((v % 128 + 128) ∷ more) rest s = rw e at a in
      let hf₁ : suc (length more) ≤ suc fuel = rw e at hf in
      rw e (
        inner_skipped fuel (v % 128) more rest (omega arith) a₁
        ∙ skip_varint_loop-varint k fuel (v / 128) rest (omega (arith, pow-suc 128 (suc k)))
            (omega arith) (Ahead-step (v % 128 + 128) more rest a₁)
        ∙ ground arith)
]

pub skip_lem :
    (bytes rest : List ℕ) {s : Istream}
    → Ahead bytes rest s
    → skip (length bytes) s ≡ (some bytes, behind (length bytes) rest s)
unfolding skip
skip_lem bytes rest {s} a = ground (arith, read_into_lem bytes rest a)

skip_count :
    (count : ℕ) (bytes rest : List ℕ) {s : Istream}
    → length bytes ≡ count
    → Ahead bytes rest s
    → (skip count >>= λ _. pure tt) s ≡ (some tt, behind (length bytes) rest s)
skip_count count bytes rest {s} e a =
    >>=-some (skip count) (λ _. pure tt) s {a = bytes} {s₁ = behind (length bytes) rest s}
      (rw (← e) (skip_lem bytes rest a))

skip_string-varint :
    (bytes rest : List ℕ) {s : Istream}
    → length bytes < 2 ^ 32
    → Ahead (varint 9 (length bytes) ++ bytes) rest s
    → skip_string s ≡ (some tt, behind (length (varint 9 (length bytes) ++ bytes)) rest s)
unfolding skip_string
skip_string-varint bytes rest {s} h a =
    let n = length (varint 9 (length bytes)) in
    >>=-some decode_varint32 (λ k. skip k >>= λ _. pure tt) s
      (decode_varint32-varint (length bytes) (bytes ++ rest) h
        (Ahead-left (varint 9 (length bytes)) bytes rest a))
    ∙ skip_count (length bytes) bytes rest {s = behind n (bytes ++ rest) s} refl
        (Ahead-right (varint 9 (length bytes)) bytes rest a)
    ∙ ground (arith, length-append (varint 9 (length bytes)) bytes)

-- A well-formed payload is passed over, and nothing behind it.
pub skip_field-payload :
    (p : Payload) (rest : List ℕ) {s : Istream}
    → IsPayload p
    → Ahead (payload_bytes p) rest s
    → skip_field (payload_type p) s ≡ (some tt, behind (length (payload_bytes p)) rest s)
unfolding skip_field
skip_field-payload (number v) rest {s} h a =
    unfold skip_varint in
    skip_varint_loop-varint 9 (suc s.bytes_left) v rest (omega arith) (omega (arith, a.enough)) a
skip_field-payload (eight_bytes bs) rest h a = skip_count 8 bs rest h a
skip_field-payload (four_bytes bs) rest h a = skip_count 4 bs rest h a
skip_field-payload (delimited bs) rest h a = skip_string-varint bs rest h a

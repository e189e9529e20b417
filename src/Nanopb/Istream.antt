-- ===== src/Nanopb/Istream.antt =====
-- ScoreSender/Pods/nanopb/pb_decode.c: input streams over a buffer or over a user's callback, and
-- the substreams that limit a read to a length-delimited field.
pub mod Bounds
use mathlib.Core.Path.{◌≡◌}
use league_ranker.Prelude.{
  ℕ, zero, suc, ◌+◌, ◌-◌, Bool, true, false, Option, none, some, List, [], ◌∷◌, ltb, ◌==◌,
  if◌then◌else◌, take, drop, get_or,
}
use league_ranker.Nanopb.Types.{
  Errmsg, end_of_stream, io_error, parent_stream_too_short, keep_first, sub_size,
}

-- `stream->callback`: `buf_read`, or the user's function. That one is handed the state and a
-- count, and gives its status, the bytes that it stored and the new state.
pub data Source : Type 0 where
  buf_read : Source
  user_read : (List ℕ → ℕ → Bool × List ℕ × List ℕ) → Source

-- `pb_istream_t`. Over a buffer the state is the memory from the read position on.
pub record Istream : Type 0 where
  pub callback : Source
  pub state : List ℕ
  pub bytes_left : ℕ
  pub errmsg : Option Errmsg

-- A decoder gives `none` where the C function returns false. The stream has moved all the same.
abbrev pub Decoder : Type 0 → Type 0
Decoder A = Istream → Option A × Istream

infixl 5 ◌>>=◌
abbrev pub ◌>>=◌ : {A B : Type 0} → Decoder A → (A → Decoder B) → Decoder B
◌>>=◌ m k s = let (o, s') = m s in elim o [ none ↦ (none, s') | some a ↦ k a s' ]

abbrev pub pure : {A : Type 0} → A → Decoder A
pure a s = (some a, s)

-- A loop whose fuel ran out, which is no C behaviour.
abbrev pub out_of_fuel : {A : Type 0} → Decoder A
out_of_fuel s = (none, s)

-- `PB_RETURN_ERROR(stream, msg)`
abbrev pub return_error : {A : Type 0} → Errmsg → Decoder A
return_error e s = (none, record s { errmsg = keep_first s.errmsg e })

unfoldable pub istream_from_buffer : List ℕ → ℕ → Istream
istream_from_buffer buf bufsize = record {
  callback = buf_read;
  state = buf;
  bytes_left = bufsize;
  errmsg = none;
}

-- `stream->callback(stream, buf, count)`, with the body of the C function `buf_read`.
unfoldable pub call : Source → List ℕ → ℕ → Bool × List ℕ × List ℕ
call buf_read state count = (true, take count state, drop count state)
call (user_read f) state count = f state count

-- `pb_read` from the check of `bytes_left` on; it gives the bytes stored in `buf`.
unfoldable pub read_into : ℕ → Decoder (List ℕ)
unfolding call
read_into count s =
    if ltb s.bytes_left count
    then return_error end_of_stream s
    else let (done, bytes, st) = call s.callback s.state count in
      if done
      then (some bytes, record s { state = st; bytes_left = sub_size s.bytes_left count })
      else return_error io_error (record s { state = st })

-- `while (count > 16)` of `pb_read` over a NULL buffer: sixteen bytes a round, then the rest.
-- Each round takes bytes off `count`, so a fuel above `count` is never used up.
unfoldable pub skip_chunks : ℕ → ℕ → Decoder (List ℕ)
skip_chunks zero count = out_of_fuel
skip_chunks (suc fuel) count = elim (ltb 16 count) [
  | true ↦ read_into 16 >>= λ _. skip_chunks fuel (count - 16)
  | false ↦ read_into count
]

-- `pb_read(stream, NULL, count)`
unfoldable pub skip : ℕ → Decoder (List ℕ)
skip count s = elim s.callback [
  | buf_read ↦ read_into count s
  | user_read f ↦ skip_chunks (suc count) count s
]

-- `pb_readbyte`
unfoldable pub readbyte : Decoder ℕ
unfolding call
readbyte s =
    if s.bytes_left == 0
    then return_error end_of_stream s
    else let (done, bytes, st) = call s.callback s.state 1 in
      if done
      then (some (get_or bytes 0 0), record s { state = st; bytes_left = s.bytes_left - 1 })
      else return_error io_error (record s { state = st })

-- A decoder that succeeds hands its value and stream on; one that fails ends the sequence.
pub >>=-some :
    {A B : Type 0} (m : Decoder A) (k : A → Decoder B) (s : Istream) {a : A} {s₁ : Istream}
    → m s ≡ (some a, s₁)
    → (m >>= k) s ≡ k a s₁
>>=-some m k s e = rw (e, ◌>>=◌, e)

pub >>=-none :
    {A B : Type 0} (m : Decoder A) (k : A → Decoder B) (s : Istream) {s₁ : Istream}
    → m s ≡ (none, s₁)
    → (m >>= k) s ≡ (none, s₁)
>>=-none m k s e = rw (e, ◌>>=◌, e)

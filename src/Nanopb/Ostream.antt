-- ===== src/Nanopb/Ostream.antt =====
-- ScoreSender/Pods/nanopb/pb_encode.c: output streams over a buffer, over a user's callback, and
-- with no callback, which only count.
pub mod Buffer
pub mod Writes
use league_ranker.Prelude.{
  ℕ, suc, ◌+◌, Bool, true, false, Option, none, some, List, [], ◌∷◌, ltb, if◌then◌else◌, set, take,
}
use league_ranker.Prelude.Memory.{write_at}
use league_ranker.Nanopb.Types.{Errmsg, stream_full, io_error, keep_first, add_size}

-- What `stream->state` points to: the caller's memory, and the position that is written next.
pub record OutState : Type 0 where
  pub mem : List ℕ
  pub pos : ℕ

-- `bool (*callback)(pb_ostream_t *stream, const pb_byte_t *buf, size_t count)`, which sees and
-- changes `stream->state`.
abbrev pub Writer : Type 0
Writer = OutState → List ℕ → ℕ → Bool × OutState

-- `pb_ostream_t`; a callback that is NULL is `none`.
pub record Ostream : Type 0 where
  pub callback : Option Writer
  pub state : OutState
  pub max_size : ℕ
  pub bytes_written : ℕ
  pub errmsg : Option Errmsg

unfoldable pub buf_write : Writer
buf_write st buf count =
    (true, record { mem = write_at st.mem st.pos (take count buf); pos = st.pos + count })

unfoldable pub ostream_from_buffer : List ℕ → ℕ → Ostream
ostream_from_buffer buf bufsize = record {
  callback = some buf_write;
  state = record { mem = buf; pos = 0 };
  max_size = bufsize;
  bytes_written = 0;
  errmsg = none;
}

-- `PB_OSTREAM_SIZING`: all fields 0.
unfoldable pub ostream_sizing : Ostream
ostream_sizing = record {
  callback = none;
  state = record { mem = []; pos = 0 };
  max_size = 0;
  bytes_written = 0;
  errmsg = none;
}

-- `PB_RETURN_ERROR(stream, msg)`
abbrev pub return_error : Errmsg → Ostream → Bool × Ostream
return_error e s = (false, record s { errmsg = keep_first s.errmsg e })

-- `buf` may be longer than `count`; where it is NULL it is `[]`.
unfoldable pub write : Ostream → List ℕ → ℕ → Bool × Ostream
write s buf count = elim s.callback [
  | none ↦ (true, record s { bytes_written = add_size s.bytes_written count })
  | some call ↦
      if ltb s.max_size (add_size s.bytes_written count)
      then return_error stream_full s
      else let (done, st) = call s.state buf count in
        if done
        then (true, record s { state = st; bytes_written = add_size s.bytes_written count })
        else return_error io_error (record s { state = st })
]

-- An encoder takes the stream last, and stops at the first `false`.
abbrev pub Encoder : Type 0
Encoder = Ostream → Bool × Ostream

infixl 5 ◌>>◌
abbrev pub ◌>>◌ : Encoder → Encoder → Encoder
◌>>◌ m k s = let (done, s') = m s in if done then k s' else (false, s')

-- ===== src/Nanopb/Ostream/Buffer.antt =====
-- `pb_write` on a stream over a buffer, and on one that only counts.
use league_ranker.Prelude.{
  ℕ, ◌+◌, ◌-◌, ◌^◌, ◌≤◌, ◌<◌, ◌≡◌, refl, ◌∙◌, true, none, some, List, ◌++◌, length, take, drop, leb,
  if◌then◌else◌, arith, take-length, length-append,
}
use league_ranker.Nanopb.Types.{stream_full}
use league_ranker.Nanopb.Ostream.{Ostream, Encoder, buf_write, write, return_error}
use league_ranker.Prelude.Memory.{write_at}
use league_ranker.Prelude.Memory.{length-write_at, write_at-append, write_at-eq}

-- A stream over a buffer whose memory holds all that `max_size` still lets it write.
pub record IsBuffer (s : Ostream) : Type 0 where
  pub writes : s.callback ≡ some buf_write
  pub fits : s.bytes_written ≤ s.max_size
  pub room : s.state.pos + (s.max_size - s.bytes_written) ≤ length s.state.mem
  pub small : s.max_size < 2 ^ 63

pub record IsSizing (s : Ostream) : Type 0 where
  pub no_callback : s.callback ≡ none

-- The stream after `bs` was stored.
unfoldable pub emit : List ℕ → Ostream → Ostream
emit bs s = record s {
  state = record { mem = write_at s.state.mem s.state.pos bs; pos = s.state.pos + length bs };
  bytes_written = s.bytes_written + length bs;
}

unfoldable pub counted : ℕ → Ostream → Ostream
counted n s = record s { bytes_written = s.bytes_written + n }

-- Stored where they fit; else "stream full" is reported and nothing is written.
unfoldable pub put : List ℕ → Encoder
put bs s =
    if leb (s.bytes_written + length bs) s.max_size
    then (true, emit bs s)
    else return_error stream_full s

pub write-put :
    (bs : List ℕ) {s : Ostream}
    → IsBuffer s
    → length bs < 2 ^ 63
    → write s bs (length bs) ≡ put bs s
unfolding write put emit buf_write
write-put bs {s} v h = ground (arith, take-length bs)

pub write-counted :
    (bs : List ℕ) (n : ℕ) {s : Ostream}
    → IsSizing s
    → s.bytes_written + n < 2 ^ 64
    → write s bs n ≡ (true, counted n s)
unfolding write counted
write-counted bs n {s} v h = ground arith

pub emit-IsBuffer :
    (bs : List ℕ) {s : Ostream}
    → IsBuffer s
    → s.bytes_written + length bs ≤ s.max_size
    → IsBuffer (emit bs s)
unfolding emit
emit-IsBuffer bs {s} v h = ground (arith, length-write_at s.state.mem s.state.pos bs)

pub put-IsBuffer : (bs : List ℕ) {s : Ostream} → IsBuffer s → IsBuffer (put bs s).1
unfolding put
put-IsBuffer bs {s} v = ground (arith, emit-IsBuffer bs v)

put_fits :
    (bs : List ℕ) (s : Ostream)
    → s.bytes_written + length bs ≤ s.max_size
    → put bs s ≡ (true, emit bs s)
unfolding put
put_fits bs s h = ground arith

pub emit-emit : (xs ys : List ℕ) (s : Ostream) → emit ys (emit xs s) ≡ emit (xs ++ ys) s
unfolding emit
emit-emit xs ys s =
    ground (arith, write_at-append s.state.mem s.state.pos xs ys, length-append xs ys)

pub bytes_written-emit :
    (bs : List ℕ) (s : Ostream) → (emit bs s).bytes_written ≡ s.bytes_written + length bs
unfolding emit
bytes_written-emit bs s = refl

pub max_size-emit : (bs : List ℕ) (s : Ostream) → (emit bs s).max_size ≡ s.max_size
unfolding emit
max_size-emit bs s = refl

-- `pb_write` of bytes that fit stores exactly them at the position of the stream, leaves all other
-- memory as it was, counts them, and keeps the stream within its buffer.
pub write_fits :
    (bs : List ℕ) {s : Ostream}
    → IsBuffer s
    → length bs < 2 ^ 63
    → s.bytes_written + length bs ≤ s.max_size
    → let (done, t) = write s bs (length bs) in
      (done ≡ true)
      × (t.state.mem
          ≡ take s.state.pos s.state.mem ++ (bs ++ drop (s.state.pos + length bs) s.state.mem))
      × (t.bytes_written ≡ s.bytes_written + length bs)
      × IsBuffer t
write_fits bs {s} v h fits = rw (write-put bs v h ∙ put_fits bs s fits) (
  refl,
  unfold emit in write_at-eq s.state.mem s.state.pos bs (omega (arith, v.room)),
  bytes_written-emit bs s,
  emit-IsBuffer bs v fits,
)

-- `pb_write` of bytes that do not fit reports "stream full" and changes nothing else.
pub write_full :
    (bs : List ℕ) {s : Ostream}
    → IsBuffer s
    → length bs < 2 ^ 63
    → s.max_size < s.bytes_written + length bs
    → write s bs (length bs) ≡ return_error stream_full s
write_full bs v h over = write-put bs v h ∙ unfold put in ground arith

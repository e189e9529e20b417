-- ===== src/Nanopb/Message/Submessage.antt =====
-- `pb_encode_submessage`: what it comes to by what its message comes to.
use mathlib.Core.Path.{subst}
use league_ranker.Prelude.{
  ℕ, ◌+◌, ◌%◌, ◌^◌, ◌≤◌, ◌<◌, ◌≡◌, refl, ap, true, false, Option, none, some, List, length, arith,
}
use league_ranker.Nanopb.Types.{Errmsg, stream_full}
use league_ranker.Nanopb.Ostream.{
  Ostream, Encoder, ◌>>◌, write, buf_write, return_error, ostream_sizing,
}
use league_ranker.Nanopb.Ostream.Buffer.{IsBuffer, emit}
use league_ranker.Nanopb.Encode.{encode_varint}
use league_ranker.Nanopb.Message.Values.{submessage_body, encode_submessage}
use league_ranker.Nanopb.Message.Outcome.{
  Outcome, written, failed, delimited, IsCounter, IsClean, Encodes, added, same-Encodes,
  then-Encodes, varint-Encodes, return_error-IsBuffer,
}

abbrev pub submessage_outcome : Outcome → Outcome
submessage_outcome (bs, true) = written (delimited bs)
submessage_outcome (bs, false) = failed

pub sizing-IsCounter : IsCounter ostream_sizing
unfolding ostream_sizing
sizing-IsCounter = record { no_callback = refl; wide = omega arith; clean = refl }

-- The stream of the second pass.
abbrev second : ℕ → Ostream → Ostream
second size s = record {
  callback = some buf_write;
  state = s.state;
  max_size = size;
  bytes_written = 0;
  errmsg = none;
}

second-IsClean :
    (size : ℕ) {s : Ostream}
    → IsBuffer s
    → size < 2 ^ 63
    → s.bytes_written + size ≤ s.max_size
    → IsClean (second size s)
second-IsClean size {s} v small fits = record {
  buffer = record {
    writes = refl;
    fits = omega arith;
    room = omega (arith, v.room, v.fits);
    small = small;
  };
  clean = refl;
}

module _ (e : Encoder) (bs : List ℕ) (h : Encodes e (written bs)) where
  body_counts :
      (s : Ostream)
      → IsCounter s
      → submessage_body e (length bs % 2 ^ 64) s ≡ (true, added (length bs) s)
  unfolding submessage_body write added
  body_counts s v = ground (arith, v.no_callback)

  body_stored :
      length bs < 2 ^ 63
      → (s : Ostream) → IsClean s
      → s.bytes_written + length bs ≤ s.max_size
      → submessage_body e (length bs) s ≡ (true, emit bs s)
  unfolding submessage_body emit
  body_stored small s v fits =
      let passed =
        h.stored small (second (length bs) s) (second-IsClean (length bs) v.buffer small fits)
          (omega arith) in
      ground (arith, v.buffer.writes, v.buffer.small, v.clean, passed)

  body_refused :
      length bs < 2 ^ 63
      → (s : Ostream) → IsClean s
      → s.max_size < s.bytes_written + length bs
      → submessage_body e (length bs) s ≡ return_error stream_full s
  unfolding submessage_body
  body_refused small s v over = ground (arith, v.buffer.writes, v.buffer.small, v.buffer.fits)

  wrapped : length bs < 2 ^ 63 → length bs ≡ length bs % 2 ^ 64
  wrapped small = omega arith

  body-Encodes : Encodes (submessage_body e (length bs % 2 ^ 64)) (written bs)
  body-Encodes = record {
    counts = body_counts;
    stored = λ small s v fits.
        subst (λ n. submessage_body e n s ≡ (true, emit bs s)) (wrapped small)
          (body_stored small s v fits);
    refused = λ small s v over.
        subst (λ n. ((submessage_body e n s).0 ≡ false) × IsBuffer (submessage_body e n s).1)
          (wrapped small)
          (rw (body_refused small s v over) (refl, return_error-IsBuffer stream_full v.buffer));
  }

  counted_bytes : (added (length bs) ostream_sizing).bytes_written ≡ length bs % 2 ^ 64
  unfolding added ostream_sizing
  counted_bytes = omega arith

  sized :
      (s : Ostream)
      → encode_submessage e s
        ≡ (encode_varint (length bs % 2 ^ 64) >> submessage_body e (length bs % 2 ^ 64)) s
  unfolding encode_submessage
  sized s =
      rw (encode_submessage, h.counts ostream_sizing sizing-IsCounter)
        (ap (λ n. (encode_varint n >> submessage_body e n) s) counted_bytes)

errmsg-IsBuffer :
    (m : Option Errmsg) {s : Ostream} → IsBuffer s → IsBuffer (record s { errmsg = m })
errmsg-IsBuffer m v = ground arith

unsized :
    (e : Encoder) (bs : List ℕ)
    → Encodes e (bs, false)
    → (s : Ostream)
    → encode_submessage e s ≡ (false, record s { errmsg = (e ostream_sizing).1.errmsg })
unfolding encode_submessage
unsized e bs h s = rw (h.counts ostream_sizing sizing-IsCounter) refl

-- `pb_encode_submessage` comes to the size of its message and the bytes, if its message comes to
-- these in both passes.
pub submessage-Encodes :
    (e : Encoder) (o : Outcome) → Encodes e o → Encodes (encode_submessage e) (submessage_outcome o)
submessage-Encodes e (bs, true) h = same-Encodes (sized e bs h) (
    then-Encodes (encode_varint (length bs % 2 ^ 64)) (submessage_body e (length bs % 2 ^ 64)) _
      (written bs) (varint-Encodes (length bs % 2 ^ 64) (omega arith)) (body-Encodes e bs h))
submessage-Encodes e (bs, false) h = record {
  counts = λ s v. rw (unsized e bs h s) refl;
  stored = λ _ s v fits. rw (unsized e bs h s) (refl, errmsg-IsBuffer _ v.buffer);
  refused = λ _ s v over. rw (unsized e bs h s) (refl, errmsg-IsBuffer _ v.buffer);
}

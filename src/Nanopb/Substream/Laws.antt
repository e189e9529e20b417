-- ===== src/Nanopb/Substream/Laws.antt =====
-- Laws of the substreams of pb_decode.c.
use mathlib.Core.Path.{subst}
use league_ranker.Prelude.{
  ℕ, ◌-◌, ◌^◌, ◌<◌, ◌≡◌, refl, sym, ◌∙◌, some, List, [], ◌∷◌, ◌++◌, length, arith, length-append,
}
use league_ranker.Nanopb.Istream.{Istream, skip, >>=-some}
use league_ranker.Nanopb.Decode.{decode_varint32}
use league_ranker.Nanopb.Decode.Varint.{Ahead, behind, Ahead-left}
use league_ranker.Nanopb.Decode.Varint32.{decode_varint32-varint}
use league_ranker.Nanopb.Decode.Skip.{skip_lem}
use league_ranker.Nanopb.Encode.Varint.{varint}
use league_ranker.Nanopb.Substream.{cut_substream, make_string_substream, close_string_substream}

-- The substream in front of `bytes`, and the parent that waits at the same place.
abbrev pub opened : List ℕ → List ℕ → Istream → Istream
opened bytes rest s = record s { state = bytes ++ rest; bytes_left = length bytes }

abbrev pub waiting : List ℕ → List ℕ → Istream → Istream
waiting bytes rest s = record s {
  state = bytes ++ rest;
  bytes_left = s.bytes_left - length (varint 9 (length bytes) ++ bytes);
}

pub make_string_substream-varint :
    (bytes rest : List ℕ) {s : Istream}
    → length bytes < 2 ^ 32
    → Ahead (varint 9 (length bytes) ++ bytes) rest s
    → make_string_substream s ≡ (some (opened bytes rest s), waiting bytes rest s)
unfolding make_string_substream
make_string_substream-varint bytes rest {s} h a =
    let n = length bytes in
    >>=-some decode_varint32 cut_substream s
      (decode_varint32-varint n (bytes ++ rest) h (Ahead-left (varint 9 n) bytes rest a))
    ∙ ground (arith, length-append (varint 9 n) bytes)

pub close_string_substream-left :
    (left rest : List ℕ) (sub stream : Istream)
    → Ahead left rest sub
    → sub.bytes_left ≡ length left
    → close_string_substream sub stream
      ≡ (some tt, record stream { state = rest; errmsg = sub.errmsg })
unfolding close_string_substream
close_string_substream-left [] rest sub stream a e = ground arith
close_string_substream-left (b ∷ left) rest sub stream a e = ground (arith, e, skipped)
  where
    skipped : skip sub.bytes_left sub ≡ (some (b ∷ left), behind sub.bytes_left rest sub)
    skipped =
        subst (λ n. skip n sub ≡ (some (b ∷ left), behind n rest sub)) (sym e)
          (skip_lem (b ∷ left) rest a)

-- However much of a substream was read, closing it takes the parent just behind the field: `done`
-- was read, `left` was not.
pub substream_exact :
    (done left rest : List ℕ) (s : Istream)
    → length (done ++ left) < 2 ^ 32
    → Ahead (varint 9 (length (done ++ left)) ++ (done ++ left)) rest s
    → let (sub, parent) = make_string_substream s in
      (sub ≡ some (opened (done ++ left) rest s))
      × (close_string_substream
            (behind (length done) (left ++ rest) (opened (done ++ left) rest s))
            parent
          ≡ (some tt, behind (length (varint 9 (length (done ++ left)) ++ (done ++ left))) rest s))
substream_exact done left rest s h a =
    let all : List ℕ = done ++ left in
    let sub : Istream = opened all rest s in
    rw (make_string_substream-varint all rest h a) (
      refl,
      close_string_substream-left left rest (behind (length done) (left ++ rest) sub)
          (waiting all rest s)
          (record {
            source = a.source;
            holds = refl;
            enough = omega (arith, length-append done left);
            small = omega arith;
          })
          (omega (arith, length-append done left)),
    )

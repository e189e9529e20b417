-- ===== src/Nanopb/Parse/Strings.antt =====
-- A string as the encoder writes it, read back by `pb_dec_string`.
use league_ranker.Prelude.{
  ℕ, ◌+◌, ◌-◌, ◌%◌, ◌^◌, ◌≤◌, ◌<◌, ◌≡◌, ◌∙◌, refl, ap, true, false, Option, some, List, ◌++◌,
  length, get_or, arith, ltb, inl, drop, take-append, drop-append,
}
use league_ranker.Nanopb.Types.{string_overflow}
use league_ranker.Nanopb.Istream.{Istream, Decoder, call}
use league_ranker.Nanopb.Decode.{decode_varint32}
use league_ranker.Nanopb.Decode.Varint.{Ahead, behind, Ahead-left, Ahead-right}
use league_ranker.Nanopb.Decode.Varint32.{decode_varint32-varint}
use league_ranker.Nanopb.Encode.Varint.{varint}
use mathlib.Core.Path.{subst}
use league_ranker.Nanopb.Ostream.{ostream_from_buffer}
use league_ranker.Nanopb.Ostream.Buffer.{emit}
use league_ranker.Nanopb.Encode.{encode_string}
use league_ranker.Nanopb.RoundTrip.{read_back, read_back-Ahead}
use league_ranker.Nanopb.Message.Outcome.{delimited, string-Encodes}
use league_ranker.Nanopb.Message.Refines.Size.{buffer-IsClean}
use league_ranker.Nanopb.Iter.{Field}
use league_ranker.Nanopb.Store.{offset}
use league_ranker.Nanopb.World.{
  World, Libc, Run, ◌>>=◌, pure, return_error, lift, copy, store, store_bytes, bytes_of, read_to,
}
use league_ranker.Nanopb.World.Frame.{store-outside}
use league_ranker.Nanopb.Parse.Values.{room_for, terminated, dec_string}
use league_ranker.Nanopb.Parse.Confined.{IsPlace}

read_to-bytes :
    (bs rest : List ℕ) (dest : ℕ) {s : Istream} (w : World)
    → Ahead bs rest s
    → read_to dest (length bs) s w ≡ (some tt, behind (length bs) rest s, store_bytes bs dest w)
unfolding read_to return_error call
read_to-bytes bs rest dest {s} w a =
    ground (arith, a.source, a.holds, a.enough, a.small, take-append bs rest, drop-append bs rest)

lift-some :
    {A B : Type 0} (m : Decoder A) (k : A → Run B) (s : Istream) (w : World) {a : A} {t : Istream}
    → m s ≡ (some a, t)
    → (lift m >>= k) s w ≡ k a t w
unfolding ◌>>=◌ lift
lift-some m k s w e = rw (e, ◌>>=◌, e) refl

-- The world behind the string.
abbrev with_string : List ℕ → ℕ → World → World
with_string bs dest w = store 1 0 (offset dest (length bs)) (store_bytes bs dest w)

module _ (libc : Libc) (field : Field) (dest : ℕ) (v : IsPlace field dest) (bs rest : List ℕ) where
  own_place :
      (alloc_size : ℕ) (s : Istream) (w : World)
      → alloc_size ≤ field.data_size
      → (room_for libc field dest alloc_size (return_error string_overflow)
            >>= (λ at. terminated at (length bs)))
          s w
        ≡ terminated dest (length bs) s w
  unfolding ◌>>=◌ pure
  own_place alloc_size s w fits = ground (arith, v.static, fits)

  terminated_bytes :
      {s : Istream} (w : World)
      → Ahead bs rest s
      → terminated dest (length bs) s w
        ≡ (some tt, behind (length bs) rest s, with_string bs dest w)
  unfolding terminated
  terminated_bytes w a = rw (read_to-bytes bs rest dest w a) refl

  dec_string-bytes :
      {s : Istream} (w : World)
      → length bs + 1 ≤ field.data_size
      → length bs + 1 < 2 ^ 32
      → Ahead (varint 9 (length bs) ++ bs) rest s
      → dec_string libc field dest s w ≡ (
        some tt,
        behind (length bs) rest (behind (length (varint 9 (length bs))) (bs ++ rest) s),
        with_string bs dest w,
      )
  unfolding dec_string
  dec_string-bytes {s} w fits small a =
      let n = length bs in
      let s₁ = behind (length (varint 9 n)) (bs ++ rest) s in
      let size_read =
        decode_varint32-varint n (bs ++ rest) (omega arith) (Ahead-left (varint 9 n) bs rest a) in
      let no_wrap : ltb ((n + 1) % 2 ^ 32) n ≡ false = ground arith in
      lift-some decode_varint32 _ s w size_read
      ∙ rw no_wrap (
          own_place ((n + 1) % 2 ^ 32) s₁ w (omega arith)
          ∙ terminated_bytes w (Ahead-right (varint 9 n) bs rest a))

  bytes_there :
      (i : ℕ) (w : World) → i < length bs → (store_bytes bs dest w).mem (dest + i) ≡ get_or bs i 0
  unfolding store_bytes copy
  bytes_there i w h =
      let eq : dest + i - dest ≡ i = omega arith in ground (arith, ap (λ j. get_or bs j 0) eq)

  terminator :
      (w : World)
      → length bs + 1 ≤ field.data_size
      → (store 1 0 (offset dest (length bs)) w).mem (dest + length bs) ≡ 0
  unfolding store store_bytes bytes_of copy
  terminator w fits = ground (arith, v.ends)

  text_there :
      (i : ℕ) (w : World)
      → length bs + 1 ≤ field.data_size
      → i < length bs
      → (with_string bs dest w).mem (dest + i) ≡ get_or bs i 0
  text_there i w fits h =
      let ends = v.ends in
      store-outside 1 0 (offset dest (length bs)) (dest + i) (store_bytes bs dest w)
        (inl (omega arith))
      ∙ bytes_there i w h

fits_buffer :
    (bs buf : List ℕ) (size : ℕ)
    → length bs ≤ size
    → (ostream_from_buffer buf size).bytes_written + length bs
      ≤ (ostream_from_buffer buf size).max_size
unfolding ostream_from_buffer
fits_buffer bs buf size h = omega arith

wrapped : (n : ℕ) → n < 2 ^ 32 → n % 2 ^ 64 ≡ n
wrapped n h = omega arith

-- What is read is the string: its bytes, and a zero behind them.
abbrev pub HoldsString : List ℕ → ℕ → Option (Unit {0}) × Istream × World → Type 0
HoldsString bs dest (status, s, w) =
    (status ≡ some tt)
    × ((i : ℕ) → i < length bs → w.mem (dest + i) ≡ get_or bs i 0)
    × (w.mem (dest + length bs) ≡ 0)

read_string :
    (libc : Libc) (field : Field) (dest : ℕ)
    → IsPlace field dest
    → (bs rest : List ℕ) (s : Istream) (w : World) → length bs + 1 ≤ field.data_size
    → length bs + 1 < 2 ^ 32
    → Ahead (varint 9 (length bs) ++ bs) rest s
    → HoldsString bs dest (dec_string libc field dest s w)
read_string libc field dest v bs rest s w fits small a =
    rw (dec_string-bytes libc field dest v bs rest w fits small a) (
      refl,
      λ i h. text_there libc field dest v bs rest i w fits h,
      terminator libc field dest v bs rest (store_bytes bs dest w) fits,
    )

-- `pb_dec_string` reads back what `pb_encode_string` wrote to a buffer with room for it: it stores
-- the bytes in a static field that has room for them and a terminator, and a zero behind them.
pub string_value_round_trip :
    (libc : Libc) (field : Field) (dest : ℕ)
    → IsPlace field dest
    → (bs buf : List ℕ) (size : ℕ) (w : World) → length bs + 1 ≤ field.data_size
    → length bs + 1 < 2 ^ 32
    → size ≤ length buf
    → size < 2 ^ 63
    → length (delimited bs) ≤ size
    → let (written, out) = encode_string bs (length bs) (ostream_from_buffer buf size) in
      (written ≡ true) × HoldsString bs dest (dec_string libc field dest (read_back out) w)
string_value_round_trip libc field dest v bs buf size w fits small held bound room =
    let n = length bs in
    let all = delimited bs in
    let clean = buffer-IsClean buf size bound held in
    let enough = fits_buffer all buf size room in
    let e =
      (string-Encodes bs n refl (omega arith)).stored (omega arith) (ostream_from_buffer buf size)
        clean enough in
    let a =
      subst
        (λ k.
          Ahead (varint 9 k ++ bs) (drop (length all) buf)
            (read_back (emit all (ostream_from_buffer buf size))))
        (wrapped n (omega arith)) (read_back-Ahead all buf size held bound room) in
    rw e (refl, read_string libc field dest v bs (drop (length all) buf) _ w fits small a)

-- ===== src/Base64/Tests.antt =====
-- Runs of the base 64 codec, and its theorems at concrete inputs.
use league_ranker.Prelude.{
  ◌⊎◌, ◌≤◌, ℕ, ◌+◌, ◌≡◌, refl, some, List, [], ◌∷◌, ◌++◌, length, take, drop, replicate, arith,
}
use league_ranker.Prelude.Memory.{write_at}
use league_ranker.Base64.{
  ntop, ntop_from, store4, terminate, pton, pton_from, digit, store, index_in, padding, second_pad,
  last_pad, blank, slopped, minus_one,
}
use league_ranker.Base64.Format.{encoded}
use league_ranker.Base64.Encode.{ntop_fits, ntop_full}
use league_ranker.Base64.Bounds.{behind, pton_in_bounds}
use league_ranker.Base64.RoundTrip.{base64_round_trip}

abbrev four_bytes : List ℕ
four_bytes = 0 ∷ 255 ∷ 128 ∷ 7 ∷ []

abbrev blank_memory : List ℕ
blank_memory = replicate 10 9

-- "AP+ABw==" and a NUL.
four_bytes_stored :
    ntop four_bytes blank_memory 9 ≡ (8, 65 ∷ 80 ∷ 43 ∷ 65 ∷ 66 ∷ 119 ∷ 61 ∷ 61 ∷ 0 ∷ 9 ∷ [])
unfolding ntop ntop_from store4 terminate write_at
four_bytes_stored = refl

-- Spaces are passed over, and four bytes come back.
four_bytes_read :
    pton (65 ∷ 80 ∷ 32 ∷ 43 ∷ 65 ∷ 10 ∷ 66 ∷ 119 ∷ 61 ∷ 32 ∷ 61 ∷ []) (some blank_memory) 5
    ≡ (4, some (0 ∷ 255 ∷ 128 ∷ 7 ∷ 0 ∷ 9 ∷ 9 ∷ 9 ∷ 9 ∷ 9 ∷ []))
unfolding pton pton_from digit store index_in padding second_pad last_pad blank slopped
four_bytes_read = refl

-- A character outside the table, and a group of one digit.
refused : (pton (65 ∷ 33 ∷ []) (some blank_memory) 9).0 ≡ minus_one
unfolding pton pton_from digit store index_in
refused = refl

cut_short : (pton (65 ∷ []) (some blank_memory) 9).0 ≡ minus_one
unfolding pton pton_from digit store index_in
cut_short = refl

ntop_fits_example : ntop four_bytes blank_memory 9 ≡ (
  length (encoded four_bytes),
  encoded four_bytes ++ (0 ∷ drop (length (encoded four_bytes) + 1) blank_memory),
)
ntop_fits_example =
    ntop_fits four_bytes blank_memory 9
      (omega arith, (omega arith, (omega arith, (omega arith, tt)))) (omega arith) (omega arith)
      (unfold encoded in omega arith)

ntop_full_example : (ntop four_bytes blank_memory 8).0 ≡ minus_one
ntop_full_example = ntop_full four_bytes blank_memory 8 (omega arith) (omega arith)

base64_round_trip_example :
    let (n, chars) = ntop four_bytes blank_memory 9 in
    let (m, bytes) = pton (take n chars) (some blank_memory) 5 in
    (m ≡ 4) × ((t : List ℕ) × (bytes ≡ some t) × (take m t ≡ four_bytes))
base64_round_trip_example =
    base64_round_trip four_bytes blank_memory blank_memory 9 5
      (omega arith, (omega arith, (omega arith, (omega arith, tt)))) (omega arith) (omega arith)
      (omega arith) (omega arith) (omega arith) (omega arith)

pton_in_bounds_example :
    let (r, target) = pton (65 ∷ 80 ∷ 43 ∷ 65 ∷ 66 ∷ []) (some blank_memory) 3 in
    (behind 3 target ≡ drop 3 blank_memory) × ((r ≡ minus_one) ⊎ (r ≤ 3))
pton_in_bounds_example = pton_in_bounds (65 ∷ 80 ∷ 43 ∷ 65 ∷ 66 ∷ []) blank_memory 3 (omega arith)

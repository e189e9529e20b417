-- ===== src/Nanopb/Ostream/Writes.antt =====
-- What it means that an encoder writes given bytes, on both kinds of stream, and the rule for
-- encoders in sequence.
use native.Mathlib.Decide.{dec_le}
use league_ranker.Prelude.{
  ℕ, ◌+◌, ◌^◌, ◌≤◌, ◌<◌, ◌≡◌, refl, ap, ◌∙◌, true, false, List, ◌++◌, length, arith, length-append,
}
use league_ranker.Nanopb.Ostream.{Ostream, Encoder, write, ◌>>◌}
use league_ranker.Nanopb.Ostream.Buffer.{
  IsBuffer, IsSizing, emit, counted, put, write-put, write-counted, emit-IsBuffer, put-IsBuffer,
  emit-emit, bytes_written-emit, max_size-emit,
}

-- On a buffer `e` stores `bs` if they fit, and fails, in bounds, if they do not. With no callback
-- it counts them.
pub record Writes (e : Encoder) (bs : List ℕ) : Type 0 where
  pub stored :
      (s : Ostream)
      → IsBuffer s
      → s.bytes_written + length bs ≤ s.max_size
      → e s ≡ (true, emit bs s)
  pub refused :
      (s : Ostream)
      → IsBuffer s
      → s.max_size < s.bytes_written + length bs
      → ((e s).0 ≡ false) × IsBuffer (e s).1
  pub counts :
      (s : Ostream)
      → IsSizing s
      → s.bytes_written + length bs < 2 ^ 64
      → e s ≡ (true, counted (length bs) s)

pub write-Writes : (bs : List ℕ) → length bs < 2 ^ 63 → Writes (λ s. write s bs (length bs)) bs
write-Writes bs h = record {
  stored = λ s v fits. write-put bs v h ∙ unfold put in ground arith;
  refused = λ s v over. rw (write-put bs v h) (unfold put in ground arith, put-IsBuffer bs v);
  counts = λ s v fits. write-counted bs (length bs) v fits;
}

counted-counted : (m n : ℕ) (s : Ostream) → counted n (counted m s) ≡ counted (m + n) s
unfolding counted
counted-counted m n s = ground arith

counted-IsSizing : (n : ℕ) {s : Ostream} → IsSizing s → IsSizing (counted n s)
unfolding counted
counted-IsSizing n v = ground arith

bytes_written-counted : (n : ℕ) (s : Ostream) → (counted n s).bytes_written ≡ s.bytes_written + n
unfolding counted
bytes_written-counted n s = refl

module _ {m k : Encoder} {xs ys : List ℕ} (wm : Writes m xs) (wk : Writes k ys) where
  then_stored :
      (s : Ostream)
      → IsBuffer s
      → s.bytes_written + length (xs ++ ys) ≤ s.max_size
      → (m >> k) s ≡ (true, emit (xs ++ ys) s)
  then_stored s v fits = rw (wm.stored s v (omega (arith, length-append xs ys))) (
      wk.stored (emit xs s) (emit-IsBuffer xs v (omega (arith, length-append xs ys)))
        (omega (arith, length-append xs ys, bytes_written-emit xs s, max_size-emit xs s))
      ∙ ap (λ t. (true, t)) (emit-emit xs ys s))

  then_refused :
      (s : Ostream)
      → IsBuffer s
      → s.max_size < s.bytes_written + length (xs ++ ys)
      → (((m >> k) s).0 ≡ false) × IsBuffer ((m >> k) s).1
  then_refused s v over = elim (dec_le (s.bytes_written + length xs) s.max_size) [
    | yes fits ↦ rw (wm.stored s v fits) (
        wk.refused (emit xs s) (emit-IsBuffer xs v fits)
          (omega (arith, length-append xs ys, bytes_written-emit xs s, max_size-emit xs s)))
    | no short ↦ let (stopped, valid) = wm.refused s v (omega arith) in rw stopped (refl, valid)
  ]

  then_counts :
      (s : Ostream)
      → IsSizing s
      → s.bytes_written + length (xs ++ ys) < 2 ^ 64
      → (m >> k) s ≡ (true, counted (length (xs ++ ys)) s)
  then_counts s v h =
      rw (wm.counts s v (omega (arith, length-append xs ys)), length-append)
        (wk.counts (counted (length xs) s) (counted-IsSizing (length xs) v)
            (omega (arith, length-append xs ys, bytes_written-counted (length xs) s))
          ∙ ap (λ t. (true, t)) (counted-counted (length xs) (length ys) s))

  pub Writes-then : Writes (m >> k) (xs ++ ys)
  Writes-then = record { stored = then_stored; refused = then_refused; counts = then_counts }

-- ===== src/Nanopb/World/Confined.antt =====
-- Functions on a stream and the world that change no memory outside of a region.
use league_ranker.Prelude.{
  ℕ, ◌+◌, ◌≤◌, ◌<◌, ◌≡◌, ◌⊎◌, ◌∙◌, refl, Bool, true, false, Option, none, some, arith, length-take,
  if◌then◌else◌,
}
use league_ranker.Nanopb.Types.{Errmsg}
use league_ranker.Nanopb.Istream.{Istream, Decoder, call}
use league_ranker.Nanopb.Istream.Bounds.{IsInput}
use league_ranker.Nanopb.World.{
  World, Run, ◌>>=◌, pure, return_error, lift, change, copy, store_bytes, store, clear, read_to,
}
use league_ranker.Nanopb.World.Bounds.{Reads, Within-IsInput}
use league_ranker.Nanopb.World.Frame.{store-outside}

-- `m` changes no byte outside of the `n` bytes at `lo`, whatever a buffer holds.
pub record Confined {A : Type 0} (lo n : ℕ) (m : Run A) : Type 0 where
  pub keeps :
      (s : Istream) (w : World)
      → IsInput s
      → (a : ℕ) → (a < lo) ⊎ (lo + n ≤ a)
      → (m s w).2.mem a ≡ w.mem a

module _ (lo n : ℕ) where
  pub pure-Confined : {A : Type 0} (a : A) → Confined lo n (pure a)
  unfolding pure
  pure-Confined a = record { keeps = λ s w v a h. refl }

  pub return_error-Confined : {A : Type 0} (e : Errmsg) → Confined {A = A} lo n (return_error e)
  unfolding return_error
  return_error-Confined e = record { keeps = λ s w v a h. refl }

  pub lift-Confined : {A : Type 0} (m : Decoder A) → Confined lo n (lift m)
  unfolding lift
  lift-Confined m = record { keeps = λ s w v a h. refl }

  -- A store within the region.
  pub store-Confined :
      (size v p : ℕ) → lo ≤ p → p + size ≤ lo + n → Confined lo n (change (store size v p))
  unfolding change
  store-Confined size v p low high = record {
    keeps = λ s w _ a h. store-outside size v p a w (ground (arith, h));
  }

  pub clear-Confined :
      (size p : ℕ) → lo ≤ p → p + size ≤ lo + n → Confined lo n (change (clear size p))
  unfolding change clear copy
  clear-Confined size p low high = record { keeps = λ s w _ a h. ground (arith, h) }

  pub read_to-Confined :
      (dest count : ℕ) → lo ≤ dest → dest + count ≤ lo + n → Confined lo n (read_to dest count)
  unfolding read_to return_error store_bytes copy call
  read_to-Confined dest count low high = record {
    keeps = λ s w v a h. ground (arith, v.source, h, length-take count s.state);
  }

  behind_keeps :
      {A B : Type 0} (r : Option A × Istream × World) (k : A → Run B) (s : Istream) (w : World)
      (a : ℕ)
      → r.2.mem a ≡ w.mem a
      → ((x : A) → (k x r.1 r.2).2.mem a ≡ r.2.mem a)
      → (◌>>=◌ {A = A} {B = B} (λ x y. r) k s w).2.mem a ≡ w.mem a
  unfolding ◌>>=◌
  behind_keeps (none, s', w') k s w a h hk = h
  behind_keeps (some x, s', w') k s w a h hk = hk x ∙ h

  pub >>=-Confined :
      {A B : Type 0} (m : Run A) (k : A → Run B)
      → Reads m
      → Confined lo n m
      → ((x : A) → Confined lo n (k x))
      → Confined lo n (m >>= k)
  unfolding ◌>>=◌
  >>=-Confined m k hr hm hk = record {
    keeps = λ s w v a h.
        behind_keeps (m s w) k s w a (hm.keeps s w v a h)
          (λ x. (hk x).keeps (m s w).1 (m s w).2 (Within-IsInput (hr.moves s w v) v) a h);
  }

  pub either-Confined :
      {A : Type 0} (b : Bool) {m k : Run A}
      → Confined lo n m
      → Confined lo n k
      → Confined lo n (if b then m else k)
  either-Confined true h h' = h
  either-Confined false h h' = h'

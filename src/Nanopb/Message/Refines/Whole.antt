-- ===== src/Nanopb/Message/Refines/Whole.antt =====
-- `pb_encode` and the functions over it against the format.
use mathlib.Core.Path.{subst}
use mathlib.Core.Bool.{false≢true}
use league_ranker.Prelude.{
  ℕ, zero, suc, ◌+◌, ◌≤◌, ◌<◌, ◌≡◌, refl, ap₂, sym, Bool, true, false, List, [], length, arith,
  if◌then◌else◌, inl, inr,
}
use league_ranker.Nanopb.Ostream.{Encoder, ◌>>◌}
use league_ranker.Nanopb.Iter.{Field, FieldIter, field_at, iter_begin, iter_next}
use league_ranker.Nanopb.Iter.Walk.{walk, walk-Stands, next_wraps, begins}
use league_ranker.Nanopb.Message.{Source, encode_at, fields_loop, encode}
use league_ranker.Nanopb.Message.Values.{done}
use league_ranker.Nanopb.Message.Contents.{address}
use league_ranker.Nanopb.Message.Refines.Contents.{walk-address}
use league_ranker.Nanopb.Message.Outcome.{
  Outcome, written, ◌then◌, Encodes, stuck-Encodes, done-Encodes, then-Encodes,
}
use league_ranker.Nanopb.Message.Format.{Users, outcome_at, fields_outcome, message_outcome}
use league_ranker.Nanopb.Message.Refines.Fields.{IsSource, at-Encodes}

module _ (c : Source) (u : Users) (v : IsSource c u) (message : ℕ → ℕ → Encoder)
    (meaning : ℕ → ℕ → Outcome) (hm : (ptr src : ℕ) → Encodes (message ptr src) (meaning ptr src))
    (fuel ptr src : ℕ) where
  abbrev it_at : ℕ → FieldIter
  it_at i = walk (c.fields ptr) src i

  -- What `fields_loop` does behind a field.
  abbrev tail : ℕ → Bool × FieldIter → Encoder
  tail rounds (more, it) = elim more [ true ↦ fields_loop c message fuel rounds it | false ↦ done ]

  round :
      (rounds i : ℕ) (o : Outcome)
      → i < length (c.fields ptr)
      → Encodes (tail rounds (iter_next (it_at i))) o
      → Encodes (fields_loop c message fuel (suc rounds) (it_at i)) (
          outcome_at c.mem c.fields u meaning fuel
            (field_at (c.fields ptr) i)
            (address (c.fields ptr) src i)
          then o)
  unfolding fields_loop
  round rounds i o h rest =
      let it = it_at i in
      let s = walk-Stands (c.fields ptr) src i (v.descriptors ptr) h in
      let here = ap₂ (λ (fs : List Field) k. field_at fs k) s.over s.place in
      subst
        (λ f. Encodes (encode_at c message fuel f it.p_data >> tail rounds (iter_next it)) (
          outcome_at c.mem c.fields u meaning fuel (field_at (c.fields ptr) i)
            (address (c.fields ptr) src i)
          then o))
        (sym here)
        (then-Encodes _ _
          (outcome_at c.mem c.fields u meaning fuel (field_at (c.fields ptr) i)
            (address (c.fields ptr) src i))
          o
          (rw (← walk-address (c.fields ptr) src i (v.descriptors ptr) h) (
            at-Encodes c u v message meaning hm fuel (field_at (c.fields ptr) i) it.p_data
              (v.sizes ptr i)))
          rest)

  tail_end :
      (rounds : ℕ) (r : Bool × FieldIter) → r.0 ≡ false → Encodes (tail rounds r) (written [])
  tail_end rounds (true, it) e = absurd (false≢true (sym e))
  tail_end rounds (false, it) e = done-Encodes

  tail_on :
      (rounds : ℕ) (r : Bool × FieldIter) (o : Outcome)
      → r.0 ≡ true
      → Encodes (fields_loop c message fuel rounds r.1) o
      → Encodes (tail rounds r) o
  tail_on rounds (true, it) o e h = h
  tail_on rounds (false, it) o e h = absurd (false≢true e)

  loop-Encodes :
      (rounds n i : ℕ)
      → i + n ≡ length (c.fields ptr)
      → 0 < n
      → n ≤ rounds
      → Encodes
          (fields_loop c message fuel rounds (it_at i))
          (fields_outcome c.mem c.fields u meaning fuel (c.fields ptr) src n i)
  unfolding fields_outcome walk
  loop-Encodes rounds zero i e pos le = absurd (omega arith)
  loop-Encodes zero (suc n) i e pos le = absurd (omega arith)
  loop-Encodes (suc rounds) (suc zero) i e pos le =
      round rounds i (written []) (omega arith)
        (elim (next_wraps (c.fields ptr) src i (v.descriptors ptr) (omega arith)) [
          | inl (inner, more, _) ↦ absurd (omega arith)
          | inr (last, more, _) ↦ tail_end rounds (iter_next (it_at i)) more
        ])
  loop-Encodes (suc rounds) (suc (suc n)) i e pos le =
      round rounds i _ (omega arith)
        (elim (next_wraps (c.fields ptr) src i (v.descriptors ptr) (omega arith)) [
          | inl (inner, more, _) ↦
              tail_on rounds (iter_next (it_at i)) _ more
                (loop-Encodes rounds (suc n) (suc i) (omega arith) (omega arith) (omega arith))
          | inr (last, more, _) ↦ absurd (omega arith)
        ])

either :
    (b : Bool) (e e' : Encoder) (o : Outcome)
    → (b ≡ true → Encodes e o)
    → (b ≡ false → Encodes e' o)
    → Encodes (if b then e else e') o
either true e e' o h h' = h refl
either false e e' o h h' = h' refl

module _ (c : Source) (u : Users) (v : IsSource c u) (message : ℕ → ℕ → Encoder)
    (meaning : ℕ → ℕ → Outcome) (hm : (ptr src : ℕ) → Encodes (message ptr src) (meaning ptr src))
    (fuel ptr src : ℕ) where
  some-Encodes :
      0 < length (c.fields ptr)
      → Encodes
          (fields_loop c message fuel
            (suc (length (c.fields ptr)))
            (iter_begin (c.fields ptr) src).1)
          (fields_outcome c.mem c.fields u meaning fuel
            (c.fields ptr)
            src
            (length (c.fields ptr))
            0)
  unfolding walk
  some-Encodes pos =
      loop-Encodes c u v message meaning hm fuel ptr src (suc (length (c.fields ptr)))
        (length (c.fields ptr)) 0 (omega arith) pos (omega arith)

  none-Encodes :
      length (c.fields ptr) ≡ 0
      → Encodes done (
          fields_outcome c.mem c.fields u meaning fuel (c.fields ptr) src (length (c.fields ptr)) 0)
  unfolding fields_outcome
  none-Encodes e =
      subst
        (λ n. Encodes done (fields_outcome c.mem c.fields u meaning fuel (c.fields ptr) src n 0))
        (sym e) done-Encodes

  message-Encodes :
      Encodes
        (if (iter_begin (c.fields ptr) src).0
          then fields_loop c message fuel
              (suc (length (c.fields ptr)))
              (iter_begin (c.fields ptr) src).1
          else done)
        (fields_outcome c.mem c.fields u meaning fuel (c.fields ptr) src (length (c.fields ptr)) 0)
  message-Encodes =
      let b = begins (c.fields ptr) src (v.descriptors ptr) in
      either (iter_begin (c.fields ptr) src).0 _ _ _
        (λ some_field. some-Encodes (ground (arith, b, some_field)))
        (λ no_field. none-Encodes (ground (arith, b, no_field)))

pub encode-Encodes :
    (c : Source) (u : Users)
    → IsSource c u
    → (fuel ptr src : ℕ)
    → Encodes (encode c fuel ptr src) (message_outcome c.mem c.fields u fuel ptr src)
unfolding encode message_outcome
encode-Encodes c u v zero ptr src = stuck-Encodes
encode-Encodes c u v (suc fuel) ptr src =
    message-Encodes c u v (encode c fuel) (message_outcome c.mem c.fields u fuel)
      (encode-Encodes c u v fuel) fuel ptr src

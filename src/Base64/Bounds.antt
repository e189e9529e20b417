-- ===== src/Base64/Bounds.antt =====
-- `f_b64_pton` on any characters, and the memory behind its target.
use league_ranker.Prelude.{
  ℕ, zero, suc, ◌+◌, ◌*◌, ◌/◌, ◌%◌, ◌^◌, ◌≡◌, ◌≤◌, ◌<◌, refl, ◌∙◌, true, Option, none, some, List,
  [], ◌∷◌, set, get_or, drop, arith, bit_or, bit_and, ◌==◌, Bool-cases, Option-cases, inl, inr, ◌⊎◌,
}
use league_ranker.Base64.{
  table, pad, is_space, index_in, Pton, store, digit, last_pad, second_pad, padding, pton_from,
  pton, minus_one, assign, or_into,
}

drop-set : (n : ℕ) (xs : List ℕ) (i v : ℕ) → i < n → drop n (set xs i v) ≡ drop n xs
drop-set zero xs i v h = absurd (omega arith)
drop-set (suc n) [] i v h = refl
drop-set (suc n) (x ∷ xs) zero v h = refl
drop-set (suc n) (x ∷ xs) (suc i) v h = drop-set n xs i v (omega arith)

-- The cells of a target from `targsize` on.
abbrev pub behind : ℕ → Option (List ℕ) → List ℕ
behind targsize none = []
behind targsize (some t) = drop targsize t

-- `target[i] |= v; target[i + 1] = w`
behind-two :
    (targsize i v w : ℕ) (t : List ℕ)
    → i + 1 < targsize
    → drop targsize (assign (i + 1) w (or_into i v t)) ≡ drop targsize t
behind-two targsize i v w t h =
    drop-set targsize (or_into i v t) (i + 1) (w % 256) h
    ∙ drop-set targsize t i (bit_or (get_or t i 0) v % 256) (omega arith)

-- A decoder with a target, whose next stores are inside it, and which has left `end` behind it.
record Inside (targsize : ℕ) (end : List ℕ) (p : Pton) : Type 0 where
  present : (p.target ≡ none) → ⊥
  kept : behind targsize p.target ≡ end
  index : p.tarindex ≤ targsize
  open_cell : (p.state ≡ 0) ⊎ (p.tarindex < targsize)

abbrev decoder : Option (List ℕ) → ℕ → ℕ → Pton
decoder target i state = record { target = target; tarindex = i; state = state }

module _ (targsize : ℕ) (end : List ℕ) (small : targsize < 2 ^ 32) where
  digit-behind :
      (v : ℕ) (o : Option (List ℕ)) (i state : ℕ)
      → Inside targsize end (decoder o i state)
      → behind targsize (digit targsize v (decoder o i state)).1.target ≡ end
  unfolding digit store
  digit-behind v none i state s = absurd (s.present refl)
  digit-behind v (some t) i state s = ground (
    arith,
    s.kept,
    s.index,
    s.open_cell,
    drop-set targsize t i (v * 2 ^ 2 % 256),
    drop-set targsize t i (bit_or (get_or t i 0) v % 256),
    behind-two targsize i (v / 2 ^ 4) (bit_and v 0x0f * 2 ^ 4) t,
    behind-two targsize i (v / 2 ^ 2) (bit_and v 0x03 * 2 ^ 6) t,
  )

  digit-Inside :
      (v : ℕ) (o : Option (List ℕ)) (i state : ℕ)
      → Inside targsize end (decoder o i state)
      → (digit targsize v (decoder o i state)).0 ≡ true
      → Inside targsize end (digit targsize v (decoder o i state)).1
  unfolding digit store
  digit-Inside v none i state s go = absurd (s.present refl)
  digit-Inside v (some t) i state s go = record {
    present = ground (arith, go);
    kept = digit-behind v (some t) i state s;
    index = ground (arith, go, s.index, s.open_cell);
    open_cell = ground (arith, go, s.index, s.open_cell);
  }

  -- `end` is still behind the target, and the result is -1 or a number of cells of the target.
  record Safe (r : ℕ × Option (List ℕ)) : Type 0 where
    ends : behind targsize r.1 ≡ end
    result : (r.0 ≡ minus_one) ⊎ (r.0 ≤ targsize)

  last_pad-Safe : (src : List ℕ) (p : Pton) → Inside targsize end p → Safe (last_pad src p)
  unfolding last_pad
  last_pad-Safe src p s = record { ends = ground (arith, s.kept); result = ground (arith, s.index) }

  second_pad-Safe : (src : List ℕ) (p : Pton) → Inside targsize end p → Safe (second_pad src p)
  unfolding second_pad
  second_pad-Safe [] p s = record { ends = s.kept; result = inl refl }
  second_pad-Safe (ch ∷ src) p s =
      let later = second_pad-Safe src p s in
      let last = last_pad-Safe src p s in
      record {
        ends = ground (arith, later.ends, last.ends, s.kept);
        result = ground (arith, later.result, last.result);
      }

  padding-Safe : (src : List ℕ) (p : Pton) → Inside targsize end p → Safe (padding src p)
  unfolding padding
  padding-Safe src p s =
      let second = second_pad-Safe src p s in
      let last = last_pad-Safe src p s in
      record {
        ends = ground (arith, second.ends, last.ends, s.kept);
        result = ground (arith, second.result, last.result);
      }

  pton_from-Safe :
      (src : List ℕ) (p : Pton) → Inside targsize end p → Safe (pton_from src targsize p)
  unfolding pton_from
  pton_from-Safe [] p s = record { ends = s.kept; result = ground (arith, s.index) }
  pton_from-Safe (ch ∷ src) p s = elim (Bool-cases (is_space ch)) [
    | inl space ↦ rw (pton_from, space) (pton_from-Safe src p s)
    | inr visible ↦ elim (Bool-cases (ch == pad)) [
      | inl padded ↦ rw (pton_from, visible, padded) (padding-Safe src p s)
      | inr plain ↦ elim (Option-cases (index_in table ch)) [
        | inl absent ↦
            rw (pton_from, visible, plain, absent) (record { ends = s.kept; result = inl refl })
        | inr (v, found) ↦ elim (Bool-cases (digit targsize v p).0) [
          | inl go ↦
              rw (pton_from, visible, plain, found, go)
                (pton_from-Safe src (digit targsize v p).1
                  (digit-Inside v p.target p.tarindex p.state s go))
          | inr stop ↦
              rw (pton_from, visible, plain, found, stop)
                (record { ends = digit-behind v p.target p.tarindex p.state s; result = inl refl })
        ]
      ]
    ]
  ]

-- Whatever the characters, `f_b64_pton` changes no cell from `targsize` on, and returns -1 or at
-- most `targsize`.
pub pton_in_bounds :
    (src t : List ℕ) (targsize : ℕ)
    → targsize < 2 ^ 32
    → let (r, target) = pton src (some t) targsize in
      (behind targsize target ≡ drop targsize t) × ((r ≡ minus_one) ⊎ (r ≤ targsize))
unfolding pton
pton_in_bounds src t targsize small =
    let safe =
      pton_from-Safe targsize (drop targsize t) small src (decoder (some t) 0 0) (record {
        present = ground arith;
        kept = refl;
        index = omega arith;
        open_cell = inl refl;
      }) in
    (safe.ends, safe.result)

-- ===== src/Nanopb/Message/Refines/Arrays.antt =====
-- The encoders of arrays against the format.
use mathlib.Core.Path.{subst}
use mathlib.Core.Bool.{false≢true}
use native.Mathlib.Nat.{mul-suc, add_comm}
use league_ranker.Prelude.{
  ℕ, zero, suc, ◌+◌, ◌*◌, ◌%◌, ◌^◌, ◌≡◌, refl, ap, sym, ◌∙◌, true, false, Option, none, some, List,
  length, arith, if◌then◌else◌, ◌==◌, length-append, Bool-cases, inl, inr, ==_iff,
}
use league_ranker.Nanopb.Ostream.{Ostream, Encoder, write, buf_write, ostream_sizing}
use league_ranker.Nanopb.Ostream.Buffer.{IsBuffer, emit}
use league_ranker.Nanopb.Encode.{encode_varint}
use league_ranker.Nanopb.Iter.{Field, ltype}
use league_ranker.Nanopb.Store.{offset}
use league_ranker.Nanopb.Message.Values.{array_loop, packed_size, packed_body, packed_from}
use league_ranker.Nanopb.Message.Outcome.{
  Outcome, written, ◌then◌, Encodes, added, varint-Encodes, done-Encodes, stuck-Encodes,
  then-Encodes,
}
use league_ranker.Nanopb.Message.Submessage.{submessage_outcome, sizing-IsCounter}
use league_ranker.Nanopb.Message.Format.{items_outcome}

pub loop-Encodes :
    (func : ℕ → Encoder) (item : ℕ → Outcome)
    → ((p : ℕ) → Encodes (func p) (item p))
    → (count data_size p : ℕ)
    → Encodes (array_loop func count data_size p) (items_outcome item count data_size p)
unfolding array_loop items_outcome
loop-Encodes func item h zero data_size p = done-Encodes
loop-Encodes func item h (suc count) data_size p =
    then-Encodes (func p) (array_loop func count data_size (offset p data_size)) (item p)
      (items_outcome item count data_size (offset p data_size)) (h p)
      (loop-Encodes func item h count data_size (offset p data_size))

-- The size that stands before a packed array with this outcome.
abbrev pub size_of : Outcome → Option ℕ
size_of (bs, true) = some (length bs % 2 ^ 64)
size_of (bs, false) = none

packed_body-writes :
    (elements : Encoder) (size : ℕ) (s : Ostream)
    → s.callback ≡ some buf_write
    → elements s ≡ packed_body elements size s
unfolding packed_body
packed_body-writes elements size s w = ground (arith, w)

module _ (elements : Encoder) (bs : List ℕ) (h : Encodes elements (written bs)) where
  packed_body-Encodes : Encodes (packed_body elements (length bs % 2 ^ 64)) (written bs)
  packed_body-Encodes = record {
    counts = λ s v. unfold packed_body write added in ground (arith, v.no_callback);
    stored = λ small s v fits.
        subst (λ r. r ≡ (true, emit bs s)) (packed_body-writes elements _ s v.buffer.writes)
          (h.stored small s v fits);
    refused = λ small s v over.
        subst (λ r. (r.0 ≡ false) × IsBuffer r.1) (packed_body-writes elements _ s v.buffer.writes)
          (h.refused small s v over);
  }

pub packed-Encodes :
    (elements : Encoder) (o : Outcome)
    → Encodes elements o
    → Encodes (packed_from elements (size_of o)) (submessage_outcome o)
packed-Encodes elements (bs, true) h =
    then-Encodes (encode_varint (length bs % 2 ^ 64)) (packed_body elements (length bs % 2 ^ 64)) _
      (written bs) (varint-Encodes (length bs % 2 ^ 64) (omega arith))
      (packed_body-Encodes elements bs h)
packed-Encodes elements (bs, false) h = stuck-Encodes

size_of-eq : (o : Outcome) (n : ℕ) → o.1 ≡ true → length o.0 ≡ n → some (n % 2 ^ 64) ≡ size_of o
size_of-eq (bs, true) n e l = ap (λ k. some (k % 2 ^ 64)) (sym l)
size_of-eq (bs, false) n e l = absurd (false≢true e)

then_fixed :
    (o p : Outcome) (m n : ℕ)
    → (o.1 ≡ true) × (length o.0 ≡ m)
    → (p.1 ≡ true) × (length p.0 ≡ n)
    → ((o then p).1 ≡ true) × (length (o then p).0 ≡ m + n)
then_fixed (xs, true) (ys, b) m n (e, l) (e', l') = (e', omega (arith, length-append xs ys))
then_fixed (xs, false) p m n (e, l) h = absurd (false≢true e)

-- Elements of `k` bytes each.
items_fixed :
    (item : ℕ → Outcome) (k : ℕ)
    → ((p : ℕ) → ((item p).1 ≡ true) × (length (item p).0 ≡ k))
    → (count data_size p : ℕ)
    → let o = items_outcome item count data_size p in (o.1 ≡ true) × (length o.0 ≡ k * count)
unfolding items_outcome
items_fixed item k h zero data_size p = (refl, omega arith)
items_fixed item k h (suc count) data_size p =
    let (e, l) =
      then_fixed (item p) (items_outcome item count data_size (offset p data_size)) k (k * count)
        (h p) (items_fixed item k h count data_size (offset p data_size)) in
    (e, l ∙ sym (mul-suc k count ∙ add_comm (k * count) k))

-- The sizing pass over the elements finds their size.
sizing_pass :
    (elements : Encoder) (o : Outcome)
    → Encodes elements o
    → let (sized, sub) = elements ostream_sizing in
      (if sized then some sub.bytes_written else none) ≡ size_of o
unfolding added ostream_sizing
sizing_pass elements (bs, true) h =
    rw (h.counts ostream_sizing sizing-IsCounter) (ap (λ (n : ℕ). some n) (omega arith))
sizing_pass elements (bs, false) h = rw (h.counts ostream_sizing sizing-IsCounter) refl

-- Fixed-width fields are not measured: their elements have four or eight bytes.
abbrev pub IsFixed : Field → (ℕ → Outcome) → ℕ → ℕ → Type 0
IsFixed field item t k =
    ltype field.type ≡ t → (p : ℕ) → ((item p).1 ≡ true) × (length (item p).0 ≡ k)

module _ (field : Field) (func : ℕ → Encoder) (item : ℕ → Outcome)
    (h : (p : ℕ) → Encodes (func p) (item p)) where
  pub packed_size-eq :
      (count p : ℕ)
      → IsFixed field item 3 4
      → IsFixed field item 4 8
      → packed_size func field p count ≡ size_of (items_outcome item count field.data_size p)
  unfolding packed_size
  packed_size-eq count p h3 h4 =
      let o = items_outcome item count field.data_size p in
      elim (Bool-cases (ltype field.type == 3)) [
        | inl e ↦
            let (ok, l) = items_fixed item 4 (h3 ((==_iff _ 3).0 e)) count field.data_size p in
            rw e (size_of-eq o (4 * count) ok l)
        | inr ne ↦ elim (Bool-cases (ltype field.type == 4)) [
          | inl e ↦
              let (ok, l) = items_fixed item 8 (h4 ((==_iff _ 4).0 e)) count field.data_size p in
              rw (ne, e) (size_of-eq o (8 * count) ok l)
          | inr ne' ↦
              rw (ne, ne')
                (sizing_pass (array_loop func count field.data_size p) o
                  (loop-Encodes func item h count field.data_size p))
        ]
      ]

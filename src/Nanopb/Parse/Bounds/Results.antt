-- ===== src/Nanopb/Parse/Bounds/Results.antt =====
-- What a function does on a substream and then on its parent stays inside the input buffer.
use league_ranker.Prelude.{Bool, true, false, Option, none, some, if◌then◌else◌, arith}
use league_ranker.Nanopb.Types.{Errmsg, too_many_array_entries}
use league_ranker.Nanopb.Istream.{Istream}
use league_ranker.Nanopb.Substream.{close_string_substream}
use league_ranker.Nanopb.World.{World, Run, return_error}
use league_ranker.Nanopb.World.Bounds.{
  Within, Within-IsInput, Reads, Split, Split-IsInput, Split-Within, Within-trans, close-Within,
  return_error-Reads,
}
use league_ranker.Nanopb.Parse.Fields.{inside}

-- The stream of a result whose status is found last.
pub same_stream :
    {A B : Type 0} (o : Option B) (status : Option A) (whole t : Istream) (w : World)
    → Within whole t
    → Within whole
        (elim o as (λ _. Option A × Istream × World) [
          | none ↦ (none, t, w)
          | some done ↦ (status, t, w)
        ]).1
same_stream none status whole t w h = h
same_stream (some done) status whole t w h = h

module _ (m : Run (Unit {0})) (h : Reads m) (whole s sub : Istream) (w : World)
    (v : Split whole s sub) where
  run : Within sub (m sub w).1
  run = h.moves sub w (Split-IsInput v)

  pub inside-Within : Within whole (inside m sub s w).1
  unfolding inside
  inside-Within =
      same_stream (close_string_substream (m sub w).1 s).0 (m sub w).0 whole
        (close_string_substream (m sub w).1 s).1 (m sub w).2 (close-Within v run)

-- Either of two results.
module _ {A : Type 0} (b : Bool) (x y : Option A × Istream × World) (t : Istream) where
  pub if-Within : Within t x.1 → Within t y.1 → Within t (if b then x else y).1
  if-Within h k = elim b as (λ b. Within t (if b then x else y).1) [ true ↦ h | false ↦ k ]

  pub Bool-Within :
      Within t x.1
      → Within t y.1
      → Within t (elim b as (λ _. Option A × Istream × World) [ true ↦ x | false ↦ y ]).1
  Bool-Within h k =
      elim b
        as (λ b.
          Within t (elim b as (λ _. Option A × Istream × World) [ true ↦ x | false ↦ y ]).1) [
            | true ↦ h
            | false ↦ k
          ]

pub if_run-Within :
    {A : Type 0} (b : Bool) (m n : Run A) (t s : Istream) (w : World)
    → Within t (m s w).1
    → Within t (n s w).1
    → Within t ((if b then m else n) s w).1
if_run-Within true m n t s w h k = h
if_run-Within false m n t s w h k = k

-- An error on the parent of a substream.
pub error-Within :
    (e : Errmsg) (whole s sub : Istream) (w : World)
    → Split whole s sub
    → Within whole (return_error {A = Unit {0}} e s w).1
error-Within e whole s sub w v =
    Within-trans (Split-Within v)
      ((return_error-Reads {A = Unit {0}} e).moves s w (Within-IsInput (Split-Within v) v.input))

pub errmsg-Split :
    (b : Bool) (whole s sub : Istream)
    → Split whole s sub
    → Split whole (if b then record s { errmsg = some too_many_array_entries } else s) sub
errmsg-Split true whole s sub v = ground arith
errmsg-Split false whole s sub v = v

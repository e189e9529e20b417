-- ===== src/Nanopb/Parse/Bounds/Whole.antt =====
-- pb_decode and its variants stay inside the input buffer, if the user's functions do.
use league_ranker.Prelude.{ℕ, zero, suc, Option, none, some}
use league_ranker.Nanopb.Types.{WireType, missing_required_field, wrong_size_for_fixed_count_field}
use league_ranker.Nanopb.Istream.{Istream}
use league_ranker.Nanopb.Istream.Bounds.{IsInput}
use league_ranker.Nanopb.Decode.{TagResult, tag, eof, decode_tag, skip_field}
use league_ranker.Nanopb.Decode as Decode
use league_ranker.Nanopb.Decode.Bounds.{decode_tag_moves, skip_field-InBounds}
use league_ranker.Nanopb.Substream.{make_string_substream}
use league_ranker.Nanopb.Iter.{FieldIter, iter_find}
use league_ranker.Nanopb.World.{World, Run, ◌>>=◌, lift}
use league_ranker.Nanopb.World.Bounds.{
  Within, Within-refl, Within-trans, Within-IsInput, Moved-Within, Reads, pure-Reads, fail-Reads,
  return_error-Reads, look-Reads, lift-Reads, left-Reads, >>=-Reads, if-Reads, Option-Reads,
  substream-Reads,
}
use league_ranker.Nanopb.Parse.Defaults.{message_set_to_defaults}
use league_ranker.Nanopb.Parse.Fields.{Target, inside, decode_field}
use league_ranker.Nanopb.Parse.Whole.{
  Progress, default_extension_decoder, decode_one_extension, decode_extension, skip_unless,
  unknown_field, count_fixed, known_field, after_tag, decode_loop, decode_end, noinit_with,
  decode_with, decode_noinit, decode, decode_delimited_noinit, decode_delimited,
  decode_nullterminated, mark_required,
}
use league_ranker.Nanopb.Parse.Bounds.Values.{reads}
use league_ranker.Nanopb.Parse.Bounds.Fields.{IsTarget, decode_field-Reads}
use league_ranker.Nanopb.Parse.Bounds.Results.{inside-Within, Bool-Within}

module _ (c : Target) (t : IsTarget c) (decode noinit : ℕ → ℕ → Run (Unit {0}))
    (hd : (ptr dest : ℕ) → Reads (decode ptr dest)) (hn : (ptr dest : ℕ) → Reads (noinit ptr dest))
    (fuel : ℕ) where
  field-Reads :
      (wire_type : WireType) (it : FieldIter)
      → Reads (decode_field c decode noinit fuel wire_type it)
  field-Reads = decode_field-Reads c t decode noinit hd hn fuel

  default_extension_decoder-Reads :
      (extension number : ℕ) (wire_type : WireType)
      → Reads (default_extension_decoder c decode noinit fuel extension number wire_type)
  unfolding default_extension_decoder
  default_extension_decoder-Reads extension number wire_type = search (reads, field-Reads) depth 12

  one_extension-Reads :
      (extension number : ℕ) (wire_type : WireType)
      → Reads (decode_one_extension c decode noinit fuel extension number wire_type)
  one_extension-Reads extension number wire_type =
      search (reads, default_extension_decoder-Reads, t.extensions) depth 12

  decode_extension-Reads :
      (rounds extension pos number : ℕ) (wire_type : WireType)
      → Reads (decode_extension c decode noinit fuel rounds extension pos number wire_type)
  unfolding decode_extension
  decode_extension-Reads zero extension pos number wire_type = record {
    moves = λ s w v. Within-refl s;
  }
  decode_extension-Reads (suc rounds) extension pos number wire_type = record {
    moves = λ s w v.
        Bool-Within _ _ _ s
          ((>>=-Reads _ _ (one_extension-Reads extension number wire_type) λ _.
              >>=-Reads _ _ (look-Reads _)
                λ next. decode_extension-Reads rounds next pos number wire_type).moves
            s w v)
          (Within-refl s);
  }

  skip-Reads : (wire_type : WireType) → Reads (lift (skip_field wire_type))
  skip-Reads wire_type = lift-Reads (skip_field wire_type) (skip_field-InBounds wire_type)

  skip_unless-Reads :
      (pos : ℕ) (wire_type : WireType) → Reads (skip_unless c decode noinit fuel pos wire_type)
  unfolding skip_unless
  skip_unless-Reads pos wire_type = search (reads, left-Reads, skip-Reads)

  unknown_field-Reads :
      (p : Progress) (number : ℕ) (wire_type : WireType)
      → Reads (unknown_field c decode noinit fuel p number wire_type)
  unfolding unknown_field
  unknown_field-Reads p number wire_type =
      search (reads, left-Reads, skip-Reads, decode_extension-Reads, skip_unless-Reads) depth 14

  count_fixed-Reads :
      (counter : ℕ) (p : Progress) → Reads (count_fixed c decode noinit fuel counter p)
  unfolding count_fixed
  count_fixed-Reads counter p =
      if-Reads _ (pure-Reads p)
        (Option-Reads p.fixed_count_field (search (reads)) (λ pos. search (reads) depth 12))

  known_field-Reads :
      (counter : ℕ) (p : Progress) (wire_type : WireType)
      → Reads (known_field c decode noinit fuel counter p wire_type)
  unfolding known_field
  known_field-Reads counter p wire_type = >>=-Reads _ _ (count_fixed-Reads counter p) λ p'.
      >>=-Reads _ _ (field-Reads wire_type (mark_required c decode noinit fuel p').it)
        λ it. pure-Reads _

  -- What the loop does with a tag.
  after_tag-Within :
      (rounds counter : ℕ) (p : Progress) (s : Istream) (w : World) (r : TagResult × Istream)
      → ((p : Progress) → Reads (decode_loop c decode noinit fuel rounds counter p))
      → IsInput s
      → Within s r.1
      → Within s
          (after_tag c decode noinit fuel counter
            (decode_loop c decode noinit fuel rounds counter)
            p
            r
            w).1
  unfolding after_tag
  after_tag-Within rounds counter p s w (tag wire_type number, s') h v m =
      let p' = record p { it = (iter_find p.it number).1 } in
      Within-trans m (
        (>>=-Reads _ _
            (if-Reads (iter_find p.it number).0 (known_field-Reads counter p' wire_type)
              (unknown_field-Reads p' number wire_type))
            h).moves
          s' w (Within-IsInput m v))
  after_tag-Within rounds counter p s w (eof, s') h v m = m
  after_tag-Within rounds counter p s w (Decode.fail, s') h v m = m

  decode_loop-Reads :
      (rounds counter : ℕ) (p : Progress)
      → Reads (decode_loop c decode noinit fuel rounds counter p)
  unfolding decode_loop
  decode_loop-Reads zero counter p = record { moves = λ s w v. Within-refl s }
  decode_loop-Reads (suc rounds) counter p = record {
    moves = λ s w v. Bool-Within _ _ _ s (Within-refl s) (
        after_tag-Within rounds counter p s w (decode_tag s) (decode_loop-Reads rounds counter) v
          (Moved-Within (decode_tag_moves s v)));
  }

  decode_end-Reads :
      (counter : ℕ) (p : Progress) → Reads (decode_end c decode noinit fuel counter p)
  unfolding decode_end
  decode_end-Reads counter p = >>=-Reads _ _ (look-Reads _) λ size.
      if-Reads _ (return_error-Reads wrong_size_for_fixed_count_field)
        (if-Reads _ (pure-Reads tt) (return_error-Reads missing_required_field))

  noinit_with-Reads : (ptr dest : ℕ) → Reads (noinit_with c decode noinit fuel ptr dest)
  noinit_with-Reads ptr dest = record {
    moves =
        λ s w v. (>>=-Reads _ _ (decode_loop-Reads _ _ _) λ p. decode_end-Reads _ p).moves s _ v;
  }

-- The release on failure does not touch the stream.
settled :
    (o : Option (Unit {0})) (whole s : Istream) (failed passed : World)
    → Within whole s
    → Within whole
        (elim o as (λ _. Option (Unit {0}) × Istream × World) [
          | none ↦ (none, s, failed)
          | some done ↦ (some done, s, passed)
        ]).1
settled none whole s failed passed h = h
settled (some done) whole s failed passed h = h

decode_with-Reads :
    (c : Target) (fuel : ℕ) (noinit : ℕ → ℕ → Run (Unit {0}))
    → ((ptr dest : ℕ) → Reads (noinit ptr dest))
    → (ptr dest : ℕ) → Reads (decode_with c fuel noinit ptr dest)
unfolding decode_with
decode_with-Reads c fuel noinit h ptr dest = record {
  moves = λ s w v.
      settled _ s _ _ _ ((h ptr dest).moves s (message_set_to_defaults c.fields fuel ptr dest w) v);
}

decode_noinit-Reads :
    (c : Target) → IsTarget c → (fuel ptr dest : ℕ) → Reads (decode_noinit c fuel ptr dest)
unfolding decode_noinit
decode_noinit-Reads c t zero ptr dest = fail-Reads
decode_noinit-Reads c t (suc fuel) ptr dest =
    noinit_with-Reads c t (decode_with c fuel (decode_noinit c fuel)) (decode_noinit c fuel)
      (decode_with-Reads c fuel (decode_noinit c fuel) (decode_noinit-Reads c t fuel))
      (decode_noinit-Reads c t fuel) fuel ptr dest

decode-Reads : (c : Target) → IsTarget c → (fuel ptr dest : ℕ) → Reads (decode c fuel ptr dest)
unfolding decode
decode-Reads c t fuel =
    decode_with-Reads c fuel (decode_noinit c fuel) (decode_noinit-Reads c t fuel)

delimited-Reads : (m : Run (Unit {0})) → Reads m → Reads (lift make_string_substream >>= inside m)
delimited-Reads m h = substream-Reads (inside m) (inside-Within m h)

-- Whatever bytes a buffer holds, and whatever the memory holds, `pb_decode`, `pb_decode_noinit`,
-- their variants for delimited messages and `pb_decode_nullterminated` do not read past the end of
-- the buffer: the stream's position goes on by no more than `bytes_left` goes down, if that is so for
-- the user's functions.
pub message_decoders_in_bounds :
    (c : Target)
    → IsTarget c
    → (fuel ptr dest : ℕ)
    → Reads (decode c fuel ptr dest)
      × Reads (decode_noinit c fuel ptr dest)
      × Reads (decode_delimited c fuel ptr dest)
      × Reads (decode_delimited_noinit c fuel ptr dest)
      × Reads (decode_nullterminated c fuel ptr dest)
unfolding decode_delimited decode_delimited_noinit decode_nullterminated
message_decoders_in_bounds c t fuel ptr dest = (
  decode-Reads c t fuel ptr dest,
  decode_noinit-Reads c t fuel ptr dest,
  delimited-Reads (decode c fuel ptr dest) (decode-Reads c t fuel ptr dest),
  delimited-Reads (decode_noinit c fuel ptr dest) (decode_noinit-Reads c t fuel ptr dest),
  decode-Reads c t fuel ptr dest,
)

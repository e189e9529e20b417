-- ===== src/Nanopb/Parse/Whole.antt =====
-- ScoreSender/Pods/nanopb/pb_decode.c: extensions, and pb_decode with its variants.
use league_ranker.Prelude.{
  ℕ, zero, suc, ◌+◌, ◌-◌, ◌/◌, ◌%◌, ◌^◌, bit_or, Bool, true, false, not, ◌&&◌, ◌||◌, Option, none,
  some, ltb, ◌==◌, if◌then◌else◌, length,
}
use league_ranker.Nanopb.Types.{WireType, missing_required_field, wrong_size_for_fixed_count_field}
use league_ranker.Nanopb.Istream.{Istream}
use league_ranker.Nanopb.Decode.{skip_field, TagResult, tag, eof, fail, decode_tag}
use league_ranker.Nanopb.Substream.{make_string_substream}
use league_ranker.Nanopb.Iter.{FieldIter, htype, ltype, iter_begin, iter_next, iter_find}
use league_ranker.Nanopb.Store.{pointer_at, size_at, extension_next, extension_found, type_arg}
use league_ranker.Nanopb.Iter.{field_at}
use league_ranker.Nanopb.World as World
use league_ranker.Nanopb.World.{
  World, Run, ◌>>=◌, pure, return_error, lift, look, change, left, set_bool, set_size,
}
use league_ranker.Nanopb.Parse.Defaults.{field_of, iter_from_extension, message_set_to_defaults}
use league_ranker.Nanopb.Parse.Release.{release}
use league_ranker.Nanopb.Parse.Fields.{Target, inside, decode_field}

-- The loop of `find_extension_field`, back at its start after as many rounds as there are fields.
unfoldable pub extension_search : ℕ → ℕ → FieldIter → Bool × FieldIter
extension_search zero start it = (false, it)
extension_search (suc rounds) start it = elim (ltype (field_of it).type == 8) [
  | true ↦ (true, it)
  | false ↦
      let (_, it') = iter_next it in
      elim (it'.pos == start) [ true ↦ (false, it') | false ↦ extension_search rounds start it' ]
]

unfoldable pub find_extension_field : FieldIter → Bool × FieldIter
unfolding extension_search
find_extension_field it = extension_search (suc (length it.start)) it.pos it

-- The local variables of `pb_decode_noinit`: the iterator, `extension_range_start`, the position of
-- `fixed_count_field`, and the words of `fields_seen`.
pub record Progress : Type 0 where
  pub it : FieldIter
  pub extension_range_start : ℕ
  pub fixed_count_field : Option ℕ
  pub fields_seen : ℕ → ℕ

-- `fields_seen[index >> 5] |= 1 << (index & 31)`
unfoldable pub see : ℕ → (ℕ → ℕ) → ℕ → ℕ
see index seen i = if i == index / 32 then bit_or (seen i) (2 ^ (index % 32)) else seen i

-- `fields_seen[i] != allbits` for whole words, and the rest of the last word.
unfoldable pub words_seen : ℕ → (ℕ → ℕ) → Bool
words_seen zero seen = true
words_seen (suc i) seen = words_seen i seen && (seen i == 2 ^ 32 - 1)

unfoldable pub all_seen : ℕ → (ℕ → ℕ) → Bool
unfolding words_seen
all_seen req_field_count seen =
    words_seen (req_field_count / 32) seen
    && ((req_field_count % 32 == 0)
        || (seen (req_field_count / 32) == (2 ^ 32 - 1) / 2 ^ (32 - req_field_count % 32)))

-- The loop to the end of the fields: the index and the type of the last one, and where the iterator
-- is then.
unfoldable pub last_fields : ℕ → FieldIter → ℕ × ℕ × FieldIter
last_fields zero it = (it.required_field_index, (field_of it).type, it)
last_fields (suc rounds) it =
    let (more, it') = iter_next it in
    elim more [
      | true ↦ last_fields rounds it'
      | false ↦ (it.required_field_index, (field_of it).type, it')
    ]

-- `req_field_count`, no more than PB_MAX_REQUIRED_FIELDS.
unfoldable pub required_fields : FieldIter → ℕ
unfolding last_fields
required_fields it =
    let (index, last_type, it') = last_fields (suc (length it.start)) it in
    let count =
      if (htype last_type == 0x00) && not ((field_of it').tag == 0)
      then (index + 1) % 2 ^ 32
      else index in
    if ltb 64 count then 64 else count

module _ (c : Target) where
  module _ (decode noinit : ℕ → ℕ → Run (Unit {0})) (fuel : ℕ) where
    unfoldable pub default_extension_decoder : ℕ → ℕ → WireType → Run (Unit {0})
    unfolding decode_field
    default_extension_decoder extension number wire_type =
        look (λ w. field_at (c.fields (pointer_at w.mem (type_arg (pointer_at w.mem extension)))) 0)
        >>= λ field.
            if not (field.tag == number)
            then pure tt
            else (look (λ w. iter_from_extension c.fields w.mem extension) >>= λ it.
                change (set_bool true (extension_found extension)) >>= λ _.
                decode_field c decode noinit fuel wire_type it >>= λ _. pure tt)

    abbrev pub decode_one_extension : ℕ → ℕ → WireType → Run (Unit {0})
    decode_one_extension extension number wire_type =
        look (λ w. pointer_at w.mem (pointer_at w.mem extension)) >>= λ decode.
        if decode == 0
        then default_extension_decoder extension number wire_type
        else c.extension decode extension number wire_type

    -- `while (extension != NULL && pos == stream->bytes_left)`
    unfoldable pub decode_extension : ℕ → ℕ → ℕ → ℕ → WireType → Run (Unit {0})
    unfolding default_extension_decoder
    decode_extension zero extension pos number wire_type s w = (none, s, w)
    decode_extension (suc rounds) extension pos number wire_type s w =
        elim (not (extension == 0) && (pos == s.bytes_left)) [
          | true ↦
              (decode_one_extension extension number wire_type >>= λ _.
              look (λ w. pointer_at w.mem (extension_next extension)) >>= λ next.
              decode_extension rounds next pos number wire_type)
                s w
          | false ↦ (some tt, s, w)
        ]

    -- `No match found`: an extension, or the data are skipped.
    unfoldable pub skip_unless : ℕ → WireType → Run (Unit {0})
    skip_unless pos wire_type =
        left >>= λ now. if not (pos == now) then pure tt else lift (skip_field wire_type)

    unfoldable pub unknown_field : Progress → ℕ → WireType → Run Progress
    unfolding decode_extension find_extension_field skip_unless
    unknown_field p number wire_type =
        if ltb number p.extension_range_start
        then (lift (skip_field wire_type) >>= λ _. pure p)
        else let (found, it) = find_extension_field p.it in
          let start = if found then (field_of it).tag else 2 ^ 32 - 1 in
          let p' = record p { it = it; extension_range_start = start } in
          if ltb number start
          then (lift (skip_field wire_type) >>= λ _. pure p')
          else (look (λ w. pointer_at w.mem it.p_data) >>= λ extension. left >>= λ pos.
              decode_extension (suc fuel) extension pos number wire_type >>= λ _.
              skip_unless pos wire_type >>= λ _. pure p')

    -- The count of an array of fixed count is kept in the local `fixed_count_size`, at `counter`.
    unfoldable pub count_fixed : ℕ → Progress → Run Progress
    count_fixed counter p =
        let field = field_of p.it in
        let p' = record p { it = record p.it { p_size = counter } } in
        if not ((htype field.type == 0x20) && (p.it.p_size == p.it.p_data))
        then pure p
        else elim p.fixed_count_field [
          | none ↦ change (set_size 0 counter) >>= λ _.
              pure (record p' { fixed_count_field = some p.it.pos })
          | some pos ↦ look (λ w. size_at w.mem counter) >>= λ size.
              if pos == p.it.pos
              then pure p'
              else if not (size == (field_at p.it.start pos).array_size)
              then return_error wrong_size_for_fixed_count_field
              else (change (set_size 0 counter) >>= λ _.
                  pure (record p' { fixed_count_field = some p.it.pos }))
        ]

    abbrev pub mark_required : Progress → Progress
    mark_required p =
        if (htype (field_of p.it).type == 0x00) && ltb p.it.required_field_index 64
        then record p { fields_seen = see p.it.required_field_index p.fields_seen }
        else p

    unfoldable pub known_field : ℕ → Progress → WireType → Run Progress
    unfolding count_fixed see decode_field
    known_field counter p₀ wire_type = count_fixed counter p₀ >>= λ p₁.
        let p = mark_required p₁ in
        decode_field c decode noinit fuel wire_type p.it >>= λ it. pure (record p { it = it })

    -- A round of the loop behind its `pb_decode_tag`, and the rounds after it.
    unfoldable pub after_tag :
        ℕ
        → (Progress → Run Progress)
        → Progress
        → TagResult × Istream
        → World
        → Option Progress × Istream × World
    unfolding unknown_field known_field
    after_tag counter next p (tag wire_type number, s) w =
        let (found, it) = iter_find p.it number in
        let p' = record p { it = it } in
        ((if found then known_field counter p' wire_type else unknown_field p' number wire_type)
            >>= next)
          s w
    after_tag counter next p (eof, s) w = (some p, s, w)
    after_tag counter next p (fail, s) w = (none, s, w)

    -- `while (stream->bytes_left)`, a round of which takes a tag at least.
    unfoldable pub decode_loop : ℕ → ℕ → Progress → Run Progress
    unfolding after_tag
    decode_loop zero counter p s w = (none, s, w)
    decode_loop (suc rounds) counter p s w = elim (s.bytes_left == 0) [
      | true ↦ (some p, s, w)
      | false ↦ after_tag counter (decode_loop rounds counter) p (decode_tag s) w
    ]

    -- The checks behind the loop.
    unfoldable pub decode_end : ℕ → Progress → Run (Unit {0})
    unfolding all_seen required_fields
    decode_end counter p = look (λ w. size_at w.mem counter) >>= λ size.
        let right_size = elim p.fixed_count_field as (λ _. Bool) [
          | none ↦ true
          | some pos ↦ size == (field_at p.it.start pos).array_size
        ] in
        let required = required_fields p.it in
        if not right_size
        then return_error wrong_size_for_fixed_count_field
        else if all_seen required p.fields_seen
        then pure tt
        else return_error missing_required_field

    abbrev pub noinit_with : ℕ → ℕ → Run (Unit {0})
    noinit_with ptr dest s w =
        let counter = c.counter fuel in
        let (_, it) = iter_begin (c.fields ptr) dest in
        (decode_loop (suc s.bytes_left) counter (record {
          it = it;
          extension_range_start = 0;
          fixed_count_field = none;
          fields_seen = λ i. 0;
        })
            >>= decode_end counter)
          s (set_size 0 counter w)

  -- `pb_decode` over `pb_decode_noinit`: on failure everything is released.
  unfoldable pub decode_with : ℕ → (ℕ → ℕ → Run (Unit {0})) → ℕ → ℕ → Run (Unit {0})
  decode_with fuel noinit ptr dest s w =
      let (status, s', w') = noinit ptr dest s (message_set_to_defaults c.fields fuel ptr dest w) in
      elim status [
        | none ↦ (none, s', release c.libc c.fields fuel ptr dest w')
        | some done ↦ (some done, s', w')
      ]

  -- `fuel` bounds the nesting of messages, and the chains of extensions.
  unfoldable pub decode_noinit : ℕ → ℕ → ℕ → Run (Unit {0})
  unfolding decode_loop decode_end decode_with
  decode_noinit zero ptr dest = World.fail
  decode_noinit (suc fuel) ptr dest =
      noinit_with (decode_with fuel (decode_noinit fuel)) (decode_noinit fuel) fuel ptr dest

  unfoldable pub decode : ℕ → ℕ → ℕ → Run (Unit {0})
  unfolding decode_noinit decode_with
  decode fuel ptr dest = decode_with fuel (decode_noinit fuel) ptr dest

  unfoldable pub decode_delimited_noinit : ℕ → ℕ → ℕ → Run (Unit {0})
  unfolding decode_noinit inside
  decode_delimited_noinit fuel ptr dest =
      lift make_string_substream >>= inside (decode_noinit fuel ptr dest)

  unfoldable pub decode_delimited : ℕ → ℕ → ℕ → Run (Unit {0})
  unfolding decode inside
  decode_delimited fuel ptr dest = lift make_string_substream >>= inside (decode fuel ptr dest)

  unfoldable pub decode_nullterminated : ℕ → ℕ → ℕ → Run (Unit {0})
  unfolding decode
  decode_nullterminated fuel ptr dest = decode fuel ptr dest

-- ===== src/League/Games/RoundTrip.antt =====
-- A game written to the database and read back.
use mathlib.Core.List.Permᴰ
use league_ranker.Prelude.{
  ◌≡◌, ◌≢◌, refl, ◌⊎◌, inl, inr, false, List, [], ◌∷◌, none, some, arith, map, All, get_elem?,
}
use league_ranker.Swift.Int.{ℤ, pos}
use league_ranker.Swift.Order.{All-rearranged}
use league_ranker.Swift.Dictionary.{Hashable, IsEquality, Dictionary, get, put}
use league_ranker.Swift.Entries.{flip}
use league_ranker.Swift.Sorting.{Standard, IsStandard}
use league_ranker.League.Games.{
  Keys, Game, Entry, text, number, names, Reading, read_entry, read_entries, new_reading,
  from_dictionary, to_any_object,
}
use league_ranker.League.Games.Parts.{Part, team, inputter, date, apply, apply_all, four_parts}

-- A number's description reads back as the number, and "inputter" and "date" are no numbers.
pub record IsKeys {S : Type 0} ⦃h : Hashable S⦄ (keys : Keys S) : Type 0 where
  pub read_back : (n : ℤ) → keys.int_of (keys.description n) ≡ some n
  pub inputter_no_number : keys.int_of keys.inputter ≡ none
  pub date_no_number : keys.int_of keys.date ≡ none
  pub two_keys : h.same keys.inputter keys.date ≡ false

-- The game with the teams and their scores exchanged.
abbrev pub exchanged : {U S : Type 0} → U → List S → List S → ℤ → ℤ → S → ℤ → Game U S
exchanged id team1 team2 n m i day = record {
  id = id;
  team1 = team2;
  team2 = team1;
  scores = m ∷ n ∷ [];
  date = day;
  inputter = i;
}

abbrev pub game_of : {U S : Type 0} → U → List S → List S → ℤ → ℤ → S → ℤ → Game U S
game_of id team1 team2 n m i day = record {
  id = id;
  team1 = team1;
  team2 = team2;
  scores = n ∷ m ∷ [];
  date = day;
  inputter = i;
}

module _ {S : Type 0} ⦃h : Hashable S⦄ (keys : Keys S) where
  -- What an entry says, where it is one of those that a game is written with.
  part_of : S × Entry S → Part S
  part_of (key, text s) = inputter s
  part_of (key, number n) = date n
  part_of (key, names (a ∷ b ∷ xs)) = elim (keys.int_of key) [
    | none ↦ date (pos 0)
    | some n ↦ team n a b
  ]
  part_of (key, names xs) = date (pos 0)

  abbrev Reads : S × Entry S → Type 0
  Reads entry = (r : Reading S) → read_entry keys r entry ≡ some (apply r (part_of entry))

  read_entries-apply_all :
      (entries : List (S × Entry S)) (r : Reading S)
      → All Reads entries
      → read_entries keys entries r ≡ some (apply_all r (map part_of entries))
  unfolding read_entries
  read_entries-apply_all [] r every = refl
  read_entries-apply_all (entry ∷ entries) r every =
      rw (every.0 r) (read_entries-apply_all entries (apply r (part_of entry)) every.1)

  abbrev pub written : (a b c f i : S) (n m day : ℤ) → Dictionary S (Entry S)
  written a b c f i n m day =
      (keys.description n, names (a ∷ b ∷ []))
      ∷ (keys.description m, names (c ∷ f ∷ []))
      ∷ (keys.inputter, text i)
      ∷ (keys.date, number day)
      ∷ []

  module _ (e : IsEquality S) (laws : IsKeys keys) where
    not_inputter : (n : ℤ) → h.same (keys.description n) keys.inputter ≡ false
    not_inputter n = ground (
      arith,
      e.same_iff (keys.description n) keys.inputter,
      laws.read_back n,
      laws.inputter_no_number,
    )

    not_date : (n : ℤ) → h.same (keys.description n) keys.date ≡ false
    not_date n =
        ground
          (arith, e.same_iff (keys.description n) keys.date, laws.read_back n, laws.date_no_number)

    different : (n m : ℤ) → n ≢ m → h.same (keys.description n) (keys.description m) ≡ false
    different n m apart = ground (
      arith,
      e.same_iff (keys.description n) (keys.description m),
      laws.read_back n,
      laws.read_back m,
    )

    written-Reads : (a b c f i : S) (n m day : ℤ) → All Reads (written a b c f i n m day)
    unfolding read_entry part_of
    written-Reads a b c f i n m day = (
      λ r. rw (not_inputter n, not_date n, laws.read_back n, part_of) refl,
      (
        λ r. rw (not_inputter m, not_date m, laws.read_back m, part_of) refl,
        (
          λ r. rw ((e.same_iff keys.inputter keys.inputter).1 refl) refl,
          (
            λ r.
                rw
                  (
                    flip e keys.inputter keys.date laws.two_keys,
                    (e.same_iff keys.date keys.date).1 refl,
                  )
                  refl,
            tt,
          ),
        ),
      ),
    )

    pub to_any_object_lem :
        {U : Type 0} (id : U) (a b c f i : S) (n m day : ℤ)
        → n ≢ m
        → to_any_object keys (game_of id (a ∷ b ∷ []) (c ∷ f ∷ []) n m i day)
          ≡ some (written a b c f i n m day)
    unfolding to_any_object get put
    to_any_object_lem id a b c f i n m day apart =
        ground (arith, different n m apart, not_inputter n, not_inputter m, not_date n, not_date m)

    from_written :
        {U : Type 0} (standard : Standard) (standards : IsStandard standard) (id : U)
        (a b c f i : S) (n m day : ℤ)
        → (from_dictionary standard keys (written a b c f i n m day) id
            ≡ some (game_of id (a ∷ b ∷ []) (c ∷ f ∷ []) n m i day))
          ⊎ (from_dictionary standard keys (written a b c f i n m day) id
              ≡ some (exchanged id (a ∷ b ∷ []) (c ∷ f ∷ []) n m i day))
    unfolding from_dictionary new_reading part_of
    from_written standard standards id a b c f i n m day =
        let dict = written a b c f i n m day in
        let entries = standard.entries S (Entry S) dict in
        let perm = standards.entries_all S (Entry S) dict in
        let every = All-rearranged Reads (Permᴰ.symm perm) (written-Reads a b c f i n m day) in
        let reads = read_entries-apply_all entries (new_reading keys) every in
        let parts = rw (laws.read_back n, laws.read_back m, part_of) at (Permᴰ.map part_of perm) in
        elim (four_parts (new_reading keys) n m a b c f i day refl refl parts) [
          | inl kept ↦ inl (rw (reads, kept) refl)
          | inr turned ↦ inr (rw (reads, turned) refl)
        ]

    -- A game of two against two with different scores is written without a trap, and whatever the order
    -- in which its dictionary is read, it comes back as it was but that the teams may be exchanged, each
    -- with its score.
    pub game_round_trip :
        {U : Type 0} (standard : Standard) (standards : IsStandard standard) (id : U)
        (a b c f i : S) (n m day : ℤ)
        → n ≢ m
        → (dict : Dictionary S (Entry S)) × (to_any_object keys
              (game_of id (a ∷ b ∷ []) (c ∷ f ∷ []) n m i day)
            ≡ some dict)
          × ((from_dictionary standard keys dict id
                ≡ some (game_of id (a ∷ b ∷ []) (c ∷ f ∷ []) n m i day))
              ⊎ (from_dictionary standard keys dict id
                  ≡ some (exchanged id (a ∷ b ∷ []) (c ∷ f ∷ []) n m i day)))
    game_round_trip standard standards id a b c f i n m day apart = (
      written a b c f i n m day,
      to_any_object_lem id a b c f i n m day apart,
      from_written standard standards id a b c f i n m day,
    )

    -- Every game of equal scores traps when it is written: its two teams have one key.
    pub equal_scores_trap :
        {U : Type 0} (g : Game U S) (n : ℤ)
        → get_elem? g.scores 0 ≡ some n
        → get_elem? g.scores 1 ≡ some n
        → to_any_object keys g ≡ none
    unfolding to_any_object get put
    equal_scores_trap g n first second =
        ground (arith, e.same_iff (keys.description n) (keys.description n))

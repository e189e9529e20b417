-- ===== src/TrueSkill/RankSorter/Ranked.antt =====
-- What RankSorter.Sort gives, on both of its branches.
use mathlib.Core.List.{Permᴰ}
use mathlib.Core.List.Permᴰ
use league_ranker.Prelude.{
  ◌≡◌, refl, ap, false, List, [], ◌∷◌, ◌++◌, some, map, arith, append_assoc, append-nil, length,
  All, All-append, Bool-cases, inl, inr,
}
use league_ranker.Swift.Int.{ℤ, pos, ltb_ℤ}
use league_ranker.Swift.Order.{IsStrictWeak, IsOrdered}
use league_ranker.Swift.Dictionary.{Hashable, Dictionary, put}
use league_ranker.Swift.Sorting.{Standard, IsStandard}
use league_ranker.TrueSkill.RankSorter.{needs_sort, team_of, rank_of, by_rank, item_to_rank, sort}

-- A team beside its rank.
abbrev pub zip : {T : Type 0} → List T → List ℤ → List (T × ℤ)
zip [] ranks = []
zip (team ∷ teams) [] = []
zip (team ∷ teams) (rank ∷ ranks) = (team, rank) ∷ zip teams ranks

abbrev Any : {T : Type 0} → T → Type 0
Any entry = Unit

ltb_ℤ-IsStrictWeak : {T : Type 0} → IsStrictWeak {A = T × ℤ} Any by_rank
ltb_ℤ-IsStrictWeak = record {
  asymmetric = λ a b _ _ h. ground arith;
  chains = λ a b c _ _ _ h k. ground arith;
}

above-All :
    (low rank : ℤ) (ranks : List ℤ)
    → ltb_ℤ rank low ≡ false
    → All (λ r. ltb_ℤ r rank ≡ false) ranks
    → All (λ r. ltb_ℤ r low ≡ false) ranks
above-All low rank [] h hs = tt
above-All low rank (r ∷ ranks) h hs = (ground arith, above-All low rank ranks h hs.1)

-- Where the loop finds no rank below the one before it, the ranks ascend.
ascending :
    (last : ℤ) (ranks : List ℤ)
    → needs_sort last ranks ≡ false
    → All (λ rank. ltb_ℤ rank last ≡ false) ranks × IsOrdered ltb_ℤ ranks
unfolding needs_sort
ascending last [] h = (tt, tt)
ascending last (rank ∷ ranks) h =
    let here : ltb_ℤ rank last ≡ false = ground arith in
    let rest = ascending rank ranks (ground arith) in
    ((here, above-All last rank ranks here rest.0), (rest.0, rest.1))

module _ {T : Type 0} where
  each_ranked :
      (P : ℤ → Type 0) (teams : List T) (ranks : List ℤ)
      → All P ranks
      → All (λ e. P (rank_of e)) (zip teams ranks)
  each_ranked P [] ranks h = tt
  each_ranked P (team ∷ teams) [] h = tt
  each_ranked P (team ∷ teams) (rank ∷ ranks) h = (h.0, each_ranked P teams ranks h.1)

  zip-IsOrdered :
      (teams : List T) (ranks : List ℤ)
      → IsOrdered ltb_ℤ ranks
      → IsOrdered by_rank (zip teams ranks)
  zip-IsOrdered [] ranks h = tt
  zip-IsOrdered (team ∷ teams) [] h = tt
  zip-IsOrdered (team ∷ teams) (rank ∷ ranks) h =
      (each_ranked (λ r. ltb_ℤ r rank ≡ false) teams ranks h.0, zip-IsOrdered teams ranks h.1)

  unzip :
      (teams : List T) (ranks : List ℤ)
      → length teams ≡ length ranks
      → (map team_of (zip teams ranks) ≡ teams) × (map rank_of (zip teams ranks) ≡ ranks)
  unzip [] [] h = (refl, refl)
  unzip [] (rank ∷ ranks) h = absurd (omega arith)
  unzip (team ∷ teams) [] h = absurd (omega arith)
  unzip (team ∷ teams) (rank ∷ ranks) h =
      let rest = unzip teams ranks (omega arith) in
      (ap (λ t. team ∷ t) rest.0, ap (λ t. rank ∷ t) rest.1)

  anything : (entries : List (T × ℤ)) → All Any entries
  anything [] = tt
  anything (e ∷ entries) = (tt, anything entries)

module _ {T : Type 0} ⦃h : Hashable T⦄ where
  -- No two teams are equal.
  abbrev pub IsDistinct : List T → Type 0
  IsDistinct [] = Unit
  IsDistinct (team ∷ teams) = All (λ other. h.same team other ≡ false) teams × IsDistinct teams

  abbrev IsNew : Dictionary T ℤ → T → Type 0
  IsNew d team = All (λ entry. h.same (team_of entry) team ≡ false) d

  put-IsNew :
      (d : Dictionary T ℤ) (team : T) (rank : ℤ)
      → IsNew d team
      → put d team rank ≡ d ++ (team, rank) ∷ []
  unfolding put
  put-IsNew [] team rank n = refl
  put-IsNew ((t, r) ∷ d) team rank n = rw n.0 (ap (λ d'. (t, r) ∷ d') (put-IsNew d team rank n.1))

  still-IsNew :
      (d : Dictionary T ℤ) (team : T) (rank : ℤ) (teams : List T)
      → All (IsNew d) teams
      → All (λ other. h.same team other ≡ false) teams
      → All (IsNew (d ++ (team, rank) ∷ [])) teams
  still-IsNew d team rank [] ns ds = tt
  still-IsNew d team rank (other ∷ teams) ns ds = (
    All-append (λ entry. h.same (team_of entry) other ≡ false) d ((team, rank) ∷ []) ns.0
        (ds.0, tt),
    still-IsNew d team rank teams ns.1 ds.1,
  )

  item_to_rank_lem :
      (teams : List T) (ranks : List ℤ) (d : Dictionary T ℤ)
      → length teams ≡ length ranks
      → IsDistinct teams
      → All (IsNew d) teams
      → item_to_rank teams ranks d ≡ some (d ++ zip teams ranks)
  unfolding item_to_rank
  item_to_rank_lem [] ranks d e ds ns = rw append-nil refl
  item_to_rank_lem (team ∷ teams) [] d e ds ns = absurd (omega arith)
  item_to_rank_lem (team ∷ teams) (rank ∷ ranks) d e ds ns = rw (put-IsNew d team rank ns.0) (
      rw
        (
          item_to_rank_lem teams ranks (d ++ (team, rank) ∷ []) (omega arith) ds.1
              (still-IsNew d team rank teams ns.1 ds.0),
          append_assoc,
        )
        refl)

  none-IsNew : (teams : List T) → All (IsNew []) teams
  none-IsNew [] = tt
  none-IsNew (team ∷ teams) = (tt, none-IsNew teams)

module _ (standard : Standard) {T : Type 0} ⦃h : Hashable T⦄ where
  -- If no two teams are equal and each has a rank, RankSorter.Sort returns the teams and their ranks,
  -- every team beside its own rank and none lost, with ranks that never fall.
  pub sort-IsOrdered :
      (laws : IsStandard standard) (teams : List T) (ranks : List ℤ)
      → IsDistinct teams
      → length teams ≡ length ranks
      → (entries : List (T × ℤ)) × (sort standard teams ranks
          ≡ some (map team_of entries, map rank_of entries))
        × Permᴰ entries (zip teams ranks)
        × IsOrdered by_rank entries
  unfolding sort
  sort-IsOrdered laws teams ranks distinct e = elim (Bool-cases (needs_sort (pos 0) ranks)) [
    | inl falls ↦
        let whole = zip teams ranks in
        let d = standard.entries T ℤ whole in
        let result = laws.sorted_lem (T × ℤ) Any by_rank d ltb_ℤ-IsStrictWeak (anything d) in
        (
          standard.sorted (T × ℤ) by_rank d,
          rw (falls, item_to_rank_lem teams ranks [] e distinct (none-IsNew teams)) refl,
          Permᴰ.trans result.0 (laws.entries_all T ℤ whole),
          result.1,
        )
    | inr ascends ↦
        let (same_teams, same_ranks) = unzip teams ranks e in
        (
          zip teams ranks,
          rw (ascends, same_teams, same_ranks) refl,
          Permᴰ.refl (zip teams ranks),
          zip-IsOrdered teams ranks (ascending (pos 0) ranks ascends).1,
        )
  ]

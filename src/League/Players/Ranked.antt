-- ===== src/League/Players/Ranked.antt =====
-- What sortPlayers does to a league: the order of the players and the rank of each of them.
use mathlib.Core.Path.{subst, fun_ext}
use mathlib.Core.Option
use mathlib.Core.List.{Permᴰ}
use mathlib.Core.List.Permᴰ
use league_ranker.Prelude.{
  ℕ, ◌+◌, ◌<◌, ◌≡◌, refl, sym, ap, ◌∙◌, false, List, [], ◌∷◌, Option, none, some, arith, length,
  map, All,
}
use league_ranker.Swift.Int.{ℤ}
use league_ranker.Swift.Order.{IsOrdered, All-rearranged, none_rearranged}
use league_ranker.Swift.Dictionary.{Hashable, IsEquality, Dictionary, get}
use league_ranker.Swift.Entries.{
  IsDictionary, IsDictionary-rearranged, get-rearranged, entries_found,
}
use league_ranker.Swift.Sorting.{Standard, IsStandard}
use league_ranker.TrueSkill.Double.{Double}
use league_ranker.League.PlayerForm.{PlayerForm}
use league_ranker.League.Players.{
  LeaguePlayers, ahead, rank_sorted, sorted_values, sort_players, is_empty,
}
use league_ranker.League.Players.Ranks.{
  keyed, assign, assign_lem, ranked_by, values_of, each_keyed, each_value, keyed_values,
  rank_sorted_lem,
}
use league_ranker.League.Players.Standings.{count_if, count_if-rearranged}
use league_ranker.League.Players.Order.{IsIeee, HasMean, better, ahead-IsStrictWeak}

-- The player with another rank.
abbrev pub with_rank : {S W : Type 0} → PlayerForm S W → ℕ → PlayerForm S W
with_rank p rank = record p { rank = rank }

-- `players` holds each player once, under the player's id, with a mean that is a number.
pub record IsLeague {S W : Type 0} ⦃h : Hashable S⦄ ⦃d : Double W⦄
    (players : Dictionary S (PlayerForm S W)) : Type 0 where
  pub once : IsDictionary players
  pub own_id : All (λ entry. entry.0 ≡ entry.1.id) players
  pub means : All (λ entry. HasMean entry.1) players

ranked_self :
    {S W : Type 0} ⦃h : Hashable S⦄ (f : PlayerForm S W → ℕ) (entry : Option (PlayerForm S W))
    → ranked_by f entry entry ≡ Option.map (λ p. with_rank p (f p)) entry
ranked_self f none = refl
ranked_self f (some p) = refl

no_values :
    {S W : Type 0} (players : Dictionary S (PlayerForm S W))
    → map (λ (e : S × PlayerForm S W). e.1) players ≡ []
    → players ≡ []
no_values [] e = refl
no_values (x ∷ players) e = cc

not_empty : {A : Type 0} (xs : List A) → 0 < length xs → is_empty xs ≡ false
unfolding is_empty
not_empty [] h = absurd (omega arith)
not_empty (x ∷ xs) h = refl

-- One more than the number of players who are better.
abbrev pub place :
    {S W : Type 0} ⦃d : Double W⦄ → ℤ → Dictionary S (PlayerForm S W) → PlayerForm S W → ℕ
place n players p = count_if (λ q. better n q p) (values_of players) + 1

module _ (standard : Standard) {S W : Type 0} ⦃h : Hashable S⦄ ⦃d : Double W⦄ where
  module _ (laws : IsStandard standard) (ieee : IsIeee W) (e : IsEquality S) (n : ℤ) where
    sorted_all :
        (players : Dictionary S (PlayerForm S W))
        → IsLeague players
        → Permᴰ (sorted_values standard n players) (values_of players)
          × IsOrdered (ahead n) (sorted_values standard n players)
    unfolding sorted_values
    sorted_all players league =
        let shuffled = standard.entries S (PlayerForm S W) players in
        let perm =
          Permᴰ.map (λ (x : S × PlayerForm S W). x.1)
            (laws.entries_all S (PlayerForm S W) players) in
        let means =
          All-rearranged HasMean (Permᴰ.symm perm) (each_value HasMean players league.means) in
        let sorted =
          laws.sorted_lem (PlayerForm S W) HasMean (ahead n) (values_of shuffled)
            (ahead-IsStrictWeak ieee n) means in
        (Permᴰ.trans sorted.0 perm, sorted.1)

    ranked_all :
        (players : Dictionary S (PlayerForm S W))
        → IsLeague players
        → (ps : List (PlayerForm S W)) → ps ≡ sorted_values standard n players
        → 0 < length players
        → (ranked : Dictionary S (PlayerForm S W)) × (rank_sorted n ps players ≡ some ranked)
          × ((id : S)
              → get ranked id ≡ Option.map (λ p. with_rank p (place n players p)) (get players id))
    ranked_all players league [] sorted some_players =
        let perm =
          subst (λ l. Permᴰ l (values_of players)) (sym sorted) (sorted_all players league).0 in
        let none_left = no_values players (none_rearranged (Permᴰ.symm perm) refl) in
        absurd (omega (arith, ap length none_left))
    ranked_all players league (first ∷ ps) sorted some_players =
        let all_players = first ∷ ps in
        let (sorted_perm, sorted_order) = sorted_all players league in
        let perm = subst (λ l. Permᴰ l (values_of players)) (sym sorted) sorted_perm in
        let order = subst (IsOrdered (ahead n)) (sym sorted) sorted_order in
        let means =
          All-rearranged HasMean (Permᴰ.symm perm) (each_value HasMean players league.means) in
        let by_id =
          subst (λ l. Permᴰ (keyed all_players) l) (keyed_values players league.own_id)
            (Permᴰ.map (λ (p : PlayerForm S W). (p.id, p)) perm) in
        let back = Permᴰ.symm by_id in
        let once = IsDictionary-rearranged e back league.once in
        let present = each_keyed players all_players (
          All-rearranged (λ y. get players y.0 ≡ some y.1) back
            (entries_found e players league.once)) in
        let (ranked, done, all) = assign_lem e (place n players) all_players players once present in
        let places = fun_ext (λ (p : PlayerForm S W).
          ap (λ c. c + 1) (count_if-rearranged (λ q. better n q p) perm)) in
        (
          ranked,
          rank_sorted_lem ieee n first ps players means order
              ∙ ap (λ f. assign all_players (map f all_players) players) places
              ∙ done,
          λ id. all id ∙ rw (get-rearranged e id by_id once) (ranked_self (place n players) _),
        )

    sort_players_step :
        (s : LeaguePlayers S W) (ranked : Dictionary S (PlayerForm S W))
        → 0 < length s.players
        → rank_sorted n (sorted_values standard n s.players) s.players ≡ some ranked
        → sort_players standard (some n) s
          ≡ some (record s {
            sorted_players =
                map (λ (p : PlayerForm S W). p.id) (sorted_values standard n s.players);
            players = ranked;
          })
    unfolding sort_players
    sort_players_step s ranked some_players done =
        rw (not_empty s.players some_players, done, sort_players) refl

    -- In a league with players, of which each stands once, under the player's id, with a mean that is
    -- not NaN, sortPlayers does not trap. It puts all the players in order: those with enough games by
    -- falling mean, and behind them the others by falling number of games. It changes nothing of a
    -- player but the rank, which becomes one more than the number of players who are better: players
    -- with enough games are better than those without, than one another by their means as they are
    -- rounded for display, and those without than one another by their numbers of games.
    pub sort_players_ranks :
        (s : LeaguePlayers S W)
        → IsLeague s.players
        → 0 < length s.players
        → (s' : LeaguePlayers S W) × (sort_players standard (some n) s ≡ some s')
          × ((id : S)
              → get s'.players id
                ≡ Option.map (λ p. with_rank p (place n s.players p)) (get s.players id))
          × (ps : List (PlayerForm S W)) × (s'.sorted_players
              ≡ map (λ (p : PlayerForm S W). p.id) ps)
          × Permᴰ ps (values_of s.players)
          × IsOrdered (ahead n) ps
    sort_players_ranks s league some_players =
        let ps = sorted_values standard n s.players in
        let (ranked, done, all) = ranked_all s.players league ps refl some_players in
        let (perm, order) = sorted_all s.players league in
        (
          record s { sorted_players = map (λ (p : PlayerForm S W). p.id) ps; players = ranked },
          sort_players_step s ranked some_players done,
          all,
          ps,
          refl,
          perm,
          order,
        )

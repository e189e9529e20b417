-- ===== src/League/Directory/Events.antt =====
-- What each handler makes of an index of the players by name.
use mathlib.Core.Option
use league_ranker.Prelude.{
  ◌≡◌, refl, ap, ◌∙◌, ◌⊎◌, true, false, Option, none, some, arith, Option-cases, Bool-cases, inl,
  inr,
}
use league_ranker.Swift.Int.{ℤ}
use league_ranker.Swift.Dictionary.{Hashable, IsEquality, get, remove, get-put, get-remove}
use league_ranker.TrueSkill.Double.{Double}
use league_ranker.League.PlayerForm.{PlayerForm}
use league_ranker.League.Players.{LeaguePlayers}
use league_ranker.League.Directory.{Texts, Values, build_self, new_player, child_added, drop_player}
use league_ranker.League.Directory.Sorted.{unranked, IsSorted}
use league_ranker.League.Directory.Found.{unranked_inv, IsReported}
use league_ranker.League.Directory.Reach.{Seen, mark, IsFree}

module _ {S W : Type 0} ⦃h : Hashable S⦄ where
  -- Every player stands under the player's id, and is found by name once the values have arrived.
  pub record IsIndexed (s : LeaguePlayers S W) (seen : Seen S) : Type 0 where
    pub own_ids : (j : S) (p : PlayerForm S W) → get s.players j ≡ some p → p.id ≡ j
    pub indexed :
        (j : S) (p : PlayerForm S W)
        → seen j ≡ true
        → get s.players j ≡ some p
        → get s.display_name_to_user_id p.display_name ≡ some j

module _ {S W : Type 0} ⦃h : Hashable S⦄ ⦃d : Double W⦄ where
  pub kept-IsIndexed :
      (key : S) (s : LeaguePlayers S W) (seen : Seen S)
      → IsIndexed s seen
      → IsIndexed s (mark key false seen)
  kept-IsIndexed key s seen inv = record {
    own_ids = inv.own_ids;
    indexed = λ j p marked found. inv.indexed j p (ground arith) found;
  }

  pub added-IsIndexed :
      (e : IsEquality S) (placements : Option ℤ) (texts : Texts S) (key : S) (s : LeaguePlayers S W)
      (seen : Seen S)
      → IsIndexed s seen
      → IsIndexed (child_added placements texts key s) (mark key false seen)
  unfolding child_added
  added-IsIndexed e none texts key s seen inv = kept-IsIndexed key s seen inv
  added-IsIndexed e (some placements) texts key s seen inv = record {
    own_ids = λ j p found. ground (
      arith,
      get-put e s.players key j (new_player texts key),
      inv.own_ids j p,
      e.same_iff key j,
    );
    indexed = λ j p marked found.
        ground (arith, get-put e s.players key j (new_player texts key), inv.indexed j p);
  }

  -- A player after a report, and the same player before.
  pub reported_player :
      (id : S) (v : Values S W) (s : LeaguePlayers S W) {s' : LeaguePlayers S W} (j : S)
      {p : PlayerForm S W}
      → IsReported id v s s'
      → get s'.players j ≡ some p
      → ((h.same id j ≡ true)
          × ((q : PlayerForm S W) × (get s.players id ≡ some q)
              × (p.id ≡ q.id)
              × (p.display_name ≡ v.display_name)))
        ⊎ ((h.same id j ≡ false)
            × ((q : PlayerForm S W) × (get s.players j ≡ some q)
                × (p.id ≡ q.id)
                × (p.display_name ≡ q.display_name)))
  unfolding build_self
  reported_player id v s {s'} j effect found = elim (Bool-cases (h.same id j)) [
    | inl here ↦
        let entry = Option.map (build_self v) (get s.players id) in
        let same : Option.map unranked (get s'.players j) ≡ Option.map unranked entry =
          effect.players j ∙ rw here refl in
        let (q', now, level) = unranked_inv (get s'.players j) entry same found in
        elim (Option-cases (get s.players id)) [
          | inl missing ↦ absurd (ground arith)
          | inr (q, old) ↦ inl (here, (q, old, ground arith, ground arith))
        ]
    | inr other ↦
        let same : Option.map unranked (get s'.players j) ≡ Option.map unranked (get s.players j) =
          effect.players j ∙ rw other refl in
        let (q, now, level) = unranked_inv (get s'.players j) (get s.players j) same found in
        inr (other, (q, now, ground arith, ground arith))
  ]

  pub removed-IsIndexed :
      (e : IsEquality S) (placements : Option ℤ) (key : S) (p0 : PlayerForm S W)
      (s : LeaguePlayers S W) (seen : Seen S) {s' : LeaguePlayers S W}
      → IsIndexed s seen
      → IsFree s seen key p0.display_name
      → IsSorted (drop_player key p0 s) s'
      → IsIndexed s' (mark key false seen)
  unfolding drop_player
  removed-IsIndexed e placements key p0 s seen {s'} inv free sorted = record {
    own_ids = λ j p found.
        let (q, now, level) =
          unranked_inv (get s'.players j) (get (remove s.players key) j) (sorted.same_players j)
            found in
        ground (arith, get-remove e s.players key j, inv.own_ids j q);
    indexed = λ j p marked found.
        let (q, now, level) =
          unranked_inv (get s'.players j) (get (remove s.players key) j) (sorted.same_players j)
            found in
        let other : h.same key j ≡ false = ground arith in
        let before : seen j ≡ true = ground arith in
        let old : get s.players j ≡ some q = ground (arith, get-remove e s.players key j) in
        ground (
          arith,
          sorted.same_names,
          ap (λ names. get names p.display_name) sorted.same_names,
          get-remove e s.display_name_to_user_id p0.display_name q.display_name,
          free j q before other old,
          inv.indexed j q before old,
        );
  }

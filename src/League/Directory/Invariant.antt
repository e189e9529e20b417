-- ===== src/League/Directory/Invariant.antt =====
-- What holds of the league in all runs of the handlers.
use mathlib.Core.Path.{subst}
use league_ranker.Prelude.{◌≡◌, sym, true, false, Option, some, arith, Option-cases, inl, inr}
use league_ranker.Swift.Int.{ℤ}
use league_ranker.Swift.Dictionary.{Hashable, IsEquality, get}
use league_ranker.Swift.Entries.{itself}
use league_ranker.Swift.Sorting.{Standard}
use league_ranker.TrueSkill.Double.{Double}
use league_ranker.League.PlayerForm.{PlayerForm}
use league_ranker.League.Players.{LeaguePlayers, sort_players}
use league_ranker.League.Directory.{
  Values, child_added, child_removed, drop_player, report, player_at_id, player_at_display_name,
}
use league_ranker.League.Directory.Sorted.{sort_players-IsSorted}
use league_ranker.League.Directory.Found.{report-IsReported, name_kept}
use league_ranker.League.Directory.Reach.{
  Seen, mark, IsFree, nobody, Step, added, reported, removed, Reach, start, next,
}
use league_ranker.League.Directory.Events.{
  IsIndexed, kept-IsIndexed, added-IsIndexed, reported_player, removed-IsIndexed,
}

module _ (standard : Standard) {S W : Type 0} ⦃h : Hashable S⦄ ⦃d : Double W⦄ where
  reported-IsIndexed :
      (e : IsEquality S) (placements : Option ℤ) (id : S) (v : Values S W) (s : LeaguePlayers S W)
      (seen : Seen S) {s' : LeaguePlayers S W}
      → IsIndexed s seen
      → IsFree s seen id v.display_name
      → IsFree s seen id id
      → report standard placements id v s ≡ some s'
      → IsIndexed s' (mark id true seen)
  reported-IsIndexed e placements id v s seen {s'} inv free_name free_id done =
      let effect = report-IsReported standard e placements id v s done in
      record {
        own_ids = λ j p found. elim (reported_player id v s j effect found) [
          | inl (here, (q, old, ids, names)) ↦ ground (arith, inv.own_ids id q old, e.same_iff id j)
          | inr (other, (q, old, ids, names)) ↦ ground (arith, inv.own_ids j q old)
        ];
        indexed = λ j p marked found. elim (reported_player id v s j effect found) [
          | inl (here, (q, old, ids, names)) ↦
              ground (arith, effect.names v.display_name, itself e v.display_name, e.same_iff id j)
          | inr (other, (q, old, ids, names)) ↦
              let before : seen j ≡ true = ground arith in
              ground (
                arith,
                name_kept e id q.display_name v s inv.own_ids effect
                    (free_name j q before other old) (free_id j q before other old),
                inv.indexed j q before old,
              )
        ];
      }

  Step-IsIndexed :
      (e : IsEquality S) {s s' : LeaguePlayers S W} {seen seen' : Seen S}
      → Step standard s seen s' seen'
      → IsIndexed s seen
      → IsIndexed s' seen'
  unfolding child_removed
  Step-IsIndexed e {s} {s'} {seen} {seen'} (added placements texts key now now_seen) inv =
      subst (λ t. IsIndexed t seen') (sym now)
        (subst (λ t. IsIndexed (child_added placements texts key s) t) (sym now_seen)
          (added-IsIndexed e placements texts key s seen inv))
  Step-IsIndexed e {s} {s'} {seen} {seen'} (reported placements id v name own done now_seen) inv =
      subst (λ t. IsIndexed s' t) (sym now_seen)
        (reported-IsIndexed e placements id v s seen inv name own done)
  Step-IsIndexed e {s} {s'} {seen} {seen'} (removed placements key free done now_seen) inv =
      subst (λ t. IsIndexed s' t) (sym now_seen)
        (elim (Option-cases (get s.players key)) [
          | inl missing ↦
              let same : s ≡ s' = ground arith in
              subst (λ t. IsIndexed t (mark key false seen)) same (kept-IsIndexed key s seen inv)
          | inr (p, found) ↦
              let sorts : sort_players standard placements (drop_player key p s) ≡ some s' =
                ground arith in
              removed-IsIndexed e placements key p s seen inv (free p found)
                (sort_players-IsSorted standard e placements (drop_player key p s) sorts)
        ])

  start-IsIndexed : IsIndexed {S = S} {W = W} nobody (λ _. false)
  unfolding nobody get
  start-IsIndexed = record { own_ids = λ j p found. cc; indexed = λ j p marked found. cc }

  Reach-IsIndexed :
      (e : IsEquality S) {s : LeaguePlayers S W} {seen : Seen S}
      → Reach standard s seen
      → IsIndexed s seen
  Reach-IsIndexed e {s} {seen} (start now none_seen) =
      subst (λ t. IsIndexed t seen) (sym now)
        (subst (λ t. IsIndexed {S = S} {W = W} nobody t) (sym none_seen) start-IsIndexed)
  Reach-IsIndexed e (next r step) = Step-IsIndexed e step (Reach-IsIndexed e r)

  -- In every run of the handlers on a league that starts without players, in which no player takes
  -- the display name of another or one that is a player's id, each player of the league whose values
  -- have arrived is found under the current display name, and stands under the player's id.
  pub Reach-found :
      (e : IsEquality S) {s : LeaguePlayers S W} {seen : Seen S} (id : S) {p : PlayerForm S W}
      → Reach standard s seen
      → seen id ≡ true
      → player_at_id s id ≡ some p
      → (player_at_display_name s p.display_name ≡ some p) × (p.id ≡ id)
  unfolding player_at_id player_at_display_name
  Reach-found e {s} {seen} id {p} r marked found =
      let inv = Reach-IsIndexed e r in
      (rw (inv.indexed id p marked found, player_at_display_name) found, inv.own_ids id p found)

-- ===== src/League/Directory/Found.antt =====
-- What one report of a player's values does to the lookups.
use mathlib.Core.Option
use mathlib.Core.Path.{subst}
use league_ranker.Prelude.{
  ◌≡◌, refl, sym, ap, ◌∙◌, false, Option, none, some, arith, if◌then◌else◌, Option-cases,
  Bool-cases, inl, inr,
}
use league_ranker.Swift.Int.{ℤ}
use league_ranker.Swift.Dictionary.{Hashable, IsEquality, Dictionary, get, get-put, get-remove}
use league_ranker.Swift.Entries.{itself}
use league_ranker.Swift.Sorting.{Standard}
use league_ranker.TrueSkill.Double.{Double}
use league_ranker.League.PlayerForm.{PlayerForm}
use league_ranker.League.Players.{LeaguePlayers}
use league_ranker.League.Directory.{
  Values, build_self, set_values, drop_id, changed, report, player_at_display_name,
}
use league_ranker.League.Directory.Sorted.{unranked, sort_players-IsSorted}

module _ {S W : Type 0} where
  -- Two players that differ in the rank at most.
  pub unranked_inv :
      (x y : Option (PlayerForm S W)) {p : PlayerForm S W}
      → Option.map unranked x ≡ Option.map unranked y
      → x ≡ some p
      → (q : PlayerForm S W) × (y ≡ some q) × (unranked p ≡ unranked q)
  unranked_inv none y same found = cc
  unranked_inv (some p) none same found = cc
  unranked_inv (some p) (some q) same found = (q, refl, ground arith)

module _ {S W : Type 0} ⦃h : Hashable S⦄ ⦃d : Double W⦄ where
  get-set_values :
      (e : IsEquality S) (players : Dictionary S (PlayerForm S W)) (id j : S) (v : Values S W)
      → get (set_values id v players) j
        ≡ (if h.same id j then Option.map (build_self v) (get players id) else get players j)
  unfolding set_values
  get-set_values e players id j v = elim (Option-cases (get players id)) [
    | inl missing ↦ ground (arith, e.same_iff id j)
    | inr (p, found) ↦ ground (arith, get-put e players id j (build_self v p), e.same_iff id j)
  ]

  -- A report, seen from its effects.
  pub record IsReported (id : S) (v : Values S W) (s s' : LeaguePlayers S W) : Type 0 where
    pub names :
        (name : S)
        → get s'.display_name_to_user_id name ≡ (
            if h.same v.display_name name
            then some id
            else get
                (drop_id id
                  (record s { players = set_values id v s.players })
                  s.display_name_to_user_id)
                name)
    pub players :
        (j : S)
        → Option.map unranked (get s'.players j)
          ≡ Option.map unranked (
              if h.same id j then Option.map (build_self v) (get s.players id) else get s.players j)

  get-drop_id :
      (e : IsEquality S) (id name : S) (s : LeaguePlayers S W) (names : Dictionary S S)
      → ((p : PlayerForm S W) → get s.players id ≡ some p → h.same p.id name ≡ false)
      → get (drop_id id s names) name ≡ get names name
  unfolding drop_id
  get-drop_id e id name s names other = elim (Option-cases (get s.players id)) [
    | inl missing ↦ rw (missing, drop_id) refl
    | inr (p, found) ↦ rw (found, drop_id) (get-remove e names p.id name ∙ rw (other p found) refl)
  ]

  -- Every player stands under the player's id.
  abbrev pub OwnIds : LeaguePlayers S W → Type 0
  OwnIds s = (j : S) (p : PlayerForm S W) → get s.players j ≡ some p → p.id ≡ j

  set_values-OwnIds :
      (e : IsEquality S) (id : S) (v : Values S W) (s : LeaguePlayers S W)
      → OwnIds s
      → OwnIds (record s { players = set_values id v s.players })
  unfolding build_self
  set_values-OwnIds e id v s own j p found = elim (Bool-cases (h.same id j)) [
    | inl here ↦ elim (Option-cases (get s.players id)) [
      | inl missing ↦ absurd (ground (arith, get-set_values e s.players id j v))
      | inr (q, old) ↦
          ground (arith, get-set_values e s.players id j v, own id q old, e.same_iff id j)
    ]
    | inr other ↦ own j p (ground (arith, get-set_values e s.players id j v))
  ]

  -- A name other than the new one and the id keeps its entry.
  pub name_kept :
      (e : IsEquality S) (id name : S) (v : Values S W) (s : LeaguePlayers S W)
      {s' : LeaguePlayers S W}
      → OwnIds s
      → IsReported id v s s'
      → h.same v.display_name name ≡ false
      → h.same id name ≡ false
      → get s'.display_name_to_user_id name ≡ get s.display_name_to_user_id name
  name_kept e id name v s own reported new other =
      let s1 = record s { players = set_values id v s.players } in
      reported.names name
      ∙ rw new (
          get-drop_id e id name s1 s.display_name_to_user_id λ p found.
            subst (λ i. h.same i name ≡ false) (sym (set_values-OwnIds e id v s own id p found))
              other)

  player_kept :
      (e : IsEquality S) (id : S) (v : Values S W) (s : LeaguePlayers S W) {s' : LeaguePlayers S W}
      {p : PlayerForm S W}
      → IsReported id v s s'
      → get s.players id ≡ some p
      → Option.map unranked (get s'.players id) ≡ some (unranked (build_self v p))
  player_kept e id v s reported found = reported.players id ∙ rw (itself e id, found) refl

module _ (standard : Standard) {S W : Type 0} ⦃h : Hashable S⦄ ⦃d : Double W⦄ where
  pub report-IsReported :
      (e : IsEquality S) (placements : Option ℤ) (id : S) (v : Values S W) (s : LeaguePlayers S W)
      {s' : LeaguePlayers S W}
      → report standard placements id v s ≡ some s'
      → IsReported id v s s'
  unfolding report
  report-IsReported e placements id v s done =
      let s1 = record s { players = set_values id v s.players } in
      let sorted =
        sort_players-IsSorted standard e placements (changed id v.phone_number v.display_name s1)
          done in
      record {
        names = λ name.
            ap (λ names. get names name) sorted.same_names
            ∙ get-put e (drop_id id s1 s.display_name_to_user_id) v.display_name name id;
        players = λ j.
            sorted.same_players j ∙ ap (Option.map unranked) (get-set_values e s.players id j v);
      }

  -- When the values of a player of the league arrive and sortPlayers does not trap, the player is
  -- found under the new display name, with the values that arrived.
  pub report_found :
      (e : IsEquality S) (placements : Option ℤ) (id : S) (v : Values S W) (s : LeaguePlayers S W)
      {s' : LeaguePlayers S W} {p : PlayerForm S W}
      → report standard placements id v s ≡ some s'
      → get s.players id ≡ some p
      → Option.map unranked (player_at_display_name s' v.display_name)
        ≡ some (unranked (build_self v p))
  unfolding player_at_display_name
  report_found e placements id v s {s'} done found =
      let reported = report-IsReported e placements id v s done in
      let own : get s'.display_name_to_user_id v.display_name ≡ some id =
        reported.names v.display_name ∙ rw (itself e v.display_name) refl in
      rw (own, player_at_display_name) (player_kept e id v s reported found)

  -- A player who is found under a display name is still found under it, with the new values, after a
  -- report of another display name, unless the old name is the player's id: `changed` looks for the
  -- old entry under the id.
  pub renamed_still_found :
      (e : IsEquality S) (placements : Option ℤ) (id old : S) (v : Values S W)
      (s : LeaguePlayers S W) {s' : LeaguePlayers S W} {p : PlayerForm S W}
      → OwnIds s
      → report standard placements id v s ≡ some s'
      → get s.players id ≡ some p
      → get s.display_name_to_user_id old ≡ some id
      → h.same v.display_name old ≡ false
      → h.same id old ≡ false
      → Option.map unranked (player_at_display_name s' old) ≡ some (unranked (build_self v p))
  unfolding player_at_display_name
  renamed_still_found e placements id old v s own done found named new other =
      let reported = report-IsReported e placements id v s done in
      let kept = name_kept e id old v s own reported new other ∙ named in
      rw (kept, player_at_display_name) (player_kept e id v s reported found)

-- ===== src/Engine/Searching.antt =====
-- What the search for teams returns.
use match_mind.Base.{
  Bool-cases, List, Option-cases, Result, Result-cases, [], arith, inl, inr, length, ok, some,
  subst, suc, zero, ℕ, ◌-◌, ◌^◌, ◌∷◌, ◌≡◌, ◌⊎◌,
}
use match_mind.Clock.{Time}
use match_mind.Engine.{TicketGroup}
use match_mind.Engine.Beam.{
  BestFormation, Calls, SearchResult, SubsetState, beam_candidate_sets, beats, formation_signature,
  is_greedy, no_formation, note_formation, optimize_beam, optimize_greedy, optimize_teams,
  search_result, teams_of, visit_masks, visit_partitions, visit_split, visit_states,
}
use match_mind.Engine.Candidates.{CandidateResult}
use match_mind.Engine.Quality.{Quality, evaluate_quality}
use match_mind.Engine.Teams.{TeamFormation, fits_mask, form_teams_greedy, split_by, team_size_of}
use match_mind.Policy.{MatchPolicy}
use match_mind.Text.{Text, text_eq}

-- The quality is that of the formation.
abbrev pub Rated : Calls → Text → Time → MatchPolicy → TeamFormation → Quality → Type 0
Rated calls region now policy f q = evaluate_quality calls.scoring f region now policy ≡ ok q

-- The best formation so far has been rated.
abbrev BestRated : Calls → Text → Time → MatchPolicy → BestFormation → Type 0
BestRated calls region now policy b =
    (f : TeamFormation) (q : Quality) → b.best ≡ some (f, q) → Rated calls region now policy f q

note_formation-BestRated :
    (calls : Calls) (region : Text) (now : Time) (policy : MatchPolicy) (b : BestFormation)
    (f : TeamFormation) (q : Quality)
    → BestRated calls region now policy b
    → Rated calls region now policy f q
    → BestRated calls region now policy (note_formation b f q)
unfolding note_formation
note_formation-BestRated calls region now policy b f q v rated g r h =
    elim (Bool-cases (beats b q (formation_signature f))) [
      | inl better ↦
          let e : f ≡ g = ground arith in
          let e' : q ≡ r = ground arith in
          subst (λ x. Rated calls region now policy x r) e
            (subst (λ x. Rated calls region now policy f x) e' rated)
      | inr other ↦ v g r (ground arith)
    ]

visit_split-BestRated :
    (calls : Calls) (region : Text) (now : Time) (policy : MatchPolicy)
    (teams : List TicketGroup × List TicketGroup) (b b' : BestFormation)
    → BestRated calls region now policy b
    → visit_split calls region now policy teams b ≡ ok b'
    → BestRated calls region now policy b'
unfolding visit_split
visit_split-BestRated calls region now policy teams b b' v h =
    elim (Option-cases (teams_of policy now teams)) [
      | inl missing ↦ let e : b ≡ b' = ground arith in subst (BestRated calls region now policy) e v
      | inr (f, found) ↦ elim (Result-cases (evaluate_quality calls.scoring f region now policy)) [
        | inr (e, refused) ↦ absurd (ground arith)
        | inl (q, rated) ↦
            let e : note_formation b f q ≡ b' = ground arith in
            subst (BestRated calls region now policy) e
              (note_formation-BestRated calls region now policy b f q v rated)
      ]
    ]

visit_masks-keeps :
    (P : BestFormation → Type 0)
    (visit : List TicketGroup × List TicketGroup → BestFormation → Result BestFormation) (size : ℕ)
    (groups : List TicketGroup) (b b' : BestFormation) (mask count : ℕ)
    → ((teams : List TicketGroup × List TicketGroup) (c c' : BestFormation)
        → P c
        → visit teams c ≡ ok c'
        → P c')
    → P b
    → visit_masks visit size groups b mask count ≡ ok b'
    → P b'
unfolding visit_masks
visit_masks-keeps P visit size groups b b' mask zero keeps v h =
    let e : b ≡ b' = ground arith in subst P e v
visit_masks-keeps P visit size groups b b' mask (suc count) keeps v h =
    elim (Bool-cases (fits_mask size groups mask)) [
      | inr other ↦
          visit_masks-keeps P visit size groups b b' (suc mask) count keeps v (ground arith)
      | inl fits ↦ elim (Result-cases (visit (split_by mask groups) b)) [
        | inr (e, refused) ↦ absurd (ground arith)
        | inl (c, visited) ↦
            visit_masks-keeps P visit size groups c b' (suc mask) count keeps
              (keeps (split_by mask groups) b c v visited) (ground arith)
      ]
    ]

visit_states-BestRated :
    (calls : Calls) (region : Text) (now : Time) (policy : MatchPolicy) (ss : List SubsetState)
    (b b' : BestFormation)
    → BestRated calls region now policy b
    → visit_states calls region now policy ss b ≡ ok b'
    → BestRated calls region now policy b'
unfolding visit_states visit_partitions
visit_states-BestRated calls region now policy [] b b' v h =
    let e : b ≡ b' = ground arith in subst (BestRated calls region now policy) e v
visit_states-BestRated calls region now policy (s ∷ ss) b b' v h =
    elim (Result-cases
      (visit_partitions (visit_split calls region now policy) (team_size_of policy) s.groups b)) [
        | inr (e, refused) ↦ absurd (ground arith)
        | inl (c, visited) ↦
            visit_states-BestRated calls region now policy ss c b'
              (visit_masks-keeps (BestRated calls region now policy)
                (visit_split calls region now policy) (team_size_of policy) s.groups b c 1
                (2 ^ length s.groups - 1) (visit_split-BestRated calls region now policy) v
                (ground arith))
              (ground arith)
      ]

-- When `OptimizeTeams` succeeds, the quality that it returns is that of `EvaluateQuality` for the
-- formation that it returns, unless both teams are empty.
pub optimize_teams-Rated :
    (calls : Calls) (candidates : CandidateResult) (region : Text) (now : Time)
    (policy : MatchPolicy) (r : SearchResult)
    → optimize_teams calls candidates region now policy ≡ ok r
    → Rated calls region now policy r.formation r.quality
      ⊎ ((r.formation.side_a.players ≡ []) × (r.formation.side_b.players ≡ []))
unfolding optimize_teams optimize_greedy optimize_beam search_result
optimize_teams-Rated calls candidates region now policy r h =
    elim (Bool-cases (is_greedy policy.team_algorithm)) [
      | inl g ↦ elim (Result-cases (form_teams_greedy candidates policy now)) [
        | inr (e, refused) ↦ absurd (ground arith)
        | inl (f, formed) ↦
            elim (Result-cases (evaluate_quality calls.scoring f region now policy)) [
              | inr (e, refused) ↦ absurd (ground arith)
              | inl (q, rated) ↦ inl (ground arith)
            ]
      ]
      | inr other ↦ elim (Result-cases (beam_candidate_sets calls candidates policy)) [
        | inr (e, refused) ↦ absurd (ground arith)
        | inl (states, found) ↦
            elim (Result-cases (visit_states calls region now policy states no_formation)) [
              | inr (e, refused) ↦ absurd (ground arith)
              | inl (b, visited) ↦ elim (Option-cases b.best) [
                | inl none_rated ↦ inr (ground arith, ground arith)
                | inr ((f, q), best) ↦
                    let v =
                      visit_states-BestRated calls region now policy states no_formation b
                        (λ x y e. absurd (ground arith)) visited in
                    let rated = v f q best in inl (ground arith)
              ]
            ]
      ]
    ]

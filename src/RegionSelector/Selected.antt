-- ===== src/RegionSelector/Selected.antt =====
-- The region that is selected.
use match_mind.Allocator.{LocalAllocator, RegionCapacity, available, capacities_of}
use match_mind.Base.{
  All, Bool-cases, Context, List, Option, Option-cases, Result-cases, [], arith, inl, inr, lookup,
  none, ok, refl, some, subst, ◌∷◌, ◌≡◌,
}
use match_mind.Base.Int.{pos, ℤ, ◌≤ℤ◌}
use match_mind.Clock.{Time}
use match_mind.Engine.Beam.{Calls, optimize_teams}
use match_mind.Engine.Candidates.{CandidateResult}
use match_mind.Engine.Teams.{AssignedPlayer}
use match_mind.Policy.{MatchPolicy}
use match_mind.RegionSelector.{
  RegionSelection, best_region_offer, better_of, better_region_selection, max_available_of,
  normalize_capacities, region_offer, score_server_region, select_server_region, selection_of,
  team_latencies,
}
use match_mind.RegionSelector.Free.{HasFree, normalize_capacities-free}
use match_mind.Text.{Text, text_eq}

-- What the selection is: a region with a free server, teams that `OptimizeTeams` has formed for it, and both
-- teams within the latency limits there.
pub record Suits (servers : LocalAllocator) (calls : Calls) (candidates : CandidateResult)
    (now : Time) (policy : MatchPolicy) (s : RegionSelection) : Type 0 where
  pub free : HasFree servers s.region
  pub formed : optimize_teams calls candidates s.region now policy ≡ ok s.search
  pub near_a :
      All
        (λ p.
          (latency : ℤ) × (lookup s.region p.ticket.region_latency ≡ some latency)
          × (latency ≤ℤ candidates.admissible_latency_ms)
          × (latency ≤ℤ policy.max_latency_ms))
        s.search.formation.side_a.players
  pub near_b :
      All
        (λ p.
          (latency : ℤ) × (lookup s.region p.ticket.region_latency ≡ some latency)
          × (latency ≤ℤ candidates.admissible_latency_ms)
          × (latency ≤ℤ policy.max_latency_ms))
        s.search.formation.side_b.players

team_latencies-near :
    (region : Text) (admissible hard : ℤ) (ps : List AssignedPlayer) (latencies : List ℤ)
    → team_latencies region admissible hard ps ≡ some latencies
    → All
        (λ p.
          (latency : ℤ) × (lookup region p.ticket.region_latency ≡ some latency)
          × (latency ≤ℤ admissible)
          × (latency ≤ℤ hard))
        ps
unfolding team_latencies
team_latencies-near region admissible hard [] latencies h = tt
team_latencies-near region admissible hard (p ∷ ps) latencies h =
    elim (Option-cases (lookup region p.ticket.region_latency)) [
      | inl missing ↦ absurd (ground arith)
      | inr (latency, found) ↦ elim (Option-cases (team_latencies region admissible hard ps)) [
        | inl missing ↦ absurd (ground arith)
        | inr (rest, others) ↦ (
          (latency, found, ground arith, ground arith),
          team_latencies-near region admissible hard ps rest others,
        )
      ]
    ]

region_offer-Suits :
    (servers : LocalAllocator) (calls : Calls) (candidates : CandidateResult) (now : Time)
    (policy : MatchPolicy) (most : ℤ) (c : RegionCapacity) (s : RegionSelection)
    → HasFree servers c.region
    → region_offer calls candidates now policy most c ≡ some s
    → Suits servers calls candidates now policy s
unfolding region_offer score_server_region selection_of
region_offer-Suits servers calls candidates now policy most c s has h =
    elim (Result-cases (optimize_teams calls candidates c.region now policy)) [
      | inr (e, refused) ↦ absurd (ground arith)
      | inl (search, formed) ↦
          let side =
            team_latencies c.region candidates.admissible_latency_ms policy.max_latency_ms in
          elim (Option-cases (side search.formation.side_a.players)) [
            | inl missing ↦ absurd (ground arith)
            | inr (a, near_a) ↦ elim (Option-cases (side search.formation.side_b.players)) [
              | inl missing ↦ absurd (ground arith)
              | inr (b, near_b) ↦
                  let e : selection_of calls search c most policy.max_latency_ms a b ≡ s =
                    ground arith in
                  subst (Suits servers calls candidates now policy) e (record {
                    free = has;
                    formed = formed;
                    near_a =
                        team_latencies-near c.region _ _ search.formation.side_a.players a near_a;
                    near_b =
                        team_latencies-near c.region _ _ search.formation.side_b.players b near_b;
                  })
            ]
          ]
    ]

better_of-Suits :
    (servers : LocalAllocator) (calls : Calls) (candidates : CandidateResult) (now : Time)
    (policy : MatchPolicy) (best : Option RegionSelection) (offer : RegionSelection)
    → ((b : RegionSelection) → best ≡ some b → Suits servers calls candidates now policy b)
    → Suits servers calls candidates now policy offer
    → Suits servers calls candidates now policy (better_of best offer)
unfolding better_of
better_of-Suits servers calls candidates now policy none offer v w = w
better_of-Suits servers calls candidates now policy (some b) offer v w =
    elim (Bool-cases (better_region_selection offer b)) [
      | inl better ↦ rw better w
      | inr worse ↦ rw worse (v b refl)
    ]

best_region_offer-Suits :
    (servers : LocalAllocator) (calls : Calls) (candidates : CandidateResult) (now : Time)
    (policy : MatchPolicy) (most : ℤ) (best : Option RegionSelection) (cs : List RegionCapacity)
    (s : RegionSelection)
    → ((b : RegionSelection) → best ≡ some b → Suits servers calls candidates now policy b)
    → All (λ c. HasFree servers c.region) cs
    → best_region_offer calls candidates now policy most best cs ≡ some s
    → Suits servers calls candidates now policy s
unfolding best_region_offer
best_region_offer-Suits servers calls candidates now policy most best [] s v has h = v s h
best_region_offer-Suits servers calls candidates now policy most best (c ∷ cs) s v (first, has) h =
    elim (Option-cases (region_offer calls candidates now policy most c)) [
      | inl nothing ↦
          best_region_offer-Suits servers calls candidates now policy most best cs s v has
            (ground arith)
      | inr (offer, found) ↦
          best_region_offer-Suits servers calls candidates now policy most
            (some (better_of best offer)) cs s
            (λ b e.
              let same : better_of best offer ≡ b = ground arith in
              subst (Suits servers calls candidates now policy) same (
                better_of-Suits servers calls candidates now policy best offer v (
                  region_offer-Suits servers calls candidates now policy most c offer first found)))
            has (ground arith)
    ]

-- When `selectServerRegion` succeeds, a region of the allocator whose name is the selected one, trimmed
-- and in lower case, has more capacity than servers in use, the search result is that of `OptimizeTeams`
-- for the region, and the latency to the region of each player of both teams is recorded and within the
-- admissible and the hard limit.
pub select_server_region-Suits :
    (ctx : Context) (calls : Calls) (servers : LocalAllocator) (candidates : CandidateResult)
    (now : Time) (policy : MatchPolicy) (s : RegionSelection)
    → select_server_region ctx calls servers candidates now policy ≡ ok s
    → Suits servers calls candidates now policy s
unfolding select_server_region capacities_of
select_server_region-Suits ctx calls servers candidates now policy s h =
    elim (Result-cases (capacities_of ctx servers)) [
      | inr (e, refused) ↦ absurd (ground arith)
      | inl (capacities, read) ↦
          let normalized = normalize_capacities capacities in
          let same : available servers.allocations servers.capacities ≡ capacities = ground arith in
          best_region_offer-Suits servers calls candidates now policy
            (max_available_of (pos 0) normalized) none normalized s (λ b e. absurd (ground arith))
            (subst (λ cs. All (λ c. HasFree servers c.region) (normalize_capacities cs)) same
              (normalize_capacities-free servers))
            (ground arith)
    ]

-- ===== src/Engine/Quality.antt =====
-- engine/quality.go: how good a match would be. The expected score of rating/elo, which is made of `math.Pow`,
-- and the text of `%.1f` are arguments. The latencies of a valid policy are positive.
use match_mind.Base.{
  nat_eq, Bool-cases, List, Map, Option, Result, [], count, false, if◌then◌else◌, inl, inr, insert,
  length, lookup, lookup_or, nat_beq, no_valid_team_split, none, not, ok, refl, reject_if, some,
  suc, values, zero, ℕ, ◌++◌, ◌/◌, ◌>>=◌, ◌>>◌, ◌||◌, ◌∷◌, ◌≡◌, Option-cases, Result-cases, arith,
  subst,
}
use match_mind.Base.Int.{ltb_ℤ, pos, pos_part, ℤ, ◌+ℤ◌, ◌-ℤ◌}
use match_mind.Clock.{Duration, Time, sub_time}
use match_mind.Engine.Teams.{AssignedPlayer, Team, TeamFormation, team_size_of}
use match_mind.Float64.{
  Float64, float, float_abs, float_add, float_div, float_lt, float_mul, float_of, float_ratio,
  float_sub, unit,
}
use match_mind.Policy.{MatchPolicy, validate}
use match_mind.Text.{Text, codes, is_empty, text_eq}
use match_mind.Ticket.{MatchTicket}

pub record Scoring : Type 0 where
  pub expected_score : Float64 → Float64 → Result Float64
  pub format : Float64 → Text

pub record Quality : Type 0 where
  pub total_score : Float64
  pub skill_score : Float64
  pub role_score : Float64
  pub latency_score : Float64
  pub party_score : Float64
  pub wait_score : Float64
  pub predicted_win_rate_a : Float64
  pub predicted_win_rate_b : Float64
  pub reasons : List Text

unfoldable pub clamp_score : Float64 → Float64
clamp_score score =
    if float_lt score (float 0)
    then float 0
    else if float_lt (float 100) score
    then float 100
    else score

abbrev pub both_teams : TeamFormation → List AssignedPlayer
both_teams f = f.side_a.players ++ f.side_b.players

-- The loop of `latencyScore`: the sum and the maximum of the latencies, unless one is missing or too high.
unfoldable pub sum_latencies : Text → ℤ → ℤ → ℤ → List AssignedPlayer → Option (ℤ × ℤ)
sum_latencies region maximum sum highest [] = some (sum, highest)
sum_latencies region maximum sum highest (p ∷ ps) = elim (lookup region p.ticket.region_latency) [
  | none ↦ none
  | some latency ↦
      if ltb_ℤ maximum latency
      then none
      else sum_latencies region maximum (sum +ℤ latency)
          (if ltb_ℤ highest latency then latency else highest) ps
]

unfoldable pub score_latencies : ℤ → ℕ → ℤ → ℤ → Float64
score_latencies maximum players sum highest =
    let average = float_div (float_of sum) (float players) in
    clamp_score (
      float_sub
        (float_sub (float 100) (float_mul (float_div average (float_of maximum)) (float 70)))
        (float_mul (float_div (float_of highest) (float_of maximum)) (float 30)))

unfoldable pub latency_score : TeamFormation → Text → ℤ → Float64
latency_score f region maximum =
    elim (sum_latencies region maximum (pos 0) (pos 0) (both_teams f)) [
      | none ↦ float 0
      | some (sum, highest) ↦ score_latencies maximum (length (both_teams f)) sum highest
    ]

unfoldable pub party_key : MatchTicket → Text
party_key t = if is_empty t.party_id then codes "ticket:" ++ t.id else t.party_id

unfoldable pub party_sizes : Map Text ℕ → List AssignedPlayer → Map Text ℕ
party_sizes sizes [] = sizes
party_sizes sizes (p ∷ ps) =
    party_sizes (insert (party_key p.ticket) (suc (lookup_or 0 (party_key p.ticket) sizes)) sizes)
      ps

-- How many parties of a team have the size.
unfoldable pub party_distribution : Team → ℕ → ℕ
party_distribution team size = count size (values (party_sizes [] team.players))

unfoldable pub absolute_int : ℤ → ℤ
absolute_int v = if ltb_ℤ v (pos 0) then pos 0 -ℤ v else v

-- The loop over the sizes `size`, `size + 1`, ... of which there are `n`.
unfoldable pub party_difference : TeamFormation → ℕ → ℕ → ℤ
party_difference f size zero = pos 0
party_difference f size (suc n) =
    absolute_int (pos (party_distribution f.side_a size) -ℤ pos (party_distribution f.side_b size))
    +ℤ party_difference f (suc size) n

unfoldable pub party_symmetry_score : TeamFormation → Float64
party_symmetry_score f =
    clamp_score (float_sub (float 100) (float_mul (float_of (party_difference f 1 5)) (float 10)))

unfoldable pub sum_waits : Time → Duration → List AssignedPlayer → Duration
sum_waits now sum [] = sum
sum_waits now sum (p ∷ ps) =
    let wait = sub_time now p.ticket.created_at in
    sum_waits now (if ltb_ℤ (pos 0) wait then sum +ℤ wait else sum) ps

-- The sum is not negative, and a division by no players panics in the source.
unfoldable pub wait_score : TeamFormation → Time → Duration → Float64
wait_score f now ticket_ttl =
    let average = pos (pos_part (sum_waits now (pos 0) (both_teams f)) / length (both_teams f)) in
    clamp_score (
      float_mul (float 100)
        (float_sub (float 1) (float_div (float_of average) (float_of ticket_ttl))))

-- A reason for a score below its mark.
unfoldable pub reason_below : Scoring → Float64 → Text → Float64 → List Text
reason_below scoring mark text score =
    if float_lt score mark
    then (text ++ (codes " (" ++ (scoring.format score ++ codes ")"))) ∷ []
    else []

unfoldable pub quality_reasons : Scoring → Quality → List Text
quality_reasons scoring q =
    reason_below scoring (float 80) (codes "skill fairness is low") q.skill_score
    ++ (reason_below scoring (float 80) (codes "role satisfaction is low") q.role_score
        ++ (reason_below scoring (float 70) (codes "network quality is low") q.latency_score
            ++ (reason_below scoring (float 80) (codes "party structures are asymmetric")
                  q.party_score
                ++ reason_below scoring (float 50) (codes "average wait is high") q.wait_score)))

unfoldable pub weighted : MatchPolicy → Quality → Float64
weighted policy q =
    float_add
      (float_add
        (float_add
          (float_add (float_mul q.skill_score policy.skill_weight)
            (float_mul q.role_score policy.role_weight))
          (float_mul q.latency_score policy.latency_weight))
        (float_mul q.party_score policy.party_weight))
      (float_mul q.wait_score policy.wait_weight)

-- The scores, before the total and the reasons.
unfoldable pub partial_quality : TeamFormation → Text → Time → MatchPolicy → Float64 → Quality
partial_quality f region now policy predicted = record {
  total_score = float 0;
  skill_score = clamp_score (
      float_sub (float 100)
        (float_mul (float_abs (float_sub predicted (float_ratio 1 2))) (float 200)));
  role_score =
      clamp_score (float_div (float_add f.side_a.role_score f.side_b.role_score) (float 2));
  latency_score = latency_score f region policy.max_latency_ms;
  party_score = party_symmetry_score f;
  wait_score = wait_score f now policy.ticket_ttl;
  predicted_win_rate_a = predicted;
  predicted_win_rate_b = float_sub (float 1) predicted;
  reasons = [];
}

unfoldable pub with_total : Scoring → MatchPolicy → Quality → Quality
with_total scoring policy q = record q {
  total_score = clamp_score (weighted policy q);
  reasons = quality_reasons scoring q;
}

unfoldable pub evaluate_quality :
    Scoring → TeamFormation → Text → Time → MatchPolicy → Result Quality
evaluate_quality scoring f region now policy = do
  validate policy
  reject_if
      (not (nat_beq (length f.side_a.players) (team_size_of policy))
        || not (nat_beq (length f.side_b.players) (team_size_of policy)))
      no_valid_team_split
  predicted ← scoring.expected_score f.side_a.average_rating f.side_b.average_rating
  ok (with_total scoring policy (partial_quality f region now policy predicted))

-- A score that is not below 0 and not above 100.
abbrev pub InScore : Float64 → Type 0
InScore x = (float_lt x (float 0) ≡ false) × (float_lt (float 100) x ≡ false)

InScore-0 : InScore (float 0)
unfolding float_lt unit
InScore-0 = (refl, refl)

InScore-100 : InScore (float 100)
unfolding float_lt unit
InScore-100 = (refl, refl)

clamp_score-InScore : (x : Float64) → InScore (clamp_score x)
unfolding clamp_score
clamp_score-InScore x = elim (Bool-cases (float_lt x (float 0))) [
  | inl low ↦ rw low InScore-0
  | inr other ↦ elim (Bool-cases (float_lt (float 100) x)) [
    | inl high ↦ rw (other, high) InScore-100
    | inr between ↦ rw (other, between) (other, between)
  ]
]

latency_score-InScore :
    (f : TeamFormation) (region : Text) (maximum : ℤ) → InScore (latency_score f region maximum)
unfolding latency_score score_latencies
latency_score-InScore f region maximum =
    elim (Option-cases (sum_latencies region maximum (pos 0) (pos 0) (both_teams f))) [
      | inl missing ↦ rw (missing, latency_score) InScore-0
      | inr ((sum, highest), found) ↦ rw (found, latency_score) (clamp_score-InScore _)
    ]

-- The six scores of a quality.
pub record Scores (q : Quality) : Type 0 where
  pub in_total : InScore q.total_score
  pub in_skill : InScore q.skill_score
  pub in_role : InScore q.role_score
  pub in_latency : InScore q.latency_score
  pub in_party : InScore q.party_score
  pub in_wait : InScore q.wait_score

-- When `EvaluateQuality` succeeds, each of the six scores is at least 0 and at most 100, or NaN.
pub evaluate_quality-Scores :
    (scoring : Scoring) (f : TeamFormation) (region : Text) (now : Time) (policy : MatchPolicy)
    (q : Quality)
    → evaluate_quality scoring f region now policy ≡ ok q
    → Scores q
unfolding evaluate_quality with_total partial_quality party_symmetry_score wait_score
evaluate_quality-Scores scoring f region now policy q h =
    elim (Result-cases (scoring.expected_score f.side_a.average_rating f.side_b.average_rating)) [
      | inr (e, refused) ↦ absurd (ground arith)
      | inl (predicted, found) ↦
          let e : with_total scoring policy (partial_quality f region now policy predicted) ≡ q =
            ground arith in
          subst Scores e (record {
            in_total = clamp_score-InScore _;
            in_skill = clamp_score-InScore _;
            in_role = clamp_score-InScore _;
            in_latency = latency_score-InScore f region policy.max_latency_ms;
            in_party = clamp_score-InScore _;
            in_wait = clamp_score-InScore _;
          })
    ]

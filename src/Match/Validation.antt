-- ===== src/Match/Validation.antt =====
-- `NewMatch` normalises: a match's own parameters build that match again.
use match_mind.Game.Mode
use match_mind.Base.{arith, false, ok, subst, sym, ◌≡◌}
use match_mind.Clock.{is_zero}
use match_mind.Match.{
  NewMatchParams, Match, new_match, trim_params, incomplete, validated, build, fresh, bad_quality,
  validate_match_teams,
}
use match_mind.Text.{Text, text_laws}

record Checked (p : NewMatchParams) (mode_id : Text) : Type 0 where
  complete : incomplete p ≡ false
  mode_parsed : Mode.parse p.mode ≡ ok mode_id
  teams_valid : validate_match_teams p.side_a p.side_b ≡ ok tt
  quality_valid : bad_quality p.quality ≡ false

validated-Checked :
    (p : NewMatchParams) (m : Match) → validated p ≡ ok m → Checked p m.mode × (m ≡ build p m.mode)
unfolding validated
validated-Checked p m h = ground arith

Checked-validated :
    (p : NewMatchParams) (mode_id : Text) → Checked p mode_id → validated p ≡ ok (build p mode_id)
unfolding validated
Checked-validated p mode_id c = ground arith

trim_params_idem : (p : NewMatchParams) → trim_params (trim_params p) ≡ trim_params p
unfolding trim_params
trim_params_idem p = simp text_laws

module _ (p : NewMatchParams) (mode_id : Text) (c : Checked p mode_id) where
  build-trimmed :
      trim_params p ≡ p → trim_params (build p mode_id).params ≡ (build p mode_id).params
  unfolding trim_params
  build-trimmed h = ground (arith, Mode.trim_parsed p.mode mode_id c.mode_parsed)

  build-Checked : Checked (build p mode_id).params mode_id
  unfolding incomplete
  build-Checked = record {
    complete = ground (arith, Mode.parsed_not_empty p.mode mode_id c.mode_parsed);
    mode_parsed = Mode.parse_idem p.mode mode_id c.mode_parsed;
    teams_valid = c.teams_valid;
    quality_valid = c.quality_valid;
  }

  new_match-build : trim_params p ≡ p → new_match (build p mode_id).params ≡ ok (build p mode_id)
  unfolding new_match
  new_match-build h =
      rw (build-trimmed h) (Checked-validated (build p mode_id).params mode_id build-Checked)

-- A match that `NewMatch` returns is what `NewMatch` returns for its own parameters.
pub new_match_idem :
    (p : NewMatchParams) (m : Match) → new_match p ≡ ok m → new_match m.params ≡ ok m
unfolding new_match
new_match_idem p m h =
    let (c, e) = validated-Checked (trim_params p) m h in
    let again = new_match-build (trim_params p) m.mode c (trim_params_idem p) in
    subst (λ u. new_match u.params ≡ ok u) (sym e) again

pub new_match-fresh :
    (p : NewMatchParams) (m : Match)
    → new_match p ≡ ok m
    → (m.progress ≡ fresh m.created_at) × (is_zero m.created_at ≡ false)
unfolding new_match incomplete
new_match-fresh p m h =
    let (c, e) = validated-Checked (trim_params p) m h in ground (arith, e, c.complete)

-- ===== src/Ticket/Validation.antt =====
-- `NewTicket` normalises: a ticket's own parameters build that ticket again.
use match_mind.Game.Mode
use match_mind.Base.{ap, arith, false, ok, subst, sym, ◌∙◌, ◌≡◌}
use match_mind.Clock.{is_zero}
use match_mind.Text.{Text, text_laws}
use match_mind.Ticket.{
  NewTicketParams, MatchTicket, new_ticket, trim_params, incomplete, validated, build, fresh,
  validate_ticket_hero_proficiency, validate_ticket_latency, validate_ticket_roles,
}
use match_mind.Ticket.Proficiency.{clone_stable}

-- What a successful validation has checked.
pub record Checked (p : NewTicketParams) (mode_id : Text) : Type 0 where
  complete : incomplete p ≡ false
  mode_parsed : Mode.parse p.mode ≡ ok mode_id
  roles_valid : validate_ticket_roles p.preferred_roles ≡ ok tt
  latency_valid : validate_ticket_latency p.region_latency ≡ ok tt
  proficiency_valid : validate_ticket_hero_proficiency p.hero_proficiency ≡ ok tt

pub validated-Checked :
    (p : NewTicketParams) (t : MatchTicket)
    → validated p ≡ ok t
    → Checked p t.mode × (t ≡ build p t.mode)
unfolding validated
validated-Checked p t h = ground arith

Checked-validated :
    (p : NewTicketParams) (mode_id : Text) → Checked p mode_id → validated p ≡ ok (build p mode_id)
unfolding validated
Checked-validated p mode_id c = ground arith

trim_params_idem : (p : NewTicketParams) → trim_params (trim_params p) ≡ trim_params p
unfolding trim_params
trim_params_idem p = simp text_laws

module _ (p : NewTicketParams) (mode_id : Text) (c : Checked p mode_id) where
  build-trimmed :
      trim_params p ≡ p → trim_params (build p mode_id).params ≡ (build p mode_id).params
  unfolding trim_params
  build-trimmed h = ground (arith, Mode.trim_parsed p.mode mode_id c.mode_parsed)

  build-Checked : Checked (build p mode_id).params mode_id
  unfolding incomplete
  build-Checked = record {
    complete = ground (arith, Mode.parsed_not_empty p.mode mode_id c.mode_parsed);
    mode_parsed = Mode.parse_idem p.mode mode_id c.mode_parsed;
    roles_valid = c.roles_valid;
    latency_valid = c.latency_valid;
    proficiency_valid = (clone_stable p.hero_proficiency c.proficiency_valid).0;
  }

  build_idem : build (build p mode_id).params mode_id ≡ build p mode_id
  build_idem = rw ((clone_stable p.hero_proficiency c.proficiency_valid).1)

  new_ticket-build : trim_params p ≡ p → new_ticket (build p mode_id).params ≡ ok (build p mode_id)
  unfolding new_ticket
  new_ticket-build h =
      rw (build-trimmed h)
        (Checked-validated (build p mode_id).params mode_id build-Checked ∙ ap ok build_idem)

-- A ticket that `NewTicket` returns is what `NewTicket` returns for its own parameters.
pub new_ticket_idem :
    (p : NewTicketParams) (t : MatchTicket) → new_ticket p ≡ ok t → new_ticket t.params ≡ ok t
unfolding new_ticket
new_ticket_idem p t h =
    let (c, e) = validated-Checked (trim_params p) t h in
    let again = new_ticket-build (trim_params p) t.mode c (trim_params_idem p) in
    subst (λ u. new_ticket u.params ≡ ok u) (sym e) again

-- A new ticket is in the state CREATED, and was updated when it was created.
pub new_ticket-fresh :
    (p : NewTicketParams) (t : MatchTicket)
    → new_ticket p ≡ ok t
    → (t.progress ≡ fresh t.created_at) × (is_zero t.created_at ≡ false)
unfolding new_ticket incomplete
new_ticket-fresh p t h =
    let (c, e) = validated-Checked (trim_params p) t h in ground (arith, e, c.complete)

-- ===== src/Examples/Tickets.antt =====
-- A ticket that is created, queued, reserved and assigned.
use match_mind.Game.Mode
use match_mind.Game.Hero
use match_mind.Base.{[], ok, refl, ◌≡◌, lookup, contains, insert, arith}
use match_mind.Examples.Data.{ana, ana_params}
use match_mind.Float64.{unit, float_le, float_lt}
use match_mind.Game.Hero.{Hero}
use match_mind.Text.{codes, trim_space, to_lower, text_beq, text_eq}
use match_mind.Ticket.{
  MatchTicket, created, reserved, assigned, cancelled, new_ticket, queue, reserve, assign, cancel,
  restore_ticket, transition, clone_ticket_proficiency, validate_ticket_hero_proficiency,
  incomplete, trim_params, validate_ticket_roles, validate_ticket_latency, reservation_fits,
}
use match_mind.Ticket.History.{
  Step, History, IsConsistent, queues, cancels, reserves, assigns, here, followed_by,
}
use match_mind.Ticket.Restoring.{restore_ticket-History}

abbrev new_ana : MatchTicket
new_ana = record ana { progress = record ana.progress { state = created } }

new_ana_lem : new_ticket ana_params ≡ ok new_ana
unfolding new_ticket incomplete trim_params trim_space to_lower float_le float_lt unit Mode.parse
    Hero.get lookup text_beq validate_ticket_roles validate_ticket_latency
    validate_ticket_hero_proficiency contains insert clone_ticket_proficiency
new_ana_lem = refl

abbrev queued_ana : MatchTicket
queued_ana = record ana { progress = record ana.progress { updated_at = 7 } }

abbrev reserved_ana : MatchTicket
reserved_ana = record ana {
  progress = record {
    state = reserved;
    updated_at = 8;
    reservation_id = codes "r1";
    reservation_expires_at = 40;
    match_id = [];
  };
}

abbrev assigned_ana : MatchTicket
assigned_ana = record reserved_ana {
  progress = record reserved_ana.progress {
    state = assigned;
    updated_at = 9;
    match_id = codes "m1";
  };
}

queue-Step : Step new_ana queued_ana
unfolding queue transition
queue-Step = queues 7 (omega arith) refl

reserve-Step : Step queued_ana reserved_ana
unfolding reserve trim_space
reserve-Step = reserves (codes "r1 ") 40 8 (omega arith) refl

assign-Step : Step reserved_ana assigned_ana
unfolding assign trim_space text_beq
assign-Step = assigns (codes "r1") (codes " m1") 9 (omega arith) refl

life : History new_ana assigned_ana
life = followed_by (followed_by (followed_by here queue-Step) reserve-Step) assign-Step

restore_ticket-History_example : restore_ticket assigned_ana ≡ ok assigned_ana
restore_ticket-History_example = restore_ticket-History ana_params new_ana_lem life

abbrev cancelled_ana : MatchTicket
cancelled_ana = record ana { progress = record ana.progress { state = cancelled; updated_at = 8 } }

cancelled_again : History cancelled_ana cancelled_ana
unfolding cancel
cancelled_again = followed_by here (cancels 9 (omega arith) refl)

queued_ana-IsConsistent : IsConsistent queued_ana
unfolding reservation_fits trim_space
queued_ana-IsConsistent = record {
  fits = refl;
  reservation_trimmed = refl;
  match_trimmed = refl;
  updated = omega arith;
}

ana_proficiency_valid : validate_ticket_hero_proficiency ana_params.hero_proficiency ≡ ok tt
unfolding validate_ticket_hero_proficiency trim_space to_lower float_lt unit Hero.get lookup
    text_beq contains insert
ana_proficiency_valid = refl

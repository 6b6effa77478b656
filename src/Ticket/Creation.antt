-- ===== src/Ticket/Creation.antt =====
-- ticket.go: `NewTicket`, `RestoreTicket` and the validation that they share. Cloning a slice or a
-- map gives an equal value; only `cloneTicketProficiency` changes what it copies.
use match_mind.Game.Mode
use match_mind.Game.Hero
use match_mind.Base.{
  Bool, Eq, Error, List, Map, Result, [], arith, contains, err, false, if◌then◌else◌, insert,
  invalid_ticket, is_some, length, ltb, nat_beq, not, ok, reject_if, true, ◌>>=◌, ◌>>◌, ◌||◌, ◌↔◌,
  ◌∷◌, ◌≡◌,
}
use match_mind.Base.Int.{ltb_ℤ, pos, ℤ}
use match_mind.Clock.{Time, before, is_zero, utc, zero_time}
use match_mind.Float64.{Float64, float, float_le, float_lt, is_inf, is_nan}
use match_mind.Game.Hero.{Hero}
use match_mind.Text.{Text, is_empty, lower_trim, text_beq, text_beq_iff, trim_space, text_eq}
use match_mind.Ticket.Types.{
  TicketState, created, reserved, assigned, unsupported_state, Role, unsupported_role,
  NewTicketParams, Progress, MatchTicket, TicketSnapshot,
}

abbrev pub supported_role : Role → Bool
supported_role (unsupported_role r) = false
supported_role _ = true

abbrev pub role_beq : Role → Role → Bool
role_beq Role.vanguard Role.vanguard = true
role_beq Role.roamer Role.roamer = true
role_beq Role.core Role.core = true
role_beq Role.ranged Role.ranged = true
role_beq Role.support Role.support = true
role_beq (unsupported_role r) (unsupported_role s) = text_beq r s
role_beq _ _ = false

pub role_beq_iff : (r s : Role) → (role_beq r s ≡ true) ↔ (r ≡ s)
role_beq_iff (unsupported_role r) (unsupported_role s) = ground (arith, text_beq_iff r s)
role_beq_iff _ _ = ground arith

instance abbrev pub role_eq : Eq Role
role_eq = record { equal = role_beq; equal_iff = role_beq_iff }

unfoldable pub scan_roles : List Role → List Role → Result (Unit {0})
scan_roles seen [] = ok tt
scan_roles seen (r ∷ rs) =
    let rest = scan_roles (r ∷ seen) rs in
    if not (supported_role r) || contains r seen then err invalid_ticket else rest

unfoldable pub validate_ticket_roles : List Role → Result (Unit {0})
unfolding scan_roles
validate_ticket_roles roles = do
  reject_if (nat_beq (length roles) 0 || ltb 5 (length roles)) invalid_ticket
  scan_roles [] roles

unfoldable pub scan_latency : Map Text ℤ → Result (Unit {0})
scan_latency [] = ok tt
scan_latency ((region, latency) ∷ rest) =
    let others = scan_latency rest in
    if is_empty (trim_space region) || ltb_ℤ latency (pos 0) || ltb_ℤ (pos 1000) latency
    then err invalid_ticket
    else others

unfoldable pub validate_ticket_latency : Map Text ℤ → Result (Unit {0})
unfolding scan_latency
validate_ticket_latency latencies = do
  reject_if (nat_beq (length latencies) 0) invalid_ticket
  scan_latency latencies

-- A score outside 0 to 100, or none.
abbrev pub bad_score : Float64 → Bool
bad_score score =
    float_lt score (float 0) || float_lt (float 100) score || is_nan score || is_inf score

unfoldable pub scan_proficiency : List Text → Map Text Float64 → Result (Unit {0})
scan_proficiency seen [] = ok tt
scan_proficiency seen ((hero_id, score) ∷ rest) =
    let others = scan_proficiency (lower_trim hero_id ∷ seen) rest in
    if contains (lower_trim hero_id) seen || not (is_some (Hero.get hero_id)) || bad_score score
    then err invalid_ticket
    else others

unfoldable pub validate_ticket_hero_proficiency : Map Text Float64 → Result (Unit {0})
unfolding scan_proficiency
validate_ticket_hero_proficiency proficiency = do
  reject_if (ltb 100 (length proficiency)) invalid_ticket
  scan_proficiency [] proficiency

unfoldable pub clone_into : Map Text Float64 → Map Text Float64 → Map Text Float64
clone_into clone [] = clone
clone_into clone ((hero_id, score) ∷ rest) =
    clone_into (insert (lower_trim hero_id) score clone) rest

unfoldable pub clone_ticket_proficiency : Map Text Float64 → Map Text Float64
unfolding clone_into
clone_ticket_proficiency proficiency = clone_into [] proficiency

unfoldable pub trim_params : NewTicketParams → NewTicketParams
trim_params p = record p {
  id = trim_space p.id;
  player_id = trim_space p.player_id;
  party_id = trim_space p.party_id;
  mode = trim_space p.mode;
  client_version = trim_space p.client_version;
  region = lower_trim p.region;
}

-- The cases of the `switch` in `NewTicket`.
unfoldable pub incomplete : NewTicketParams → Bool
incomplete p =
    is_empty p.id
    || is_empty p.player_id
    || is_empty p.mode
    || is_empty p.client_version
    || is_empty p.region
    || (float_le p.rating (float 0) || is_nan p.rating || is_inf p.rating)
    || bad_score p.behavior_score
    || is_zero p.created_at

abbrev pub fresh : Time → Progress
fresh created_at = record {
  state = created;
  updated_at = created_at;
  reservation_id = [];
  reservation_expires_at = zero_time;
  match_id = [];
}

abbrev pub parse_mode : Error → Text → Result Text
parse_mode e mode = elim (Mode.parse mode) [ ok id ↦ ok id | err _ ↦ err e ]

-- The ticket that `NewTicket` returns for checked parameters.
abbrev pub build : NewTicketParams → Text → MatchTicket
build p mode_id = record {
  params = record p {
    mode = mode_id;
    hero_proficiency = clone_ticket_proficiency p.hero_proficiency;
    created_at = utc p.created_at;
  };
  progress = fresh (utc p.created_at);
}

unfoldable pub validated : NewTicketParams → Result MatchTicket
validated p = do
  reject_if (incomplete p) invalid_ticket
  mode_id ← parse_mode invalid_ticket p.mode
  validate_ticket_roles p.preferred_roles
  validate_ticket_latency p.region_latency
  validate_ticket_hero_proficiency p.hero_proficiency
  ok (build p mode_id)

unfoldable pub new_ticket : NewTicketParams → Result MatchTicket
unfolding validated
new_ticket params = validated (trim_params params)

-- The `switch` over the state in `RestoreTicket`: is the reservation data that of the state?
unfoldable pub reservation_fits : TicketState → Text → Time → Text → Bool
reservation_fits reserved reservation_id expires_at match_id =
    not (is_empty reservation_id || is_zero expires_at || not (is_empty match_id))
reservation_fits assigned reservation_id expires_at match_id =
    not (is_empty reservation_id || is_zero expires_at || is_empty match_id)
reservation_fits (unsupported_state s) reservation_id expires_at match_id = false
reservation_fits _ reservation_id expires_at match_id =
    not (not (is_empty reservation_id) || not (is_zero expires_at) || not (is_empty match_id))

unfoldable pub restore_ticket : TicketSnapshot → Result MatchTicket
restore_ticket snapshot = do
  ticket ← new_ticket snapshot.params
  reject_if (is_zero snapshot.updated_at || before snapshot.updated_at ticket.created_at)
      invalid_ticket
  let reservation_id = trim_space snapshot.reservation_id
  let match_id = trim_space snapshot.match_id
  reject_if
      (not
        (reservation_fits snapshot.state reservation_id snapshot.reservation_expires_at match_id))
      invalid_ticket
  ok (record ticket {
    progress = record {
      state = snapshot.state;
      updated_at = utc snapshot.updated_at;
      reservation_id = reservation_id;
      reservation_expires_at = utc snapshot.reservation_expires_at;
      match_id = match_id;
    };
  })

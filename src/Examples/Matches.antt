-- ===== src/Examples/Matches.antt =====
-- A match of ten players that is allocated and made ready, and two writers of its store.
use match_mind.Game.Mode
use match_mind.Base.{
  List, [], arith, err, if◌then◌else◌, insert, lookup, match_revision_conflict, none, ok, refl,
  some, ◌++◌, ◌==◌, ◌∷◌, ◌≡◌,
}
use match_mind.Base.Int.{pos, ◌+ℤ◌}
use match_mind.Float64.{float, float_ratio}
use match_mind.Match.{
  created, allocating, ready, Progress, NewMatchParams, incomplete, trim_params, Match, MatchPlayer,
  mark_ready, new_match, next_revision, restore_match, start_allocation,
}
use match_mind.Match.History.{History, allocates, readies, here, followed_by}
use match_mind.Match.Restoring.{restore_match-History}
use match_mind.Match.Revisions.{IsNumbered, revision-History}
use match_mind.MatchStore.{MatchStore, update}
use match_mind.MatchStore.Locking.{update_conflict}
use match_mind.Text.{Text, codes, text_beq, trim_space, text_eq}
use match_mind.Ticket.{Role, core, support, vanguard, roamer, ranged}

abbrev player : Text → Role → Text → MatchPlayer
player name role hero_id = record {
  player_id = name;
  ticket_id = codes "ticket-" ++ name;
  party_id = [];
  role = role;
  rating = float 1500;
  hero_id = hero_id;
  hero_proficiency = float 50;
  behavior_score = float 90;
}

abbrev five : Text → List MatchPlayer
five prefix =
    player (prefix ++ codes "1") vanguard (codes "ironwall")
    ∷ player (prefix ++ codes "2") roamer (codes "shadowstep")
    ∷ player (prefix ++ codes "3") core (codes "starblade")
    ∷ player (prefix ++ codes "4") ranged (codes "windshot")
    ∷ player (prefix ++ codes "5") support (codes "lifebloom")
    ∷ []

abbrev pub m1_params : NewMatchParams
m1_params = record {
  id = codes "m1 ";
  mode = codes "normal_5v5";
  side_a = record { id = codes "A"; players = five (codes "a"); average_rating = float 1500 };
  side_b = record { id = codes "B"; players = five (codes "b"); average_rating = float 1500 };
  server_region = codes "tokyo";
  policy_version = codes "v1-greedy";
  quality = record {
    total_score = float 80;
    skill_score = float 80;
    role_score = float 100;
    latency_score = float 90;
    party_score = float 100;
    wait_score = float 10;
    predicted_win_rate_a = float_ratio 1 2;
    predicted_win_rate_b = float_ratio 1 2;
    reasons = [];
  };
  created_at = 5;
}

abbrev pub m1 : Match
m1 = record {
  params = record m1_params { id = codes "m1" };
  progress = record {
    state = created;
    server_address = [];
    connection_token = [];
    result = none;
    revision = pos 1;
    updated_at = 5;
  };
}

pub new_m1 : new_match m1_params ≡ ok m1
unfolding new_match incomplete trim_params trim_space Mode.parse lookup text_beq
    match_mind.Text.to_lower match_mind.Match.validate_match_teams match_mind.Float64.float_le
    match_mind.Float64.unit match_mind.Game.Hero.get insert match_mind.Base.contains
    match_mind.Match.bad_quality match_mind.Float64.rounded
new_m1 = refl

abbrev pub allocating_m1 : Match
allocating_m1 = record m1 {
  progress = record m1.progress { state = allocating; revision = pos 2; updated_at = 7 };
}

abbrev pub ready_m1 : Match
ready_m1 = record m1 {
  progress = record {
    state = ready;
    server_address = codes "host:7000";
    connection_token = codes "token";
    result = none;
    revision = pos 3;
    updated_at = 8;
  };
}

m1_life : History m1 ready_m1
unfolding start_allocation mark_ready next_revision ◌+ℤ◌ trim_space
m1_life =
    followed_by (followed_by here (allocates 7 (omega arith) refl))
      (readies (codes "host:7000") (codes " token") 8 (omega arith) refl)

restore_match-History_example : restore_match ready_m1 ≡ ok ready_m1
restore_match-History_example = restore_match-History m1_params new_m1 m1_life

revision-History_example : IsNumbered ready_m1
revision-History_example = revision-History m1_params new_m1 m1_life

abbrev m1_store : MatchStore
m1_store = (codes "m1", m1) ∷ []

abbrev m1_store_after : MatchStore
m1_store_after = (codes "m1", allocating_m1) ∷ []

first_writer : update none m1_store allocating_m1 ≡ ok m1_store_after
unfolding update lookup insert next_revision ◌+ℤ◌ text_beq
first_writer = refl

update_conflict_example : update none m1_store_after allocating_m1 ≡ err match_revision_conflict
update_conflict_example =
    update_conflict none m1_store m1_store_after allocating_m1 allocating_m1 first_writer refl refl

-- ===== src/Examples/Players.antt =====
-- A player who is banned after a match.
use match_mind.Base.{[], ok, refl, true, ◌∷◌, ◌≡◌}
use match_mind.Base.Int.{pos}
use match_mind.Float64.{float, float_ratio}
use match_mind.Player.{
  Player, NewPlayerParams, RatingState, new_player, new_standing, with_rating_state, with_ban_state,
  restore_player, normalize_region_latency,
}
use match_mind.Player.Restoring.{
  PlayerLife, unchanged, changes, rates_state, bans, restore_player-PlayerLife,
}
use match_mind.Text.{codes}
use match_mind.Ticket.{core, support}

abbrev ana_player_params : NewPlayerParams
ana_player_params = record {
  id = codes "ana ";
  name = codes "Ana";
  initial_rating = float 1500;
  preferred_roles = core ∷ support ∷ [];
  home_region = codes "Tokyo";
  region_latency = (codes "Tokyo", pos 30) ∷ (codes "tokyo ", pos 20) ∷ [];
  behavior_score = float 90;
  hero_proficiency = (codes "Emberlord", float 70) ∷ [];
  created_at = 5;
}

abbrev ana_player : Player
ana_player = record {
  params = record ana_player_params {
    id = codes "ana";
    home_region = codes "tokyo";
    region_latency = (codes "tokyo", pos 20) ∷ [];
    hero_proficiency = (codes "emberlord", float 70) ∷ [];
  };
  standing = new_standing;
}

new_ana_player : new_player ana_player_params ≡ ok ana_player
unfolding new_player match_mind.Player.incomplete_player match_mind.Player.trim_player
    match_mind.Text.trim_space match_mind.Float64.float_le match_mind.Float64.unit
    match_mind.Text.to_lower match_mind.Float64.float_lt match_mind.Player.validate_hero_proficiency
    match_mind.Ticket.validate_ticket_hero_proficiency match_mind.Base.contains
    match_mind.Game.Hero.get match_mind.Base.lookup match_mind.Base.insert match_mind.Text.text_beq
    match_mind.Player.validate_roles match_mind.Player.validate_region_latency
    normalize_region_latency match_mind.Float64.rounded match_mind.Ticket.clone_ticket_proficiency
    match_mind.Player.note_latency
new_ana_player = refl

abbrev new_rating : RatingState
new_rating = record { rating = float 1520; deviation = float 200; volatility = float_ratio 6 100 }

abbrev rated_ana : Player
rated_ana = record ana_player {
  params = record ana_player.params { initial_rating = float 1520 };
  standing = record ana_player.standing { rating_deviation = float 200 };
}

abbrev banned_ana : Player
banned_ana = record rated_ana {
  standing = record rated_ana.standing {
    banned = true;
    ban_reason = codes "afk";
    banned_at = 9;
    banned_by = codes "cy";
  };
}

rated_lem : with_rating_state ana_player new_rating ≡ ok rated_ana
unfolding with_rating_state match_mind.Float64.float_lt match_mind.Float64.unit
    match_mind.Float64.rounded
rated_lem = refl

banned_lem : with_ban_state rated_ana true (codes "afk ") (codes "cy") 9 ≡ ok banned_ana
unfolding with_ban_state match_mind.Text.trim_space
banned_lem = refl

ana_life : PlayerLife ana_player banned_ana
ana_life =
    changes (changes unchanged (rates_state new_rating rated_lem))
      (bans true (codes "afk ") (codes "cy") 9 banned_lem)

restore_player-PlayerLife_example : restore_player banned_ana ≡ ok banned_ana
restore_player-PlayerLife_example =
    restore_player-PlayerLife ana_player_params new_ana_player ana_life

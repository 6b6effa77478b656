-- ===== src/Player/Restoring.antt =====
-- A player survives the store: `RestorePlayer` gives back what any history has made of a new player.
use match_mind.Base.{Bool, Map, arith, false, ok, refl, true, ◌≡◌}
use match_mind.Base.Int.{ℤ}
use match_mind.Clock.{Time}
use match_mind.Float64.{Float64, float, float_le, float_lt, rounded, unit}
use match_mind.Player.{
  Player, RatingState, ban_fits, checked_player, incomplete_player, new_player, new_standing,
  restore_player, restored_volatility, trim_player, valid_rating_value, validate_hero_proficiency,
  validate_region_latency, validate_roles, with_ban_state, with_rating, with_rating_state,
  with_region_latency, normalize_region_latency, NewPlayerParams, default_deviation,
  default_volatility,
}
use match_mind.Player.Regions.{normalize_region_latency_idem}
use match_mind.Text.{Text, trim_space, trim_space_idem, lower_trim_idem}
use match_mind.Ticket.{clone_ticket_proficiency, validate_ticket_hero_proficiency}
use match_mind.Ticket.Proficiency.{clone_stable}

pub data PlayerStep (p : Player) : Player → Type 0 where
  bans :
      {q : Player} (banned : Bool) (reason operator : Text) (now : Time)
      → with_ban_state p banned reason operator now ≡ ok q
      → PlayerStep p q
  measures :
      {q : Player} (latencies : Map Text ℤ)
      → with_region_latency p latencies ≡ ok q
      → PlayerStep p q
  rates : {q : Player} (rating : Float64) → with_rating p rating ≡ ok q → PlayerStep p q
  rates_state : {q : Player} (s : RatingState) → with_rating_state p s ≡ ok q → PlayerStep p q

pub data PlayerLife (p : Player) : Player → Type 0 where
  unchanged : PlayerLife p p
  changes : {q r : Player} → PlayerLife p q → PlayerStep q r → PlayerLife p r

-- What `NewPlayer` has checked and normalised.
pub record IsStored (p : Player) : Type 0 where
  pub trimmed : trim_player p.params ≡ p.params
  pub complete : incomplete_player p.params ≡ false
  pub heroes_valid : validate_hero_proficiency p.hero_proficiency ≡ ok tt
  pub heroes_cloned : clone_ticket_proficiency p.hero_proficiency ≡ p.hero_proficiency
  pub roles_valid : validate_roles p.preferred_roles ≡ ok tt
  pub latency_valid : validate_region_latency p.region_latency ≡ ok tt
  pub deviation_valid : float_le p.rating_deviation (float 0) ≡ false
  pub volatility_valid : valid_rating_value p.rating_volatility ≡ true
  pub ban_valid : ban_fits p.banned p.ban_reason p.banned_by p.banned_at ≡ true
  pub reason_trimmed : trim_space p.ban_reason ≡ p.ban_reason
  pub by_trimmed : trim_space p.banned_by ≡ p.banned_by

float_le-positive : (x : Float64) → float_lt (float 0) x ≡ true → float_le x (float 0) ≡ false
unfolding float_le float_lt
float_le-positive x h = ground arith

restored_volatility-positive :
    (x : Float64) → valid_rating_value x ≡ true → restored_volatility x ≡ x
unfolding float_le float_lt
restored_volatility-positive x h = ground arith

float_lt-positive : (x : Float64) → valid_rating_value x ≡ true → float_lt x (float 0) ≡ false
unfolding float_lt
float_lt-positive x h = ground arith

IsStored-new_player :
    (p : Player) → IsStored p → new_player p.params ≡ ok (record p { standing = new_standing })
unfolding new_player checked_player
IsStored-new_player p v =
    rw (v.trimmed, v.complete, v.heroes_valid, v.roles_valid, v.latency_valid, v.heroes_cloned) refl

pub IsStored-restore : (p : Player) → IsStored p → restore_player p ≡ ok p
unfolding restore_player
IsStored-restore p v =
    let same = IsStored-new_player p v in
    let kept = restored_volatility-positive p.rating_volatility v.volatility_valid in
    let above = float_lt-positive p.rating_volatility v.volatility_valid in
    rw (v.deviation_valid, kept, above, v.reason_trimmed, v.by_trimmed, v.ban_valid, same)
      (ground arith)

ban-IsStored :
    (p q : Player) (banned : Bool) (reason operator : Text) (now : Time)
    → with_ban_state p banned reason operator now ≡ ok q
    → IsStored p
    → IsStored q
unfolding with_ban_state ban_fits trim_space
ban-IsStored p q banned reason operator now h v =
    let same : q.params ≡ p.params = ground arith in
    record {
      trimmed = rw same v.trimmed;
      complete = rw same v.complete;
      heroes_valid = rw same v.heroes_valid;
      heroes_cloned = rw same v.heroes_cloned;
      roles_valid = rw same v.roles_valid;
      latency_valid = rw same v.latency_valid;
      deviation_valid = ground (arith, v.deviation_valid);
      volatility_valid = ground (arith, v.volatility_valid);
      ban_valid = ground arith;
      reason_trimmed = ground (arith, trim_space_idem reason);
      by_trimmed = ground (arith, trim_space_idem operator);
    }

latency-IsStored :
    (p : Player) (n : Map Text ℤ)
    → normalize_region_latency n ≡ n
    → validate_region_latency n ≡ ok tt
    → IsStored p
    → IsStored (record p { params = record p.params { region_latency = n } })
unfolding trim_player incomplete_player
latency-IsStored p n normal valid v = record {
  trimmed = λ i. record (v.trimmed i) { region_latency = normal i };
  complete = v.complete;
  heroes_valid = v.heroes_valid;
  heroes_cloned = v.heroes_cloned;
  roles_valid = v.roles_valid;
  latency_valid = valid;
  deviation_valid = v.deviation_valid;
  volatility_valid = v.volatility_valid;
  ban_valid = v.ban_valid;
  reason_trimmed = v.reason_trimmed;
  by_trimmed = v.by_trimmed;
}

rating-IsStored :
    (p : Player) (rating deviation volatility : Float64)
    → valid_rating_value rating ≡ true
    → float_le deviation (float 0) ≡ false
    → valid_rating_value volatility ≡ true
    → IsStored p
    → IsStored (record {
      params = record p.params { initial_rating = rating };
      standing = record p.standing { rating_deviation = deviation; rating_volatility = volatility };
    })
unfolding trim_player incomplete_player
rating-IsStored p rating deviation volatility good positive fine v = record {
  trimmed = λ i. record (v.trimmed i) { initial_rating = rating };
  complete = ground (arith, v.complete, float_le-positive rating);
  heroes_valid = v.heroes_valid;
  heroes_cloned = v.heroes_cloned;
  roles_valid = v.roles_valid;
  latency_valid = v.latency_valid;
  deviation_valid = positive;
  volatility_valid = fine;
  ban_valid = v.ban_valid;
  reason_trimmed = v.reason_trimmed;
  by_trimmed = v.by_trimmed;
}

pub PlayerStep-IsStored : {p q : Player} → PlayerStep p q → IsStored p → IsStored q
unfolding with_region_latency with_rating with_rating_state
PlayerStep-IsStored {p} {q} (bans banned reason operator now h) v =
    ban-IsStored p q banned reason operator now h v
PlayerStep-IsStored {p} {q} (measures latencies h) v =
    let n = normalize_region_latency latencies in
    let e : q ≡ record p { params = record p.params { region_latency = n } } = ground arith in
    rw e (latency-IsStored p n (normalize_region_latency_idem latencies) (ground arith) v)
PlayerStep-IsStored {p} {q} (rates rating h) v =
    let e : q ≡ record p { params = record p.params { initial_rating = rating } } = ground arith in
    rw e (
      rating-IsStored p rating p.rating_deviation p.rating_volatility (ground arith)
        v.deviation_valid v.volatility_valid v)
PlayerStep-IsStored {p} {q} (rates_state s h) v =
    let e : q ≡ record {
      params = record p.params { initial_rating = s.rating };
      standing = record p.standing {
        rating_deviation = s.deviation;
        rating_volatility = s.volatility;
      };
    } =
      ground arith in
    rw e (
      rating-IsStored p s.rating s.deviation s.volatility (ground arith)
        (float_le-positive s.deviation (ground arith)) (ground arith) v)

heroes-stable :
    (m : Map Text Float64)
    → validate_hero_proficiency m ≡ ok tt
    → (validate_hero_proficiency (clone_ticket_proficiency m) ≡ ok tt)
      × (clone_ticket_proficiency (clone_ticket_proficiency m) ≡ clone_ticket_proficiency m)
unfolding validate_hero_proficiency
heroes-stable m h =
    let valid : validate_ticket_hero_proficiency m ≡ ok tt = ground arith in
    let (again, stable) = clone_stable m valid in
    (rw (again, validate_hero_proficiency) refl, stable)

trim_player_idem : (p : NewPlayerParams) → trim_player (trim_player p) ≡ trim_player p
unfolding trim_player
trim_player_idem p = λ i. record p {
  id = trim_space_idem p.id i;
  name = trim_space_idem p.name i;
  home_region = lower_trim_idem p.home_region i;
  region_latency = normalize_region_latency_idem p.region_latency i;
}

default_deviation-positive : float_le default_deviation (float 0) ≡ false
unfolding float_le unit
default_deviation-positive = refl

default_volatility-valid : valid_rating_value default_volatility ≡ true
unfolding float_lt unit rounded
default_volatility-valid = refl

checked_player-IsStored :
    (p : NewPlayerParams) (a : Player) → trim_player p ≡ p → checked_player p ≡ ok a → IsStored a
unfolding checked_player trim_player incomplete_player ban_fits trim_space
checked_player-IsStored p a t h =
    let heroes : validate_hero_proficiency p.hero_proficiency ≡ ok tt = ground arith in
    let (again, stable) = heroes-stable p.hero_proficiency heroes in
    let e : a ≡ record {
      params = record p { hero_proficiency = clone_ticket_proficiency p.hero_proficiency };
      standing = new_standing;
    } =
      ground arith in
    rw e (record {
      trimmed =
          λ i. record (t i) { hero_proficiency = clone_ticket_proficiency p.hero_proficiency };
      complete = ground arith;
      heroes_valid = again;
      heroes_cloned = stable;
      roles_valid = ground arith;
      latency_valid = ground arith;
      deviation_valid = default_deviation-positive;
      volatility_valid = default_volatility-valid;
      ban_valid = refl;
      reason_trimmed = refl;
      by_trimmed = refl;
    })

pub new_player-IsStored : (p : NewPlayerParams) (a : Player) → new_player p ≡ ok a → IsStored a
unfolding new_player
new_player-IsStored p a h = checked_player-IsStored (trim_player p) a (trim_player_idem p) h

PlayerLife-IsStored : {p q : Player} → PlayerLife p q → IsStored p → IsStored q
PlayerLife-IsStored unchanged v = v
PlayerLife-IsStored (changes r s) v = PlayerStep-IsStored s (PlayerLife-IsStored r v)

-- When `NewPlayer` makes a player and any sequence of successful calls of `WithBanState`,
-- `WithRegionLatency`, `WithRating` and `WithRatingState` leads to `q`, `RestorePlayer` of the snapshot of
-- `q` succeeds with `q`.
pub restore_player-PlayerLife :
    (params : NewPlayerParams) {p q : Player}
    → new_player params ≡ ok p
    → PlayerLife p q
    → restore_player q ≡ ok q
restore_player-PlayerLife params {p} {q} h r =
    IsStored-restore q (PlayerLife-IsStored r (new_player-IsStored params p h))

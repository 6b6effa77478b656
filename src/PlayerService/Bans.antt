-- ===== src/PlayerService/Bans.antt =====
-- What `GetPlayerBanStates` returns for each ID.
use mathlib.Core.Option
use match_mind.Base.{
  Bool, Bool-cases, Context, List, Map, Option, Option-cases, Result-cases, [], ap, arith, contains,
  if◌then◌else◌, inl, inr, insert, is_some, lookup, lookup-insert, map, none, ok, refl, sym, ◌&&◌,
  ◌||◌, ◌∙◌, ◌∷◌, ◌≡◌,
}
use match_mind.PlayerService.{get_player_ban_states, normalize_ids}
use match_mind.PlayerStore.{PlayerStore, collect_bans, get_ban_states}
use match_mind.Text.{Text, text_beq_iff, trim_space, text_eq}
use match_mind.Ticket.Proficiency.{normal}

-- The ban of a stored player.
abbrev pub ban_of : PlayerStore → Text → Option Bool
ban_of s id = Option.map (λ p. p.banned) (lookup id s.players)

contains-normalize_ids :
    (id : Text) (seen raws ids : List Text)
    → normalize_ids seen raws ≡ ok ids
    → (contains id ids || contains id seen)
      ≡ (contains id (map trim_space raws) || contains id seen)
unfolding normalize_ids contains
contains-normalize_ids id seen [] ids h = ground arith
contains-normalize_ids id seen (raw ∷ raws) ids h =
    elim (Bool-cases (contains (trim_space raw) seen)) [
      | inl known ↦
          let rest : normalize_ids seen raws ≡ ok ids = ground arith in
          ground
            (arith, contains-normalize_ids id seen raws ids rest, text_beq_iff (trim_space raw) id)
      | inr new ↦ elim (Result-cases (normalize_ids (trim_space raw ∷ seen) raws)) [
        | inr (e, refused) ↦ absurd (ground arith)
        | inl (more, rest) ↦
            ground (arith, contains-normalize_ids id (trim_space raw ∷ seen) raws more rest)
      ]
    ]

collect_bans_lem :
    (s : PlayerStore) (ids : List Text) (result : Map Text Bool) (id : Text)
    → lookup id (collect_bans s.players ids result)
      ≡ (if contains id ids && is_some (lookup id s.players) then ban_of s id else lookup id result)
unfolding collect_bans contains
collect_bans_lem s [] result id = refl
collect_bans_lem s (i ∷ ids) result id = elim (Option-cases (lookup i s.players)) [
  | inl missing ↦
      rw (missing, collect_bans)
        (ground (arith, collect_bans_lem s ids result id, text_beq_iff i id))
  | inr (p, found) ↦
      rw (found, collect_bans)
        (ground (
          arith,
          collect_bans_lem s ids (insert i p.banned result) id,
          lookup-insert i id p.banned result,
          text_beq_iff i id,
        ))
]

-- When `GetPlayerBanStates` succeeds, its result is that of the direct description: for an ID that is one
-- of the requested IDs after trimming it has the ban of the stored player, and no entry where there is
-- none, and it has no entry for any other ID.
pub get_player_ban_states_lem :
    (ctx : Context) (s : PlayerStore) (player_ids : List Text) (bans : Map Text Bool)
    → get_player_ban_states ctx s player_ids ≡ ok bans
    → (id : Text)
    → lookup id bans ≡ (if contains id (map trim_space player_ids) then ban_of s id else none)
unfolding get_player_ban_states get_ban_states lookup contains
get_player_ban_states_lem ctx s player_ids bans h id =
    elim (Result-cases (normalize_ids [] player_ids)) [
      | inr (e, refused) ↦ absurd (ground arith)
      | inl (ids, normal) ↦
          let e : collect_bans s.players ids [] ≡ bans = ground arith in
          let same : contains id ids ≡ contains id (map trim_space player_ids) =
            ground (arith, contains-normalize_ids id [] player_ids ids normal) in
          ap (lookup id) (sym e) ∙ collect_bans_lem s ids [] id ∙ ground (arith, same)
    ]

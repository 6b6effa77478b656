-- ===== src/MatchStore.antt =====
-- internal/matchmaking/repository/memory/match_store.go: the matches of one process, with an optimistic lock
-- on the revision. A method holds the store's lock, so a call is one step.
pub mod Locking
use match_mind.Base.{
  Bool, Context, List, Map, Result, check_context, if◌then◌else◌, insert, is_some, keep, length,
  lookup, match_already_exists, match_not_found, match_revision_conflict, nat_beq, not, ok, or_fail,
  reject_if, sort_stable, take, values, ◌&&◌, ◌==◌, ◌>>=◌, ◌>>◌, ◌||◌,
}
use match_mind.Base.Int.{ltb_ℤ, pos, pos_part, ℤ, int_beq}
use match_mind.Clock.{Time, after, before, is_zero}
use match_mind.Match.{Match, MatchState, finished, state_beq, next_revision}
use match_mind.Text.{Text, is_empty, text_lt, trim_space, text_eq}

abbrev pub MatchStore : Type 0
MatchStore = Map Text Match

unfoldable pub create : Context → MatchStore → Match → Result MatchStore
create ctx s m = do
  check_context ctx
  reject_if (is_some (lookup m.id s)) match_already_exists
  ok (insert m.id m s)

unfoldable pub get : Context → MatchStore → Text → Result Match
get ctx s match_id = do check_context ctx; or_fail (lookup (trim_space match_id) s) match_not_found

unfoldable pub update : Context → MatchStore → Match → Result MatchStore
update ctx s m = do
  check_context ctx
  current ← or_fail (lookup m.id s) match_not_found
  reject_if (not (int_beq m.revision (next_revision current.revision))) match_revision_conflict
  ok (insert m.id m s)

pub record MatchHistoryFilter : Type 0 where
  pub policy_version : Text
  pub mode : Text
  pub server_region : Text
  pub from : Time
  pub to : Time
  pub limit : ℤ

-- Is the match in the history that the filter asks for?
unfoldable pub selected : MatchHistoryFilter → Match → Bool
selected f m = not (
    not (state_beq m.state finished)
    || (not (is_empty f.policy_version) && not (m.policy_version == f.policy_version))
    || (not (is_empty f.mode) && not (m.mode == f.mode))
    || (not (is_empty f.server_region) && not (m.server_region == f.server_region))
    || (not (is_zero f.from) && before m.created_at f.from)
    || (not (is_zero f.to) && not (before m.created_at f.to)))

-- Later first, and by falling ID among those of one time.
abbrev pub newer : Match → Match → Bool
newer m n =
    if nat_beq m.created_at n.created_at then text_lt n.id m.id else after m.created_at n.created_at

-- `result[:filter.Limit]` where the limit is positive and below the length.
abbrev pub limited {ℓ} : {A : Type ℓ} → ℤ → List A → List A
limited limit xs =
    if ltb_ℤ (pos 0) limit && ltb_ℤ limit (pos (length xs)) then take (pos_part limit) xs else xs

unfoldable pub list_finished : Context → MatchStore → MatchHistoryFilter → Result (List Match)
unfolding selected
list_finished ctx s f = do
  check_context ctx
  ok (limited f.limit (sort_stable newer (keep (selected f) (values s))))

-- ===== src/Match/Revisions.antt =====
-- The revision of a match counts the changes that were made to it, which is what the optimistic lock of
-- `MatchStore.Update` compares.
use match_mind.Base.{arith, ok, suc, true, ℕ, ◌≡◌, ◌≤◌}
use match_mind.Base.Int.{neg_part, pos_part, ℤ, ◌+ℤ◌}
use match_mind.Match.{
  Match, MatchState, created, allocating, ready, running, NewMatchParams, new_match,
  start_allocation, mark_ready, start, complete, fail, can_fail, next_revision,
  validate_match_result,
}
use match_mind.Match.History.{
  Step, History, allocates, readies, starts, completes, fails, here, followed_by,
}
use match_mind.Match.Validation.{new_match-fresh}

-- How far a state is from CREATED, at most.
abbrev pub rank : MatchState → ℕ
rank created = 0
rank allocating = 1
rank ready = 2
rank running = 3
rank _ = 4

pub record IsNumbered (m : Match) : Type 0 where
  pub positive : 1 ≤ pos_part m.revision
  pub no_sign : neg_part m.revision ≡ 0
  pub bounded : pos_part m.revision ≤ suc (rank m.state)
  pub exact : can_fail m.state ≡ true → pos_part m.revision ≡ suc (rank m.state)

next_revision_small :
    (r : ℤ)
    → neg_part r ≡ 0
    → pos_part r ≤ 5
    → (pos_part (next_revision r) ≡ suc (pos_part r)) × (neg_part (next_revision r) ≡ 0)
unfolding next_revision ◌+ℤ◌
next_revision_small r h k = (ground arith, ground arith)

Step-IsNumbered : {m n : Match} → Step m n → IsNumbered m → IsNumbered n
unfolding start_allocation mark_ready start complete fail validate_match_result
Step-IsNumbered {m} (allocates now h e) c = ground (arith, next_revision_small m.revision c.no_sign)
Step-IsNumbered {m} (readies address token now h e) c =
    ground (arith, next_revision_small m.revision c.no_sign)
Step-IsNumbered {m} (starts now h e) c = ground (arith, next_revision_small m.revision c.no_sign)
Step-IsNumbered {m} (completes result now h e) c =
    ground (arith, next_revision_small m.revision c.no_sign)
Step-IsNumbered {m} (fails now h e) c = ground (arith, next_revision_small m.revision c.no_sign)

History-IsNumbered : {m n : Match} → IsNumbered m → History m n → IsNumbered n
History-IsNumbered c here = c
History-IsNumbered c (followed_by r s) = Step-IsNumbered s (History-IsNumbered c r)

-- After any sequence of successful calls on a new match, each at a time not before its creation, its
-- revision is 1 plus the number of its state in the line CREATED, ALLOCATING, READY, RUNNING while it is
-- open, and never above 5: the int64 does not wrap.
pub revision-History :
    (p : NewMatchParams) {m n : Match} → new_match p ≡ ok m → History m n → IsNumbered n
revision-History p {m} h r =
    let (e, _) = new_match-fresh p m h in History-IsNumbered (ground arith) r

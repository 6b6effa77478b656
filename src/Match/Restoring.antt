-- ===== src/Match/Restoring.antt =====
-- A match survives the store: `RestoreMatch` gives back what any history has made of a new match.
use match_mind.Base.{arith, false, ok, ◌≡◌, sym}
use match_mind.Base.Int.{ltb_ℤ, pos}
use match_mind.Clock.{is_zero}
use match_mind.Match.{
  Match, NewMatchParams, new_match, restore_match, state_fits, validate_restored_match_state,
}
use match_mind.Match.History.{History, IsConsistent, History-IsConsistent, History-params}
use match_mind.Match.Revisions.{revision-History}
use match_mind.Match.Validation.{new_match-fresh, new_match_idem}
use match_mind.Text.{trim_space}

new_match-IsConsistent : (p : NewMatchParams) (m : Match) → new_match p ≡ ok m → IsConsistent m
unfolding state_fits trim_space
new_match-IsConsistent p m h = let (e, _) = new_match-fresh p m h in ground arith

restore-IsConsistent :
    (m n : Match)
    → new_match n.params ≡ ok m
    → m.params ≡ n.params
    → is_zero n.created_at ≡ false
    → ltb_ℤ n.revision (pos 1) ≡ false
    → IsConsistent n
    → restore_match n ≡ ok n
unfolding restore_match validate_restored_match_state
restore-IsConsistent m n h e z r c = ground arith

-- When `NewMatch` makes a match and any sequence of successful calls of its methods, each at a time not
-- before its creation, leads to `n`, `RestoreMatch` of the snapshot of `n` succeeds with `n` itself.
pub restore_match-History :
    (p : NewMatchParams) {m n : Match} → new_match p ≡ ok m → History m n → restore_match n ≡ ok n
restore_match-History p {m} {n} h r =
    let e = History-params r in
    let again : new_match n.params ≡ ok m = rw e (new_match_idem p m h) in
    let numbered = revision-History p h r in
    restore-IsConsistent m n again (sym e) (rw e ((new_match-fresh p m h).1)) (ground arith)
      (History-IsConsistent (new_match-IsConsistent p m h) r)

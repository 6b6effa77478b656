-- ===== src/MatchStore/Locking.antt =====
-- The optimistic lock of `MatchStore.Update`.
use match_mind.Base.{
  Context, Option-cases, arith, err, false, if◌then◌else◌, inl, inr, lookup, lookup-insert,
  match_revision_conflict, none, ok, some, true, ◌==◌, ◌≡◌,
}
use match_mind.Base.Int.{ℤ, ◌+ℤ◌, int_beq}
use match_mind.Match.{Match, next_revision}
use match_mind.MatchStore.{MatchStore, update}
use match_mind.Text.{Text, text_beq_iff, text_eq}

next_revision_ne : (r : ℤ) → int_beq r (next_revision r) ≡ false
unfolding next_revision ◌+ℤ◌
next_revision_ne r = ground arith

int_beq-eq : (a b : ℤ) → int_beq a b ≡ true → a ≡ b
int_beq-eq a b h = ground arith

-- When `MatchStore.Update` has written a match, a second update of the same ID and the same revision is
-- refused as a revision conflict.
pub update_conflict :
    (ctx : Context) (s s' : MatchStore) (m n : Match)
    → update ctx s m ≡ ok s'
    → n.id ≡ m.id
    → n.revision ≡ m.revision
    → update none s' n ≡ err match_revision_conflict
unfolding update
update_conflict ctx s s' m n h same lock = elim (Option-cases (lookup m.id s)) [
  | inl missing ↦ ground arith
  | inr (current, found) ↦
      ground
        (arith, next_revision_ne m.revision, lookup-insert m.id m.id m s, text_beq_iff m.id m.id)
]

-- An update that succeeds replaces the match of its ID by the next revision and touches no other match.
pub update_lem :
    (ctx : Context) (s s' : MatchStore) (m : Match)
    → update ctx s m ≡ ok s'
    → (current : Match) × (lookup m.id s ≡ some current)
      × (m.revision ≡ next_revision current.revision)
      × ((q : Text) → lookup q s' ≡ (if m.id == q then some m else lookup q s))
unfolding update
update_lem ctx s s' m h = elim (Option-cases (lookup m.id s)) [
  | inl missing ↦ absurd (ground arith)
  | inr (current, found) ↦ (
    current,
    found,
    ground (arith, int_beq-eq m.revision (next_revision current.revision)),
    λ q. ground (arith, lookup-insert m.id q m s),
  )
]

-- ===== src/Base/Results.antt =====
-- Go's `(value, error)` results. A sentinel error is a constructor; the text that `fmt.Errorf`
-- wraps round it is left out. `external` stands for an error of code that is not in the repository.
use Prim.Native.Nat.{ℕ}
use mathlib.Core.Path.{◌≡◌, refl}
use mathlib.Core.Logic.{◌⊎◌, inl, inr}
use mathlib.Core.Bool.{Bool, true, false}
use mathlib.Core.Option.{Option, none, some}

pub data Error : Type 0 where
  invalid_ticket illegal_state_transition reservation_mismatch reservation_not_expired : Error
  invalid_match illegal_match_transition invalid_policy unsupported_mode unknown_role : Error
  idempotency_key_required player_banned ticket_not_found active_ticket_exists ticket_forbidden
        reservation_conflict :
      Error
  match_not_found match_already_exists match_revision_conflict : Error
  no_server_capacity invalid_server_capacity : Error
  policy_not_found invalid_experiment experiment_active experiment_not_active : Error
  invalid_agent_run invalid_proposal illegal_proposal_state : Error
  separation_of_duties risk_review_blocked : Error
  invalid_player invalid_rating_change : Error
  player_already_exists player_not_found invalid_match_result rating_conflict : Error
  no_queued_tickets insufficient_players no_valid_team_split no_match_available : Error
  no_suitable_server_region : Error
  -- A method call on a nil pointer, which panics.
  nil_dereference : Error
  external : ℕ → Error

pub data Result {ℓ} (A : Type ℓ) : Type ℓ where
  ok : A → Result A
  err : Error → Result A

-- Go on with the value, or return the error.
infixl 5 ◌>>=◌
abbrev pub ◌>>=◌ {κ ℓ} : {S : Type κ} {B : Type ℓ} → Result S → (S → Result B) → Result B
err x >>= next = err x
ok s >>= next = next s

-- Go on after a check.
infixl 5 ◌>>◌
abbrev pub ◌>>◌ {ℓ} : {B : Type ℓ} → Result (Unit {0}) → Result B → Result B
check >> next = check >>= λ u. next

-- `if failed { return err }`.
abbrev pub reject_if : Bool → Error → Result (Unit {0})
reject_if true e = err e
reject_if false e = ok tt

-- `value, exists := m[k]; if !exists { return err }`.
abbrev pub or_fail {ℓ} : {A : Type ℓ} → Option A → Error → Result A
or_fail none e = err e
or_fail (some a) e = ok a

-- What `ctx.Err()` returns when the call begins.
abbrev pub Context : Type 0
Context = Option Error

abbrev pub check_context : Context → Result (Unit {0})
check_context none = ok tt
check_context (some e) = err e

-- The state after a call that may fail: `keep` if it fails.
abbrev pub state_or {ℓ κ} : {S : Type ℓ} {A : Type κ} → S → Result (S × A) → S
state_or s (ok (s', a)) = s'
state_or s (err e) = s

pub Result-cases {ℓ} :
    {A : Type ℓ} (r : Result A) → ((a : A) × (r ≡ ok a)) ⊎ ((e : Error) × (r ≡ err e))
Result-cases (ok a) = inl (a, refl)
Result-cases (err e) = inr (e, refl)

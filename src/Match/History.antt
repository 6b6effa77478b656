-- ===== src/Match/History.antt =====
-- The calls that a match sees in its life, as a step relation: each constructor is a method that succeeds at
-- a time not before the creation of the match.
use match_mind.Base.{arith, not, ok, refl, true, ◌∙◌, ◌≡◌, ◌≤◌}
use match_mind.Clock.{Time}
use match_mind.Match.{
  Match, MatchResult, start_allocation, mark_ready, start, complete, fail, state_fits,
  validate_match_result,
}
use match_mind.Text.{Text, is_empty, trim_space, trim_space_idem}

pub data Step (m : Match) : Match → Type 0 where
  allocates :
      {n : Match} (now : Time) → m.created_at ≤ now → start_allocation m now ≡ ok n → Step m n
  readies :
      {n : Match} (address token : Text) (now : Time)
      → m.created_at ≤ now
      → mark_ready m address token now ≡ ok n
      → Step m n
  starts : {n : Match} (now : Time) → m.created_at ≤ now → start m now ≡ ok n → Step m n
  completes :
      {n : Match} (result : MatchResult) (now : Time)
      → m.created_at ≤ now
      → complete m result now ≡ ok n
      → Step m n
  fails : {n : Match} (now : Time) → m.created_at ≤ now → fail m now ≡ ok n → Step m n

pub data History (m : Match) : Match → Type 0 where
  here : History m m
  followed_by : {n k : Match} → History m n → Step n k → History m k

-- A match has an address and a token from READY on, a valid result exactly when it is FINISHED, and an update
-- time not before its creation.
pub record IsConsistent (m : Match) : Type 0 where
  pub paired : is_empty m.server_address ≡ is_empty m.connection_token
  pub fits : state_fits m.state (not (is_empty m.server_address)) m.result ≡ true
  pub address_trimmed : trim_space m.server_address ≡ m.server_address
  pub token_trimmed : trim_space m.connection_token ≡ m.connection_token
  pub updated : m.created_at ≤ m.updated_at

pub Step-IsConsistent : {m n : Match} → Step m n → IsConsistent m → IsConsistent n
unfolding state_fits start_allocation mark_ready start complete fail validate_match_result
    trim_space
Step-IsConsistent (allocates now h e) c = ground arith
Step-IsConsistent (readies address token now h e) c =
    ground (arith, trim_space_idem address, trim_space_idem token)
Step-IsConsistent (starts now h e) c = ground arith
Step-IsConsistent (completes result now h e) c = ground arith
Step-IsConsistent (fails now h e) c = ground arith

pub Step-params : {m n : Match} → Step m n → n.params ≡ m.params
unfolding start_allocation mark_ready start complete fail validate_match_result
Step-params (allocates now h e) = ground arith
Step-params (readies address token now h e) = ground arith
Step-params (starts now h e) = ground arith
Step-params (completes result now h e) = ground arith
Step-params (fails now h e) = ground arith

pub History-IsConsistent : {m n : Match} → IsConsistent m → History m n → IsConsistent n
History-IsConsistent c here = c
History-IsConsistent c (followed_by r s) = Step-IsConsistent s (History-IsConsistent c r)

pub History-params : {m n : Match} → History m n → n.params ≡ m.params
History-params here = refl
History-params (followed_by r s) = Step-params s ∙ History-params r

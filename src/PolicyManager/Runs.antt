-- ===== src/PolicyManager/Runs.antt =====
-- The registry under any sequence of calls.
use match_mind.Base.{
  List, Map, Result, Result-cases, [], arith, err, false, inl, inr, insert, lookup, lookup-insert,
  ok, some, true, ◌∷◌, ◌≡◌, Bool-cases, Option-cases, is_some, ℕ, subst, sym,
}
use match_mind.Base.Int.{ltb_ℤ, pos}
use match_mind.Policy.{MatchPolicy, validate}
use match_mind.PolicyManager.{
  PolicyExperiment, PolicyManager, activate_approved_policy, conflicts, normalize_experiment,
  register_policy, start_experiment, stop_experiment, new_policy_manager,
}
use match_mind.PolicyManager.Activation.{
  activate-Checked, activate_approved_policy-IsSound, switch_experiment-or,
}
use match_mind.PolicyManager.Equality.{policy_beq-eq}
use match_mind.PolicyManager.Registry.{
  IsSound, register_policy-IsSound, start_experiment-IsSound, stop_experiment-IsSound, AllValid,
  new_policy_manager-IsSound,
}
use match_mind.PolicyManager.Selection.{experiment_bucket, policy_of, select_policy}
use match_mind.Text.{Text, text_beq_iff, text_eq}

-- A call that changes the registry.
pub data ManagerCall : Type 0 where
  registers : MatchPolicy → ManagerCall
  activates : MatchPolicy → PolicyExperiment → ManagerCall
  begins : PolicyExperiment → ManagerCall
  stops : Text → ManagerCall

unfoldable pub apply_call : PolicyManager → ManagerCall → Result PolicyManager
apply_call m (registers p) = register_policy m p
apply_call m (activates p e) = activate_approved_policy m p e
apply_call m (begins e) = start_experiment m e
apply_call m (stops id) = stop_experiment m id

-- The registry after a call; a call that fails leaves it as it was.
abbrev pub or_unchanged : PolicyManager → Result PolicyManager → PolicyManager
or_unchanged m (ok m') = m'
or_unchanged m (err e) = m

unfoldable pub apply_calls : PolicyManager → List ManagerCall → PolicyManager
unfolding apply_call
apply_calls m [] = m
apply_calls m (c ∷ cs) = apply_calls (or_unchanged m (apply_call m c)) cs

apply_call-IsSound :
    (m m' : PolicyManager) (c : ManagerCall) → apply_call m c ≡ ok m' → IsSound m → IsSound m'
unfolding apply_call
apply_call-IsSound m m' (registers p) h v = register_policy-IsSound m m' p h v
apply_call-IsSound m m' (activates p e) h v = activate_approved_policy-IsSound m m' p e h v
apply_call-IsSound m m' (begins e) h v = start_experiment-IsSound m m' e h v
apply_call-IsSound m m' (stops id) h v = stop_experiment-IsSound m m' id h v

or_unchanged-IsSound :
    (m : PolicyManager) (c : ManagerCall) → IsSound m → IsSound (or_unchanged m (apply_call m c))
or_unchanged-IsSound m c v = elim (Result-cases (apply_call m c)) [
  | inl (m', e) ↦ rw e (apply_call-IsSound m m' c e v)
  | inr (x, e) ↦ rw e v
]

pub apply_calls-IsSound :
    (m : PolicyManager) (cs : List ManagerCall) → IsSound m → IsSound (apply_calls m cs)
unfolding apply_calls
apply_calls-IsSound m [] v = v
apply_calls-IsSound m (c ∷ cs) v =
    apply_calls-IsSound (or_unchanged m (apply_call m c)) cs (or_unchanged-IsSound m c v)

policy_of-valid :
    (m : PolicyManager) (v : Text)
    → AllValid m.policies
    → is_some (lookup v m.policies) ≡ true
    → validate (policy_of m v) ≡ ok tt
policy_of-valid m v all has = elim (Option-cases (lookup v m.policies)) [
  | inl missing ↦ ground arith
  | inr (p, found) ↦
      let e : policy_of m v ≡ p = ground arith in
      subst (λ x. validate x ≡ ok tt) (sym e) ((all v p found).0)
]

IsSound-select :
    (digest : Text → ℕ) (m : PolicyManager) (key : Text)
    → IsSound m
    → validate (select_policy digest m key).policy ≡ ok tt
unfolding select_policy
IsSound-select digest m key v = elim (Option-cases m.experiment) [
  | inl idle ↦ rw idle (policy_of-valid m m.default_version v.all_valid v.has_default)
  | inr (e, found) ↦
      elim (Bool-cases (ltb_ℤ (pos (experiment_bucket digest e key)) e.treatment_basis_points)) [
        | inl treated ↦
            rw (found, treated)
              (policy_of-valid m e.treatment_version v.all_valid (v.has_treatment e found))
        | inr control ↦
            rw (found, control)
              (policy_of-valid m e.control_version v.all_valid (v.has_control e found))
      ]
]

-- A policy that does not conflict replaces nothing but itself.
insert-keeps :
    (p q : MatchPolicy) (v : Text) (m : Map Text MatchPolicy)
    → conflicts p m ≡ false
    → lookup v m ≡ some q
    → lookup v (insert p.version p m) ≡ some q
insert-keeps p q v m h found =
    ground (arith, lookup-insert p.version v p m, text_beq_iff p.version v, policy_beq-eq q p)

apply_call-keeps :
    (m m' : PolicyManager) (c : ManagerCall) (v : Text) (p : MatchPolicy)
    → apply_call m c ≡ ok m'
    → lookup v m.policies ≡ some p
    → lookup v m'.policies ≡ some p
unfolding apply_call start_experiment register_policy stop_experiment
apply_call-keeps m m' (registers q) v p h found = ground (arith, insert-keeps q p v m.policies)
apply_call-keeps m m' (activates q e) v p h found =
    let (n, c) = activate-Checked m m' q e h in
    elim (switch_experiment-or m m' q n c.switched) [
      | inl same ↦ rw same found
      | inr new ↦ rw new (insert-keeps q p v m.policies c.agrees found)
    ]
apply_call-keeps m m' (begins e) v p h found = elim (Result-cases (normalize_experiment e)) [
  | inr (x, bad) ↦ ground arith
  | inl (n, good) ↦ ground arith
]
apply_call-keeps m m' (stops id) v p h found = ground arith

-- A policy that is registered under a version is still registered under it, unchanged, after any calls of
-- the registry.
pub registered_forever :
    (m : PolicyManager) (cs : List ManagerCall) (v : Text) (p : MatchPolicy)
    → lookup v m.policies ≡ some p
    → lookup v (apply_calls m cs).policies ≡ some p
unfolding apply_calls
registered_forever m [] v p found = found
registered_forever m (c ∷ cs) v p found =
    registered_forever (or_unchanged m (apply_call m c)) cs v p
      (elim (Result-cases (apply_call m c)) [
        | inl (m', e) ↦ rw e (apply_call-keeps m m' c v p e found)
        | inr (x, e) ↦ rw e found
      ])

-- Whatever calls a new registry has seen, the policy that it selects for a player has passed `Validate`,
-- with or without an experiment.
pub select_policy-valid :
    (digest : Text → ℕ) (ps : List MatchPolicy) (default_version : Text) (m : PolicyManager)
    (cs : List ManagerCall) (key : Text)
    → new_policy_manager ps default_version ≡ ok m
    → validate (select_policy digest (apply_calls m cs) key).policy ≡ ok tt
select_policy-valid digest ps default_version m cs key h =
    IsSound-select digest (apply_calls m cs) key
      (apply_calls-IsSound m cs (new_policy_manager-IsSound ps default_version m h))

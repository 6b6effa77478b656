-- ===== src/PolicyManager/Registry.antt =====
-- What holds of the registry between two calls, and what a call never changes.
use match_mind.Base.{
  Bool-cases, List, Map, [], arith, inl, inr, insert, is_some, lookup, lookup-insert, ok, some,
  true, ◌==◌, ◌∷◌, ◌≡◌, Result-cases,
}
use match_mind.Policy.{MatchPolicy, validate}
use match_mind.PolicyManager.{
  PolicyExperiment, PolicyManager, new_policy_manager, register_all, normalize_experiment,
  register_policy, start_experiment, stop_experiment, with_experiment,
}
use match_mind.Text.{Text, text_beq_iff, text_eq}

-- Each registered policy is valid and stands under its version.
abbrev pub AllValid : Map Text MatchPolicy → Type 0
AllValid policies =
    (v : Text) (p : MatchPolicy)
    → lookup v policies ≡ some p
    → (validate p ≡ ok tt) × (p.version ≡ v)

-- The default policy is registered, and so are the two of a running experiment.
pub record IsSound (m : PolicyManager) : Type 0 where
  pub all_valid : AllValid m.policies
  pub has_default : is_some (lookup m.default_version m.policies) ≡ true
  pub has_control :
      (e : PolicyExperiment)
      → m.experiment ≡ some e
      → is_some (lookup e.control_version m.policies) ≡ true
  pub has_treatment :
      (e : PolicyExperiment)
      → m.experiment ≡ some e
      → is_some (lookup e.treatment_version m.policies) ≡ true

insert-AllValid :
    (m : Map Text MatchPolicy) (p : MatchPolicy)
    → validate p ≡ ok tt
    → AllValid m
    → AllValid (insert p.version p m)
insert-AllValid m p h v k q found = elim (Bool-cases (p.version == k)) [
  | inl same ↦ ground (arith, lookup-insert p.version k p m, text_beq_iff p.version k)
  | inr other ↦ v k q (ground (arith, lookup-insert p.version k p m))
]

-- What a call may do to the policies: nothing that was registered is lost.
abbrev pub Keeps : Map Text MatchPolicy → Map Text MatchPolicy → Type 0
Keeps m n = (v : Text) → is_some (lookup v m) ≡ true → lookup v n ≡ lookup v m

register_all-AllValid :
    (m n : Map Text MatchPolicy) (ps : List MatchPolicy)
    → AllValid m
    → register_all m ps ≡ ok n
    → AllValid n
unfolding register_all
register_all-AllValid m n [] v h = λ k p found. v k p (ground arith)
register_all-AllValid m n (p ∷ ps) v h =
    let valid : validate p ≡ ok tt = ground arith in
    register_all-AllValid (insert p.version p m) n ps (insert-AllValid m p valid v) (ground arith)

pub new_policy_manager-IsSound :
    (ps : List MatchPolicy) (default_version : Text) (m : PolicyManager)
    → new_policy_manager ps default_version ≡ ok m
    → IsSound m
unfolding new_policy_manager
new_policy_manager-IsSound ps default_version m h = record {
  all_valid =
      register_all-AllValid [] m.policies ps (λ k p found. absurd (unfold lookup in ground arith))
        (ground arith);
  has_default = ground arith;
  has_control = λ e r. ground arith;
  has_treatment = λ e r. ground arith;
}

pub start_experiment-IsSound :
    (m m' : PolicyManager) (e : PolicyExperiment)
    → start_experiment m e ≡ ok m'
    → IsSound m
    → IsSound m'
unfolding start_experiment
start_experiment-IsSound m m' e h v = elim (Result-cases (normalize_experiment e)) [
  | inr (x, bad) ↦ ground arith
  | inl (n, good) ↦ record {
    all_valid = λ k p found. v.all_valid k p (ground arith);
    has_default = ground (arith, v.has_default);
    has_control = λ d r. ground arith;
    has_treatment = λ d r. ground arith;
  }
]

pub is_some-insert :
    (k j : Text) (p : MatchPolicy) (m : Map Text MatchPolicy)
    → is_some (lookup j m) ≡ true
    → is_some (lookup j (insert k p m)) ≡ true
is_some-insert k j p m h = ground (arith, lookup-insert k j p m)

pub register_policy-IsSound :
    (m m' : PolicyManager) (p : MatchPolicy) → register_policy m p ≡ ok m' → IsSound m → IsSound m'
unfolding register_policy
register_policy-IsSound m m' p h v =
    let e : m' ≡ record m { policies = insert p.version p m.policies } = ground arith in
    let valid : validate p ≡ ok tt = ground arith in
    rw e (record {
      all_valid = insert-AllValid m.policies p valid v.all_valid;
      has_default = is_some-insert p.version _ p m.policies v.has_default;
      has_control = λ d r. is_some-insert p.version _ p m.policies (v.has_control d r);
      has_treatment = λ d r. is_some-insert p.version _ p m.policies (v.has_treatment d r);
    })

pub with_experiment-IsSound :
    (m : PolicyManager) (p : MatchPolicy) (n : PolicyExperiment)
    → IsSound m
    → validate p ≡ ok tt
    → n.treatment_version ≡ p.version
    → is_some (lookup n.control_version m.policies) ≡ true
    → IsSound (with_experiment m p n)
with_experiment-IsSound m p n v valid same control = record {
  all_valid = insert-AllValid m.policies p valid v.all_valid;
  has_default = is_some-insert p.version _ p m.policies v.has_default;
  has_control =
      λ d r. ground (arith, is_some-insert p.version n.control_version p m.policies control);
  has_treatment = λ d r.
      ground
        (arith, lookup-insert p.version p.version p m.policies, text_beq_iff p.version p.version);
}

pub stop_experiment-IsSound :
    (m m' : PolicyManager) (id : Text) → stop_experiment m id ≡ ok m' → IsSound m → IsSound m'
unfolding stop_experiment
stop_experiment-IsSound m m' id h v = record {
  all_valid = λ k p found. v.all_valid k p (ground arith);
  has_default = ground (arith, v.has_default);
  has_control = λ d r. ground arith;
  has_treatment = λ d r. ground arith;
}

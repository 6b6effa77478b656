-- ===== src/Allocator/Capacity.antt =====
-- No region is given more servers than it has.
use match_mind.Allocator.{
  LocalAllocator, LocalServerAllocation, Allocation, used, allocate, release,
  new_local_allocator_with_capacities, normalize_into,
}
use match_mind.Base.{
  Context, Map, Result, [], arith, delete, if◌then◌else◌, insert, lookup, lookup_or, none, ok, ◌+◌,
  ◌==◌, ◌∷◌, ◌≡◌, ◌≤◌, suc, Option-cases, Result-cases, inl, inr, List, err, state_or,
  lookup-insert, Bool-cases, ap, refl, subst, ℕ, ◌∙◌,
}
use match_mind.Base.Int.{int_add, pos, pos_part, wrap_int, ◌≤ℤ◌, ◌-ℤ◌, ℤ, ◌+ℤ◌}
use match_mind.Text.{Text, text_eq, trim_space, lower_trim, text_beq_iff}

used-insert :
    (region k : Text) (a : LocalServerAllocation) (m : Map Text LocalServerAllocation)
    → lookup k m ≡ none
    → used region (insert k a m) ≡ used region m + (if a.region == region then 1 else 0)
unfolding used insert lookup
used-insert region k a [] h = ground arith
used-insert region k a ((j, b) ∷ m) h = ground (arith, used-insert region k a m)

used-delete :
    (region k : Text) (m : Map Text LocalServerAllocation)
    → used region (delete k m) ≤ used region m
unfolding used delete
used-delete region k [] = omega arith
used-delete region k ((j, b) ∷ m) = ground (arith, used-delete region k m)

-- The name is in no allocation: no server of a region is in use.
used-release :
    (ctx : Context) (a a' : LocalAllocator) (match_id region : Text)
    → release ctx a match_id ≡ ok a'
    → used region a'.allocations ≤ used region a.allocations
unfolding release
used-release ctx a a' match_id region h =
    ground (arith, used-delete region (trim_space match_id) a.allocations)

-- In every region the servers in use are at most its capacity, or none where that is negative.
abbrev pub Within : LocalAllocator → Type 0
Within a =
    (region : Text) → used region a.allocations ≤ pos_part (lookup_or (pos 0) region a.capacities)

-- A new allocation, of a server that the region has left.
abbrev Granted : LocalAllocator → LocalAllocator → Text → LocalServerAllocation → Type 0
Granted a a' id b =
    (lookup id a.allocations ≡ none)
    × (pos (suc (used b.region a.allocations)) ≤ℤ lookup_or (pos 0) b.region a.capacities)
    × (a'.allocations ≡ insert id b a.allocations)
    × (a'.capacities ≡ a.capacities)

allocate-Granted :
    (ctx : Context) (a a' : LocalAllocator) (match_id region t : Text) (allocation : Allocation)
    → lookup (trim_space match_id) a.allocations ≡ none
    → allocate ctx a match_id region (ok t) ≡ ok (a', allocation)
    → Granted a a'
        (trim_space match_id)
        (record { region = lower_trim region; allocation = allocation })
unfolding allocate ◌-ℤ◌
allocate-Granted ctx a a' match_id region t allocation e h =
    (e, ground arith, ground arith, ground arith)

Granted-Within :
    (a a' : LocalAllocator) (id : Text) (b : LocalServerAllocation)
    → Granted a a' id b
    → Within a
    → Within a'
Granted-Within a a' id b (e, room, allocations, capacities) v region =
    ground (arith, used-insert region id b a.allocations e, text_beq_iff b.region region, v region)

pub allocate-Within :
    (ctx : Context) (a a' : LocalAllocator) (match_id region : Text) (token : Result Text)
    (allocation : Allocation)
    → Within a
    → allocate ctx a match_id region token ≡ ok (a', allocation)
    → Within a'
unfolding allocate
allocate-Within ctx a a' match_id region (ok t) allocation v h =
    elim (Option-cases (lookup (trim_space match_id) a.allocations)) [
      | inl e ↦
          Granted-Within a a' _ _ (allocate-Granted ctx a a' match_id region t allocation e h) v
      | inr (b, e) ↦ λ k. (let same : a' ≡ a = ground arith in rw same (v k))
    ]
allocate-Within ctx a a' match_id region (err x) allocation v h =
    λ k. (let same : a' ≡ a = ground arith in rw same (v k))

release-Within :
    (ctx : Context) (a a' : LocalAllocator) (match_id : Text)
    → Within a
    → release ctx a match_id ≡ ok a'
    → Within a'
unfolding release
release-Within ctx a a' match_id v h region =
    ground (arith, used-release ctx a a' match_id region h, v region)

-- The calls of the allocator that change it.
pub data AllocatorCall : Type 0 where
  allocates : Context → Text → Text → Result Text → AllocatorCall
  releases : Context → Text → AllocatorCall

-- The state after a call: a call that fails leaves it as it is.
unfoldable pub after_call : LocalAllocator → AllocatorCall → LocalAllocator
after_call a (allocates ctx match_id region token) =
    state_or a (allocate ctx a match_id region token)
after_call a (releases ctx match_id) = elim (release ctx a match_id) [ ok a' ↦ a' | err e ↦ a ]

unfoldable pub after_calls : LocalAllocator → List AllocatorCall → LocalAllocator
after_calls a [] = a
after_calls a (c ∷ cs) = after_calls (after_call a c) cs

after_call-Within : (a : LocalAllocator) (c : AllocatorCall) → Within a → Within (after_call a c)
unfolding after_call
after_call-Within a (allocates ctx match_id region token) v =
    elim (Result-cases (allocate ctx a match_id region token)) [
      | inl ((a', allocation), e) ↦
          rw e (allocate-Within ctx a a' match_id region token allocation v e)
      | inr (x, e) ↦ rw e v
    ]
after_call-Within a (releases ctx match_id) v = elim (Result-cases (release ctx a match_id)) [
  | inl (a', e) ↦ rw (e, after_call) (release-Within ctx a a' match_id v e)
  | inr (x, e) ↦ rw (e, after_call) v
]

after_calls-Within :
    (a : LocalAllocator) (cs : List AllocatorCall) → Within a → Within (after_calls a cs)
unfolding after_calls
after_calls-Within a [] v = v
after_calls-Within a (c ∷ cs) v = after_calls-Within (after_call a c) cs (after_call-Within a c v)

allocate-capacities :
    (ctx : Context) (a a' : LocalAllocator) (match_id region : Text) (token : Result Text)
    (allocation : Allocation)
    → allocate ctx a match_id region token ≡ ok (a', allocation)
    → a'.capacities ≡ a.capacities
unfolding allocate
allocate-capacities ctx a a' match_id region token allocation h =
    elim (Option-cases (lookup (trim_space match_id) a.allocations)) [
      | inl missing ↦ ground arith
      | inr (b, found) ↦ ground arith
    ]

after_call-capacities :
    (a : LocalAllocator) (c : AllocatorCall) → (after_call a c).capacities ≡ a.capacities
unfolding after_call release
after_call-capacities a (allocates ctx match_id region token) =
    elim (Result-cases (allocate ctx a match_id region token)) [
      | inl ((a', allocation), e) ↦
          rw e (allocate-capacities ctx a a' match_id region token allocation e)
      | inr (x, e) ↦ rw e refl
    ]
after_call-capacities a (releases ctx match_id) = elim (Result-cases (release ctx a match_id)) [
  | inl (a', e) ↦ rw (e, after_call) (ground arith)
  | inr (x, e) ↦ rw (e, after_call) refl
]

after_calls-capacities :
    (a : LocalAllocator) (cs : List AllocatorCall) → (after_calls a cs).capacities ≡ a.capacities
unfolding after_calls
after_calls-capacities a [] = refl
after_calls-capacities a (c ∷ cs) =
    after_calls-capacities (after_call a c) cs ∙ after_call-capacities a c

-- What the configuration gives a region: the capacities of all the names that stand for it.
unfoldable pub total_of : Text → Map Text ℤ → ℕ
total_of region [] = 0
total_of region ((name, capacity) ∷ rest) =
    (if lower_trim name == region then pos_part capacity else 0) + total_of region rest

int_add-wrap_int : (a b : ℕ) → int_add (wrap_int (pos a)) (pos b) ≡ wrap_int (pos (a + b))
unfolding int_add wrap_int ◌+ℤ◌
int_add-wrap_int a b = ground arith

normalize_into-total :
    (n raw m : Map Text ℤ) (region : Text) (a : ℕ)
    → lookup_or (pos 0) region n ≡ wrap_int (pos a)
    → normalize_into n raw ≡ ok m
    → lookup_or (pos 0) region m ≡ wrap_int (pos (a + total_of region raw))
unfolding normalize_into total_of
normalize_into-total n [] m region a v h = ground (arith, v)
normalize_into-total n ((name, capacity) ∷ rest) m region a v h =
    let key = lower_trim name in
    let total = int_add (lookup_or (pos 0) key n) capacity in
    let counted : capacity ≡ pos (pos_part capacity) = ground arith in
    elim (Bool-cases (key == region)) [
      | inr other ↦
          normalize_into-total (insert key total n) rest m region a
            (ground (arith, v, lookup-insert key region total n)) (ground arith)
          ∙ ap (λ x. wrap_int (pos (a + x))) (ground arith)
      | inl this ↦
          let same = (text_beq_iff key region).0 this in
          let added : total ≡ wrap_int (pos (a + pos_part capacity)) =
            ap (λ k. int_add (lookup_or (pos 0) k n) capacity) same
            ∙ ap (λ x. int_add x capacity) v
            ∙ ap (int_add (wrap_int (pos a))) counted
            ∙ int_add-wrap_int a (pos_part capacity) in
          normalize_into-total (insert key total n) rest m region (a + pos_part capacity)
            (ground (arith, added, lookup-insert key region total n)) (ground arith)
          ∙ ap (λ x. wrap_int (pos x)) (ground arith)
    ]

-- Whatever capacities the constructor accepts and whatever calls of `Allocate` and `Release` follow, in no
-- region are more servers in use than the sum, as an int64 has it, of the capacities given for the names
-- that stand for the region, and none where that sum has wrapped to a negative number.
pub capacity_respected :
    (raw : Map Text ℤ) (a : LocalAllocator) (cs : List AllocatorCall) (region : Text)
    → new_local_allocator_with_capacities raw ≡ ok a
    → used region (after_calls a cs).allocations ≤ pos_part (wrap_int (pos (total_of region raw)))
unfolding new_local_allocator_with_capacities used lookup wrap_int
capacity_respected raw a cs region h =
    let none_used : a.allocations ≡ [] = ground arith in
    let start : Within a = λ k. ground arith in
    let given = after_calls-capacities a cs in
    let sum = normalize_into-total [] raw a.capacities region 0 refl (ground arith) in
    subst (λ c. used region (after_calls a cs).allocations ≤ pos_part c)
      (ap (lookup_or (pos 0) region) given ∙ sum ∙ ap (λ x. wrap_int (pos x)) (omega arith))
      (after_calls-Within a cs start region)

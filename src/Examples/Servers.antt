-- ===== src/Examples/Servers.antt =====
-- A region with one server, and two matches that ask for it.
use match_mind.Allocator.{used, LocalAllocator, new_local_allocator_with_capacities}
use match_mind.Allocator.Capacity.{
  total_of, AllocatorCall, allocates, releases, after_calls, capacity_respected,
}
use match_mind.Base.{List, [], insert, lookup, none, ok, refl, ◌∷◌, ◌≡◌, ◌≤◌}
use match_mind.Base.Int.{pos, pos_part, wrap_int, ◌+ℤ◌}
use match_mind.Text.{codes, to_lower, trim_space, text_eq}

abbrev one_server : LocalAllocator
one_server = record { capacities = (codes "tokyo", pos 1) ∷ []; allocations = [] }

one_server_lem : new_local_allocator_with_capacities ((codes " Tokyo", pos 1) ∷ []) ≡ ok one_server
unfolding new_local_allocator_with_capacities lookup insert trim_space to_lower ◌+ℤ◌
    match_mind.Base.Int.int_add match_mind.Base.Int.wrap_int
one_server_lem = refl

abbrev server_calls : List AllocatorCall
server_calls =
    allocates none (codes "m1") (codes "tokyo") (ok (codes "t"))
    ∷ allocates none (codes "m2") (codes "tokyo") (ok (codes "u"))
    ∷ []

capacity_respected_example :
    used (codes "tokyo") (after_calls one_server server_calls).allocations
    ≤ pos_part (wrap_int (pos (total_of (codes "tokyo") ((codes " Tokyo", pos 1) ∷ []))))
capacity_respected_example =
    capacity_respected ((codes " Tokyo", pos 1) ∷ []) one_server server_calls (codes "tokyo")
      one_server_lem

-- The second match is refused.
one_used : used (codes "tokyo") (after_calls one_server server_calls).allocations ≡ 1
unfolding used after_calls match_mind.Allocator.Capacity.after_call match_mind.Allocator.allocate
    trim_space to_lower lookup match_mind.Base.Int.◌-ℤ◌ match_mind.Text.text_beq insert
one_used = refl

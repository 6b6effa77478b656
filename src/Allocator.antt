-- ===== src/Allocator.antt =====
-- internal/matchmaking/application/local_allocator.go: game servers by region, with a capacity each.
pub mod Capacity
pub mod Parsing
use match_mind.Base.{
  Context, List, Map, Result, [], check_context, delete, if◌then◌else◌, insert,
  invalid_server_capacity, length, lookup, lookup_or, nat_beq, no_server_capacity, none, ok,
  reject_if, some, suc, ℕ, ◌++◌, ◌==◌, ◌>>=◌, ◌>>◌, ◌||◌, ◌∷◌,
}
use match_mind.Base.Int.{int_add, leb_ℤ, ltb_ℤ, pos, ℤ, ◌-ℤ◌}
use match_mind.Text.{Text, codes, is_empty, lower_trim, trim_space, text_eq}

-- `fmt.Sprintf("%s.game.matchmind.local:7000", region)` and the token.
pub record Allocation : Type 0 where
  pub address : Text
  pub token : Text

pub record LocalServerAllocation : Type 0 where
  pub region : Text
  pub allocation : Allocation

pub record LocalAllocator : Type 0 where
  pub capacities : Map Text ℤ
  pub allocations : Map Text LocalServerAllocation

pub record RegionCapacity : Type 0 where
  pub region : Text
  pub available_servers : ℤ

-- The loop of the constructor, which adds up the capacities of one region.
unfoldable pub normalize_into : Map Text ℤ → Map Text ℤ → Result (Map Text ℤ)
normalize_into normalized [] = ok normalized
normalize_into normalized ((region, capacity) ∷ rest) = do
  let name = lower_trim region
  reject_if (is_empty name || ltb_ℤ capacity (pos 0)) invalid_server_capacity
  normalize_into (insert name (int_add (lookup_or (pos 0) name normalized) capacity) normalized)
      rest

unfoldable pub new_local_allocator_with_capacities : Map Text ℤ → Result LocalAllocator
unfolding normalize_into
new_local_allocator_with_capacities capacities = do
  normalized ← normalize_into [] capacities
  reject_if (nat_beq (length normalized) 0) invalid_server_capacity
  ok (record { capacities = normalized; allocations = [] })

-- The default regions of `NewLocalAllocator`.
unfoldable pub new_local_allocator : Result LocalAllocator
unfolding new_local_allocator_with_capacities
new_local_allocator =
    new_local_allocator_with_capacities
      ((codes "hongkong", pos 100) ∷ (codes "singapore", pos 100) ∷ (codes "tokyo", pos 100) ∷ [])

-- The allocations of a region.
unfoldable pub used : Text → Map Text LocalServerAllocation → ℕ
used region [] = 0
used region ((match_id, a) ∷ rest) =
    if a.region == region then suc (used region rest) else used region rest

-- `capacity - used` does not wrap: `used` is at most the capacity, or 0 where that is negative.
unfoldable pub available : Map Text LocalServerAllocation → Map Text ℤ → List RegionCapacity
available allocations [] = []
available allocations ((region, capacity) ∷ rest) =
    record { region = region; available_servers = capacity -ℤ pos (used region allocations) }
    ∷ available allocations rest

unfoldable pub capacities_of : Context → LocalAllocator → Result (List RegionCapacity)
unfolding available
capacities_of ctx a = do check_context ctx; ok (available a.allocations a.capacities)

-- `token` is what the token generator returns, if it is called.
unfoldable pub allocate :
    Context → LocalAllocator → Text → Text → Result Text → Result (LocalAllocator × Allocation)
allocate ctx a match_id region token = do
  check_context ctx
  let id = trim_space match_id
  let name = lower_trim region
  reject_if (is_empty id || is_empty name) no_server_capacity
  elim (lookup id a.allocations) [
    | some existing ↦ ok (a, existing.allocation)
    | none ↦ do
      reject_if
          (leb_ℤ (lookup_or (pos 0) name a.capacities -ℤ pos (used name a.allocations)) (pos 0))
          no_server_capacity
      t ← token
      let allocation : Allocation = record {
        address = name ++ codes ".game.matchmind.local:7000";
        token = t;
      }
      ok (
        record a {
          allocations = insert id (record { region = name; allocation = allocation }) a.allocations;
        },
        allocation,
      )
  ]

unfoldable pub release : Context → LocalAllocator → Text → Result LocalAllocator
release ctx a match_id = do
  check_context ctx
  ok (record a { allocations = delete (trim_space match_id) a.allocations })

-- ===== src/Allocator/Parsing.antt =====
-- `ParseRegionCapacities` of internal/matchmaking/application/local_allocator.go, with `strconv.Atoi` and
-- `strings.Split` of the language's library; an `int` has 64 bits.
use match_mind.Base.{
  List, Map, Option, Result, [], err, if◌then◌else◌, insert, invalid_server_capacity, leb, length,
  lookup_or, ltb, nat_beq, none, ok, or_fail, reject_if, some, ℕ, ◌&&◌, ◌*◌, ◌+◌, ◌-◌, ◌>>=◌, ◌>>◌,
  ◌^◌, ◌||◌, ◌∷◌,
}
use match_mind.Base.Int.{ltb_ℤ, pos, ℤ, int_add, ◌-ℤ◌}
use match_mind.Text.{Text, is_empty, lower_trim, text_eq, trim_space}

-- `strings.Split` at a character.
unfoldable pub split_on : ℕ → Text → List Text
split_on separator [] = [] ∷ []
split_on separator (c ∷ cs) =
    let rest = split_on separator cs in
    if nat_beq c separator
    then [] ∷ rest
    else elim rest [ [] ↦ (c ∷ []) ∷ [] | first ∷ others ↦ (c ∷ first) ∷ others ]

unfoldable pub digits_into : ℕ → Text → Option ℕ
digits_into n [] = some n
digits_into n (c ∷ cs) =
    let rest = digits_into (n * 10 + (c - 48)) cs in if leb 48 c && leb c 57 then rest else none

unfoldable pub unsigned : Text → Option ℕ
unsigned [] = none
unsigned (c ∷ cs) = digits_into 0 (c ∷ cs)

-- `strconv.Atoi`: a sign may stand in front, and a number outside the 64 bits is refused.
unfoldable pub atoi : Text → Option ℤ
atoi [] = none
atoi (c ∷ cs) =
    if nat_beq c 45
    then elim (unsigned cs) [
      | none ↦ none
      | some n ↦ if leb n (2 ^ 63) then some (pos 0 -ℤ pos n) else none
    ]
    else elim (if nat_beq c 43 then unsigned cs else unsigned (c ∷ cs)) [
      | none ↦ none
      | some n ↦ if ltb n (2 ^ 63) then some (pos n) else none
    ]

-- An entry `region=capacity`.
unfoldable pub parse_entry : Text → Result (Text × ℤ)
parse_entry entry = elim (split_on 61 (trim_space entry)) [
  | name ∷ number ∷ [] ↦ do
    capacity ← or_fail (atoi (trim_space number)) invalid_server_capacity
    reject_if (is_empty (lower_trim name) || ltb_ℤ capacity (pos 0)) invalid_server_capacity
    ok (lower_trim name, capacity)
  | _ ↦ err invalid_server_capacity
]

unfoldable pub parse_entries : Map Text ℤ → List Text → Result (Map Text ℤ)
parse_entries result [] = ok result
parse_entries result (entry ∷ entries) = do
  (region, capacity) ← parse_entry entry
  parse_entries (insert region (int_add (lookup_or (pos 0) region result) capacity) result) entries

unfoldable pub parse_region_capacities : Text → Result (Map Text ℤ)
parse_region_capacities value = do
  result ← parse_entries [] (split_on 44 value)
  reject_if (nat_beq (length result) 0) invalid_server_capacity
  ok result

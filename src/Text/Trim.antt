-- ===== src/Text/Trim.antt =====
-- `strings.TrimSpace` and `strings.ToLower`, and that applying them again changes nothing.
use match_mind.Base.{
  ℕ, ◌+◌, ◌≡◌, refl, ap, Bool, true, false, ◌&&◌, ◌||◌, List, [], ◌∷◌, arith, leb, nat_beq,
  if◌then◌else◌, ◌∙◌,
}

abbrev pub Text : Type 0
Text = List ℕ

abbrev pub is_empty : Text → Bool
is_empty [] = true
is_empty (c ∷ s) = false

-- The code points that Unicode calls white space.
is_space : ℕ → Bool
is_space c =
    leb 9 c && leb c 13
    || nat_beq c 32
    || nat_beq c 133
    || nat_beq c 160
    || nat_beq c 5760
    || leb 8192 c && leb c 8202
    || nat_beq c 8232
    || nat_beq c 8233
    || nat_beq c 8239
    || nat_beq c 8287
    || nat_beq c 12288

trim_left : Text → Text
trim_left [] = []
trim_left (c ∷ s) = let rest = trim_left s in if is_space c then rest else c ∷ s

-- A space that only spaces follow is dropped.
cons_trimmed : ℕ → Text → Text
cons_trimmed c [] = if is_space c then [] else c ∷ []
cons_trimmed c (d ∷ s) = c ∷ d ∷ s

trim_right : Text → Text
unfolding cons_trimmed
trim_right [] = []
trim_right (c ∷ s) = cons_trimmed c (trim_right s)

unfoldable pub trim_space : Text → Text
unfolding trim_left trim_right is_space
trim_space s = trim_right (trim_left s)

lower_code : ℕ → ℕ
lower_code c = if leb b'A' c && leb c b'Z' then c + 32 else c

unfoldable pub to_lower : Text → Text
unfolding lower_code
to_lower [] = []
to_lower (c ∷ s) = lower_code c ∷ to_lower s

lower_code_idem : (c : ℕ) → lower_code (lower_code c) ≡ lower_code c
unfolding lower_code
lower_code_idem c = ground arith

lower_code_space : (c : ℕ) → is_space (lower_code c) ≡ is_space c
unfolding lower_code is_space
lower_code_space c = ground arith

pub to_lower_idem : (s : Text) → to_lower (to_lower s) ≡ to_lower s
unfolding to_lower
to_lower_idem [] = refl
to_lower_idem (c ∷ s) = cc (lower_code_idem c, to_lower_idem s)

cons_trimmed-to_lower :
    (c : ℕ) (s : Text) → cons_trimmed (lower_code c) (to_lower s) ≡ to_lower (cons_trimmed c s)
unfolding cons_trimmed to_lower
cons_trimmed-to_lower c [] = ground (arith, lower_code_space c)
cons_trimmed-to_lower c (d ∷ s) = refl

trim_right-to_lower : (s : Text) → trim_right (to_lower s) ≡ to_lower (trim_right s)
unfolding trim_right to_lower
trim_right-to_lower [] = refl
trim_right-to_lower (c ∷ s) =
    ap (cons_trimmed (lower_code c)) (trim_right-to_lower s)
    ∙ cons_trimmed-to_lower c (trim_right s)

trim_left-to_lower : (s : Text) → trim_left (to_lower s) ≡ to_lower (trim_left s)
unfolding trim_left to_lower
trim_left-to_lower [] = refl
trim_left-to_lower (c ∷ s) = ground (arith, lower_code_space c, trim_left-to_lower s)

-- Folding letters neither makes nor removes a space.
pub trim_space-to_lower : (s : Text) → trim_space (to_lower s) ≡ to_lower (trim_space s)
unfolding trim_space
trim_space-to_lower s = ap trim_right (trim_left-to_lower s) ∙ trim_right-to_lower (trim_left s)

trim_left_idem : (s : Text) → trim_left (trim_left s) ≡ trim_left s
unfolding trim_left
trim_left_idem [] = refl
trim_left_idem (c ∷ s) = ground (arith, trim_left_idem s)

trim_right-cons_trimmed :
    (c : ℕ) (s : Text) → trim_right s ≡ s → trim_right (cons_trimmed c s) ≡ cons_trimmed c s
unfolding trim_right cons_trimmed
trim_right-cons_trimmed c [] h = ground arith
trim_right-cons_trimmed c (d ∷ s) h = rw (h, cons_trimmed) refl

trim_right_idem : (s : Text) → trim_right (trim_right s) ≡ trim_right s
unfolding trim_right
trim_right_idem [] = refl
trim_right_idem (c ∷ s) = trim_right-cons_trimmed c (trim_right s) (trim_right_idem s)

trim_left-cons_trimmed :
    (c : ℕ) (r : Text)
    → trim_left (cons_trimmed c r) ≡ (if is_space c then trim_left r else cons_trimmed c r)
unfolding trim_left cons_trimmed
trim_left-cons_trimmed c [] = ground arith
trim_left-cons_trimmed c (d ∷ s) = ground arith

trim_sides : (s : Text) → trim_left (trim_right s) ≡ trim_right (trim_left s)
unfolding trim_left trim_right
trim_sides [] = refl
trim_sides (c ∷ s) = ground (arith, trim_left-cons_trimmed c (trim_right s), trim_sides s)

pub trim_space_idem : (s : Text) → trim_space (trim_space s) ≡ trim_space s
unfolding trim_space
trim_space_idem s = rw (trim_sides (trim_left s), trim_left_idem s) (trim_right_idem (trim_left s))

-- `strings.ToLower(strings.TrimSpace(s))`, the form of regions, modes and hero names.
abbrev pub lower_trim : Text → Text
lower_trim s = to_lower (trim_space s)

pub lower_trim_idem : (s : Text) → lower_trim (lower_trim s) ≡ lower_trim s
lower_trim_idem s = simp (trim_space-to_lower, trim_space_idem, to_lower_idem)

pub ruleset text_laws = (trim_space_idem, trim_space-to_lower, to_lower_idem)

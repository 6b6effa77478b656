-- ===== src/Text.antt =====
-- Go strings as lists of code points, with `strings.TrimSpace`, `strings.ToLower` and `<`.
-- `to_lower` folds ASCII letters; other letters are left alone.
mod Trim
unfoldable pub use Trim.*
use match_mind.Base.{
  ℕ, ◌+◌, ◌≡◌, refl, ◌↔◌, Bool, true, false, ◌&&◌, ◌||◌, List, [], ◌∷◌, ◌++◌, map, arith, ltb, leb,
  nat_beq, nat_beq_iff, if◌then◌else◌, Eq, ℕ_discrete,
}
use Prim.Native.Char.{code}
use Prim.Native.String.{String}
use Trim.{Text}

-- A string literal.
abbrev pub codes : String → Text
codes String.[] = []
codes (String.◌∷◌ c s) = code c ∷ codes s

unfoldable pub text_beq : Text → Text → Bool
text_beq [] [] = true
text_beq [] (d ∷ t) = false
text_beq (c ∷ s) [] = false
text_beq (c ∷ s) (d ∷ t) = nat_beq c d && text_beq s t

pub text_beq_iff : (s t : Text) → (text_beq s t ≡ true) ↔ (s ≡ t)
unfolding text_beq
text_beq_iff [] [] = ground arith
text_beq_iff [] (d ∷ t) = ground arith
text_beq_iff (c ∷ s) [] = ground arith
text_beq_iff (c ∷ s) (d ∷ t) = ground (arith, text_beq_iff s t)

instance abbrev pub text_eq : Eq Text
text_eq = record { equal = text_beq; equal_iff = text_beq_iff }

pub Text-discrete : Discrete Text
Text-discrete = hlevel ℕ_discrete

-- `s < t`, which compares code points from the left.
unfoldable pub text_lt : Text → Text → Bool
text_lt [] [] = false
text_lt [] (d ∷ t) = true
text_lt (c ∷ s) [] = false
text_lt (c ∷ s) (d ∷ t) = let rest = text_lt s t in if nat_beq c d then rest else ltb c d

pub text_lt_irrefl : (s : Text) → text_lt s s ≡ false
unfolding text_lt
text_lt_irrefl [] = refl
text_lt_irrefl (c ∷ s) = ground (arith, text_lt_irrefl s)

pub text_lt_trans : (s t u : Text) → text_lt s t ≡ true → text_lt t u ≡ true → text_lt s u ≡ true
unfolding text_lt
text_lt_trans [] [] u h k = ground arith
text_lt_trans [] (d ∷ t) [] h k = ground arith
text_lt_trans [] (d ∷ t) (x ∷ u) h k = refl
text_lt_trans (c ∷ s) [] u h k = ground arith
text_lt_trans (c ∷ s) (d ∷ t) [] h k = ground arith
text_lt_trans (c ∷ s) (d ∷ t) (x ∷ u) h k = ground (arith, text_lt_trans s t u)

-- Two texts neither of which is below the other are equal.
pub text_lt_connected : (s t : Text) → text_lt s t ≡ false → text_lt t s ≡ false → s ≡ t
unfolding text_lt
text_lt_connected [] [] h k = refl
text_lt_connected [] (d ∷ t) h k = ground arith
text_lt_connected (c ∷ s) [] h k = ground arith
text_lt_connected (c ∷ s) (d ∷ t) h k = ground (arith, text_lt_connected s t)

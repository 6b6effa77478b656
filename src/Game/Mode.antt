-- ===== src/Game/Mode.antt =====
-- internal/game/mode/mode.go: the three modes and their rules.
use match_mind.Base.{
  Bool, true, false, [], ◌∷◌, Result, ok, unsupported_mode, or_fail, Map, lookup, ◌>>=◌, ap, arith,
  refl, ◌∙◌, ◌≡◌,
}
use match_mind.Text.{
  Text, codes, lower_trim, text_eq, is_empty, lower_trim_idem, text_beq, text_laws, trim_space,
  to_lower,
}

-- `type ID string` has three values that the package accepts; an ID is its text.
abbrev pub ranked_5v5 : Text
ranked_5v5 = codes "ranked_5v5"

abbrev pub normal_5v5 : Text
normal_5v5 = codes "normal_5v5"

abbrev pub training_5v5 : Text
training_5v5 = codes "training_5v5"

pub record Rules : Type 0 where
  pub id : Text
  pub rated : Bool
  pub allows_bots : Bool

abbrev pub rules_by_id : Map Text Rules
rules_by_id =
    (ranked_5v5, record { id = ranked_5v5; rated = true; allows_bots = false })
    ∷ (normal_5v5, record { id = normal_5v5; rated = false; allows_bots = false })
    ∷ (training_5v5, record { id = training_5v5; rated = false; allows_bots = true })
    ∷ []

unfoldable pub parse : Text → Result Text
parse value = do
  rules ← or_fail (lookup (lower_trim value) rules_by_id) unsupported_mode
  ok (lower_trim value)

unfoldable pub get : Text → Result Rules
get value = do id ← parse value; or_fail (lookup id rules_by_id) unsupported_mode

parse-lower_trim : (value : Text) → parse (lower_trim value) ≡ parse value
unfolding parse
parse-lower_trim value = rw (lower_trim_idem value)

-- Parsing normalises: what it returns is the normalised text.
parse-eq : (value id : Text) → parse value ≡ ok id → id ≡ lower_trim value
unfolding parse
parse-eq value id h = ground arith

-- A parsed mode parses to itself.
pub parse_idem : (value id : Text) → parse value ≡ ok id → parse id ≡ ok id
parse_idem value id h = let e = parse-eq value id h in rw e (parse-lower_trim value ∙ h ∙ ap ok e)

-- A parsed mode has no spaces round it, and is not empty.
pub trim_parsed : (value id : Text) → parse value ≡ ok id → trim_space id ≡ id
trim_parsed value id h = rw (parse-eq value id h) (simp text_laws)

pub parsed_not_empty : (value id : Text) → parse value ≡ ok id → is_empty id ≡ false
unfolding parse lookup text_beq trim_space to_lower
parsed_not_empty value [] h = cc (parse_idem value [] h)
parsed_not_empty value (c ∷ s) h = refl

-- ===== src/Ticket/Proficiency.antt =====
-- The clone of a validated hero proficiency map: the same scores under normalised hero IDs.
use match_mind.Game.Hero
use match_mind.Base.{
  List, Map, [], arith, contains, false, insert, keys, length, ok, refl, true, ◌++◌, ◌||◌, ◌∙◌, ◌∷◌,
  ◌≡◌,
}
use match_mind.Float64.{Float64}
use match_mind.Game.Hero.{Hero}
use match_mind.Text.{Text, lower_trim, lower_trim_idem, text_eq}
use match_mind.Ticket.{
  clone_into, clone_ticket_proficiency, scan_proficiency, validate_ticket_hero_proficiency,
}
use mathlib.Core.List.{append-nil, append_assoc}

-- The map with every key normalised in place.
pub normal : Map Text Float64 → Map Text Float64
normal [] = []
normal ((k, v) ∷ m) = (lower_trim k, v) ∷ normal m

length-normal : (m : Map Text Float64) → length (normal m) ≡ length m
unfolding normal
length-normal [] = refl
length-normal ((k, v) ∷ m) = omega (arith, length-normal m)

normal_idem : (m : Map Text Float64) → normal (normal m) ≡ normal m
unfolding normal
normal_idem [] = refl
normal_idem ((k, v) ∷ m) = rw (lower_trim_idem k, normal_idem m)

-- A key that the map lacks goes to the end.
insert_new :
    (k : Text) (v : Float64) (m : Map Text Float64)
    → contains k (keys m) ≡ false
    → insert k v m ≡ m ++ (k, v) ∷ []
unfolding contains insert
insert_new k v [] h = refl
insert_new k v ((j, w) ∷ m) h = ground (arith, insert_new k v m)

contains-keys-append :
    (k : Text) (m n : Map Text Float64)
    → contains k (keys (m ++ n)) ≡ (contains k (keys m) || contains k (keys n))
unfolding contains
contains-keys-append k [] n = refl
contains-keys-append k ((j, w) ∷ m) n = ground (arith, contains-keys-append k m n)

abbrev Covers : List Text → Map Text Float64 → Type 0
Covers seen m = (k : Text) → contains k (keys m) ≡ true → contains k seen ≡ true

Covers-extend :
    (seen : List Text) (k : Text) (v : Float64) (m : Map Text Float64)
    → Covers seen m
    → Covers (k ∷ seen) (m ++ (k, v) ∷ [])
unfolding contains
Covers-extend seen k v m h j c = ground (arith, h j, contains-keys-append j m ((k, v) ∷ []))

clone_into-scan :
    (seen : List Text) (acc m : Map Text Float64)
    → Covers seen acc
    → scan_proficiency seen m ≡ ok tt
    → clone_into acc m ≡ acc ++ normal m
unfolding clone_into normal scan_proficiency
clone_into-scan seen acc [] c h = rw (append-nil acc)
clone_into-scan seen acc ((k, v) ∷ m) c h =
    let fresh : contains (lower_trim k) (keys acc) ≡ false = ground (arith, c (lower_trim k)) in
    rw (insert_new (lower_trim k) v acc fresh) (
      clone_into-scan (lower_trim k ∷ seen) (acc ++ (lower_trim k, v) ∷ []) m
        (Covers-extend seen (lower_trim k) v acc c) (ground arith)
      ∙ append_assoc acc ((lower_trim k, v) ∷ []) (normal m))

scan-normal :
    (seen : List Text) (m : Map Text Float64)
    → scan_proficiency seen (normal m) ≡ scan_proficiency seen m
unfolding scan_proficiency normal
scan-normal seen [] = refl
scan-normal seen ((k, v) ∷ m) =
    rw (lower_trim_idem k, Hero.get-lower_trim k, scan-normal (lower_trim k ∷ seen) m)

pub clone-valid :
    (m : Map Text Float64)
    → validate_ticket_hero_proficiency m ≡ ok tt
    → clone_ticket_proficiency m ≡ normal m
unfolding validate_ticket_hero_proficiency clone_ticket_proficiency
clone-valid m h = clone_into-scan [] [] m (λ k e. e) (ground arith)

validate-normal :
    (m : Map Text Float64)
    → validate_ticket_hero_proficiency (normal m) ≡ validate_ticket_hero_proficiency m
unfolding validate_ticket_hero_proficiency
validate-normal m = rw (length-normal m, scan-normal [] m)

-- A valid map of hero proficiencies, once cloned, is valid again and is its own clone.
pub clone_stable :
    (m : Map Text Float64)
    → validate_ticket_hero_proficiency m ≡ ok tt
    → (validate_ticket_hero_proficiency (clone_ticket_proficiency m) ≡ ok tt)
      × (clone_ticket_proficiency (clone_ticket_proficiency m) ≡ clone_ticket_proficiency m)
clone_stable m h =
    let valid = validate-normal m ∙ h in
    rw (clone-valid m h) (valid, clone-valid (normal m) valid ∙ normal_idem m)

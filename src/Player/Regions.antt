-- ===== src/Player/Regions.antt =====
-- The latencies of a player, once normalised.
use match_mind.Base.{
  Map, [], arith, contains, contains-keys-insert, distinct, distinct-insert, false, insert, keys,
  lookup, none, refl, true, ◌++◌, ◌||◌, ◌∷◌, ◌≡◌, Bool-cases, Option-cases, inl, inr, not, ◌&&◌,
  ◌∙◌, ap,
}
use match_mind.Base.Int.{ℤ, ltb_ℤ}
use match_mind.Player.{normalize_latency, normalize_region_latency, note_latency}
use match_mind.Text.{Text, lower_trim, lower_trim_idem, text_beq_iff, text_eq, is_empty}
use mathlib.Core.List.{append-nil, append_assoc}

-- Distinct keys without spaces or capitals.
pub record IsNormal (m : Map Text ℤ) : Type 0 where
  pub unique : distinct (keys m) ≡ true
  pub lowered : (k : Text) → contains k (keys m) ≡ true → lower_trim k ≡ k

insert-IsNormal :
    (raw : Text) (v : ℤ) (m : Map Text ℤ) → IsNormal m → IsNormal (insert (lower_trim raw) v m)
insert-IsNormal raw v m n = record {
  unique = distinct-insert (lower_trim raw) v m n.unique;
  lowered = λ k h. ground (
    arith,
    contains-keys-insert (lower_trim raw) k v m,
    n.lowered k,
    text_beq_iff (lower_trim raw) k,
    lower_trim_idem raw,
  );
}

note_latency-IsNormal :
    (raw : Text) (v : ℤ) (m : Map Text ℤ)
    → IsNormal m
    → IsNormal (note_latency m (lower_trim raw) v)
unfolding note_latency
note_latency-IsNormal raw v m n = elim (Option-cases (lookup (lower_trim raw) m)) [
  | inl new ↦ rw (new, note_latency) (insert-IsNormal raw v m n)
  | inr (w, found) ↦ elim (Bool-cases (not (is_empty (lower_trim raw)) && ltb_ℤ w v)) [
    | inl lower ↦ rw (found, lower, note_latency) n
    | inr higher ↦ rw (found, higher, note_latency) (insert-IsNormal raw v m n)
  ]
]

normalize_latency-IsNormal :
    (acc m : Map Text ℤ) → IsNormal acc → IsNormal (normalize_latency acc m)
unfolding normalize_latency
normalize_latency-IsNormal acc [] n = n
normalize_latency-IsNormal acc ((raw, v) ∷ m) n =
    normalize_latency-IsNormal (note_latency acc (lower_trim raw) v) m
      (note_latency-IsNormal raw v acc n)

pub normalize-IsNormal : (m : Map Text ℤ) → IsNormal (normalize_region_latency m)
unfolding normalize_region_latency distinct contains
normalize-IsNormal m =
    normalize_latency-IsNormal [] m
      (record { unique = refl; lowered = λ k h. absurd (ground arith) })

insert_last :
    (k : Text) (v : ℤ) (m : Map Text ℤ)
    → contains k (keys m) ≡ false
    → insert k v m ≡ m ++ (k, v) ∷ []
unfolding contains insert
insert_last k v [] h = refl
insert_last k v ((j, w) ∷ m) h = ground (arith, insert_last k v m)

contains-keys-append :
    (k : Text) (m n : Map Text ℤ)
    → contains k (keys (m ++ n)) ≡ (contains k (keys m) || contains k (keys n))
unfolding contains
contains-keys-append k [] n = refl
contains-keys-append k ((j, w) ∷ m) n = ground (arith, contains-keys-append k m n)

lookup-absent : (k : Text) (m : Map Text ℤ) → contains k (keys m) ≡ false → lookup k m ≡ none
unfolding contains lookup
lookup-absent k [] h = refl
lookup-absent k ((j, w) ∷ m) h = ground (arith, lookup-absent k m)

note_new :
    (k : Text) (v : ℤ) (m : Map Text ℤ)
    → contains k (keys m) ≡ false
    → note_latency m k v ≡ m ++ (k, v) ∷ []
unfolding note_latency
note_new k v m h = rw (lookup-absent k m h, note_latency) (insert_last k v m h)

abbrev Disjoint : Map Text ℤ → Map Text ℤ → Type 0
Disjoint acc m = (k : Text) → contains k (keys m) ≡ true → contains k (keys acc) ≡ false

normalize_latency-append :
    (acc m : Map Text ℤ) → Disjoint acc m → IsNormal m → normalize_latency acc m ≡ acc ++ m
unfolding normalize_latency contains distinct
normalize_latency-append acc [] d n = rw (append-nil acc)
normalize_latency-append acc ((k, v) ∷ m) d n =
    let same : lower_trim k ≡ k = n.lowered k (ground (arith, text_beq_iff k k)) in
    let fresh : contains k (keys acc) ≡ false = d k (ground (arith, text_beq_iff k k)) in
    let noted : note_latency acc (lower_trim k) v ≡ acc ++ (k, v) ∷ [] =
      ap (λ x. note_latency acc x v) same ∙ note_new k v acc fresh in
    rw noted (
      normalize_latency-append (acc ++ (k, v) ∷ []) m
        (λ j h. ground (arith, d j, contains-keys-append j acc ((k, v) ∷ []), text_beq_iff k j))
        (record { unique = ground (arith, n.unique); lowered = λ j h. n.lowered j (ground arith) })
      ∙ append_assoc acc ((k, v) ∷ []) m)

-- Normalising the latencies that `normalizeRegionLatency` returns changes nothing.
pub normalize_region_latency_idem :
    (m : Map Text ℤ)
    → normalize_region_latency (normalize_region_latency m) ≡ normalize_region_latency m
unfolding contains
normalize_region_latency_idem m =
    unfold normalize_region_latency in
    normalize_latency-append [] _ (λ k h. refl) (normalize-IsNormal m)

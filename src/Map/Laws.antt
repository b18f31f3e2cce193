-- ===== src/Map/Laws.antt =====
-- The laws of the map, in `if` form, and predicates that hold of all its values.
use mathlib.Core.Option
use mathlib.Core.Path.{subst, subst₂}
use irc.Base.{
  ◌≡◌, refl, sym, Bool, true, false, Bool-cases, inl, inr, [], ◌∷◌, none, some, arith,
  if◌then◌else◌,
}
use irc.Text.{Key}
use irc.Map.{Map, lookup, insert, erase, modify}

-- Every entry satisfies the predicate.
abbrev pub Entries : {K V : Type 0} → (K → V → Type 0) → Map K V → Type 0
Entries P [] = Unit
Entries P ((k, v) ∷ m) = P k v × Entries P m

module _ {K V : Type 0} ⦃key : Key K⦄ where
  pub lookup-insert :
      (j k : K) (v : V) (m : Map K V)
      → lookup j (insert k v m) ≡ (if key.beq k j then some v else lookup j m)
  unfolding lookup insert
  lookup-insert j k v [] = refl
  lookup-insert j k v ((i, w) ∷ m) =
      ground (arith, key.beq_iff k j, key.beq_iff i k, key.beq_iff i j, lookup-insert j k v m)

  pub lookup-erase :
      (j k : K) (m : Map K V) → lookup j (erase k m) ≡ (if key.beq k j then none else lookup j m)
  unfolding lookup erase
  lookup-erase j k [] = ground arith
  lookup-erase j k ((i, w) ∷ m) =
      ground (arith, key.beq_iff k j, key.beq_iff i k, key.beq_iff i j, lookup-erase j k m)

  pub lookup-modify :
      (j k : K) (f : V → V) (m : Map K V)
      → lookup j (modify k f m) ≡ (if key.beq k j then Option.map f (lookup j m) else lookup j m)
  unfolding lookup modify
  lookup-modify j k f [] = ground arith
  lookup-modify j k f ((i, w) ∷ m) =
      ground (arith, key.beq_iff k j, key.beq_iff i k, key.beq_iff i j, lookup-modify j k f m)

  -- The map has the key.
  unfoldable pub has : K → Map K V → Bool
  has k m = elim (lookup k m) [ none ↦ false | some v ↦ true ]

  pub has-modify : (j k : K) (f : V → V) (m : Map K V) → has j (modify k f m) ≡ has j m
  unfolding has
  has-modify j k f m = ground (arith, lookup-modify j k f m)

  pub has-lookup : (k : K) (m : Map K V) {v : V} → lookup k m ≡ some v → has k m ≡ true
  unfolding has
  has-lookup k m e = rw (e, has)

  module _ (P : K → V → Type 0) where
    pub lookup-Entries : (k : K) (m : Map K V) {v : V} → Entries P m → lookup k m ≡ some v → P k v
    unfolding lookup
    lookup-Entries k [] h e = cc
    lookup-Entries k ((j, w) ∷ m) {v} h e = elim (Bool-cases (key.beq j k)) [
      | inl same ↦ subst₂ P ((key.beq_iff j k).0 same) (ground arith) h.0
      | inr other ↦ lookup-Entries k m h.1 (ground arith)
    ]

    pub insert-Entries :
        (k : K) (v : V) (m : Map K V) → P k v → Entries P m → Entries P (insert k v m)
    unfolding insert
    insert-Entries k v [] p h = (p, tt)
    insert-Entries k v ((j, w) ∷ m) p h = ground (arith, insert-Entries k v m p h.1)

    pub erase-Entries : (k : K) (m : Map K V) → Entries P m → Entries P (erase k m)
    unfolding erase
    erase-Entries k [] h = tt
    erase-Entries k ((j, w) ∷ m) h = ground (arith, erase-Entries k m h.1)

    pub modify-Entries :
        (k : K) (f : V → V) (m : Map K V)
        → ((v : V) → lookup k m ≡ some v → P k v → P k (f v))
        → Entries P m
        → Entries P (modify k f m)
    unfolding lookup modify
    modify-Entries k f [] keep h = tt
    modify-Entries k f ((j, w) ∷ m) keep h = elim (Bool-cases (key.beq j k)) [
      | inl same ↦
          let e = (key.beq_iff j k).0 same in
          rw same
            (subst (λ i. P i (f w)) (sym e) (keep w (rw same) (subst (λ i. P i w) e h.0)), h.1)
      | inr other ↦ rw other (h.0, modify-Entries k f m (λ v l p. keep v (rw other l) p) h.1)
    ]

  pub map-Entries :
      (P Q : K → V → Type 0) (m : Map K V)
      → ((k : K) (v : V) → P k v → Q k v)
      → Entries P m
      → Entries Q m
  map-Entries P Q [] imp h = tt
  map-Entries P Q ((k, v) ∷ m) imp h = (imp k v h.0, map-Entries P Q m imp h.1)

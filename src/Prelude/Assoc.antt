-- ===== src/Prelude/Assoc.antt =====
-- A `HashMap` as an association list with a Boolean test of its keys. No key stands twice where
-- only `insert` and `remove` build the list, and nothing depends on the order.
use mathlib.Core.Path.{subst}
use ruzor.Prelude.{
  ◌≡◌, ◌↔◌, refl, ◌∙◌, Bool, true, false, inl, inr, Bool-cases, Option, none, some, List, [], ◌∷◌,
  arith, if◌then◌else◌,
}

-- A decidable key.
pub record Eq {ℓ} (K : Type ℓ) : Type ℓ where
  pub beq : K → K → Bool
  pub beq_iff : (a b : K) → (beq a b ≡ true) ↔ (a ≡ b)

module _ {ℓ} {K : Type ℓ} ⦃e : Eq K⦄ where
  beq-sym : (a b : K) → e.beq a b ≡ false → e.beq b a ≡ false
  beq-sym a b h = ground (arith, e.beq_iff a b, e.beq_iff b a)

module _ {ℓ κ} {K : Type ℓ} {V : Type κ} ⦃e : Eq K⦄ where
  unfoldable pub lookup : K → List (K × V) → Option V
  lookup key [] = none
  lookup key ((k, value) ∷ rest) = if e.beq k key then some value else lookup key rest

  unfoldable pub insert : K → V → List (K × V) → List (K × V)
  insert key value [] = (key, value) ∷ []
  insert key value ((k, old) ∷ rest) =
      if e.beq k key then (key, value) ∷ rest else (k, old) ∷ insert key value rest

  unfoldable pub remove : K → List (K × V) → List (K × V)
  remove k [] = []
  remove k ((j, w) ∷ m) = let rest = remove k m in if e.beq j k then rest else (j, w) ∷ rest

  pub lookup-insert :
      (k j : K) (v : V) (m : List (K × V))
      → lookup j (insert k v m) ≡ (if e.beq k j then some v else lookup j m)
  unfolding lookup insert
  lookup-insert k j v [] = refl
  lookup-insert k j v ((i, w) ∷ m) =
      ground (arith, e.beq_iff k j, e.beq_iff i k, e.beq_iff i j, lookup-insert k j v m)

  pub lookup-remove :
      (k j : K) (m : List (K × V))
      → lookup j (remove k m) ≡ (if e.beq k j then none else lookup j m)
  unfolding lookup remove
  lookup-remove k j [] = ground arith
  lookup-remove k j ((i, w) ∷ m) =
      ground (arith, e.beq_iff k j, e.beq_iff i k, e.beq_iff i j, lookup-remove k j m)

  -- No key stands twice.
  abbrev pub Once : List (K × V) → Type κ
  Once [] = Unit
  Once ((k, v) ∷ m) = (lookup k m ≡ none) × Once m

  pub Once-insert : (k : K) (v : V) (m : List (K × V)) → Once m → Once (insert k v m)
  unfolding insert
  Once-insert k v [] h = (unfold lookup in refl, tt)
  Once-insert k v ((j, w) ∷ m) (fresh, h) = elim (Bool-cases (e.beq j k)) [
    | inl same ↦ rw same (subst (λ (x : K). lookup x m ≡ none) ((e.beq_iff j k).0 same) fresh, h)
    | inr other ↦
        rw other (lookup-insert k j v m ∙ rw (beq-sym j k other) fresh, Once-insert k v m h)
  ]

  pub Once-remove : (k : K) (m : List (K × V)) → Once m → Once (remove k m)
  unfolding remove
  Once-remove k [] h = tt
  Once-remove k ((j, w) ∷ m) (fresh, h) = elim (Bool-cases (e.beq j k)) [
    | inl same ↦ rw same (Once-remove k m h)
    | inr other ↦ rw other (lookup-remove k j m ∙ rw (beq-sym j k other) fresh, Once-remove k m h)
  ]

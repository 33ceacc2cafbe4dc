-- ===== src/JsMap.antt =====
-- JavaScript's `Map` as the components use it: an association list in insertion order, where `set`
-- on a present key keeps the key's place. A built-in of the language, so no file is named.
pub mod Laws
use hdv_orchestrator.Common.{
  ℕ, Bool, true, false, Option, none, some, List, [], ◌∷◌, map, StrictEq, ◌==◌, if◌then◌else◌,
  length,
}

abbrev pub Entries {ℓ κ} : Type ℓ → Type κ → Type (ℓ ⊔ κ)
Entries K V = List (K × V)

module _ {ℓ κ} {K : Type ℓ} ⦃e : StrictEq K⦄ {V : Type κ} where
  abbrev pub lookup : K → Entries K V → Option V
  lookup k [] = none
  lookup k ((j, v) ∷ m) = let rest = lookup k m in if j == k then some v else rest

  abbrev pub insert : K → V → Entries K V → Entries K V
  insert k v [] = (k, v) ∷ []
  insert k v ((j, w) ∷ m) = let rest = insert k v m in if j == k then (k, v) ∷ m else (j, w) ∷ rest

  abbrev pub erase : K → Entries K V → Entries K V
  erase k [] = []
  erase k ((j, v) ∷ m) = let rest = erase k m in if j == k then rest else (j, v) ∷ rest

  abbrev pub contains : K → Entries K V → Bool
  contains k m = elim (lookup k m) [ none ↦ false | some _ ↦ true ]

abbrev pub keys {ℓ κ} : {K : Type ℓ} {V : Type κ} → Entries K V → List K
keys m = map (λ x. x.0) m

abbrev pub values {ℓ κ} : {K : Type ℓ} {V : Type κ} → Entries K V → List V
values m = map (λ x. x.1) m

abbrev pub size {ℓ κ} : {K : Type ℓ} {V : Type κ} → Entries K V → ℕ
size m = length m

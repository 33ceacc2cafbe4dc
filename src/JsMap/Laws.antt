-- ===== src/JsMap/Laws.antt =====
-- Laws of `Map`: what each operation does to every key, and that keys stay distinct.
use mathlib.Core.Path.{subst₂}
use hdv_orchestrator.Common.{
  ◌≡◌, refl, ◌≢◌, none, some, [], ◌∷◌, ◌++◌, StrictEq, ◌==◌, ==_refl, if◌then◌else◌, arith, All,
  Bool-cases, inl, inr,
}
use hdv_orchestrator.JsMap.{Entries, lookup, insert, erase, size}

module _ {ℓ κ} {K : Type ℓ} ⦃e : StrictEq K⦄ {V : Type κ} where
  pub lookup-insert :
      (k j : K) (v : V) (m : Entries K V)
      → lookup j (insert k v m) ≡ (if k == j then some v else lookup j m)
  lookup-insert k j v [] = refl
  lookup-insert k j v ((i, w) ∷ m) =
      ground (arith, e.same_iff k j, e.same_iff i k, e.same_iff i j, lookup-insert k j v m)

  pub lookup-erase :
      (k j : K) (m : Entries K V) → lookup j (erase k m) ≡ (if k == j then none else lookup j m)
  lookup-erase k j [] = ground arith
  lookup-erase k j ((i, w) ∷ m) =
      ground (arith, e.same_iff k j, e.same_iff i k, e.same_iff i j, lookup-erase k j m)

  pub lookup-insert_self : (k : K) (v : V) (m : Entries K V) → lookup k (insert k v m) ≡ some v
  lookup-insert_self k v m = rw (lookup-insert k k v m, ==_refl k) refl

  pub lookup-insert_ne :
      (k j : K) (v : V) (m : Entries K V) → k ≢ j → lookup j (insert k v m) ≡ lookup j m
  lookup-insert_ne k j v m h = ground (arith, lookup-insert k j v m, e.same_iff k j)

  pub lookup-erase_self : (k : K) (m : Entries K V) → lookup k (erase k m) ≡ none
  lookup-erase_self k m = rw (lookup-erase k k m, ==_refl k) refl

  pub lookup-erase_ne : (k j : K) (m : Entries K V) → k ≢ j → lookup j (erase k m) ≡ lookup j m
  lookup-erase_ne k j m h = ground (arith, lookup-erase k j m, e.same_iff k j)

  -- A map's keys are distinct.
  abbrev pub IsMap : Entries K V → Type κ
  IsMap [] = Unit
  IsMap ((k, v) ∷ m) = (lookup k m ≡ none) × IsMap m

  pub insert-IsMap : (k : K) (v : V) (m : Entries K V) → IsMap m → IsMap (insert k v m)
  insert-IsMap k v [] h = (refl, tt)
  insert-IsMap k v ((i, w) ∷ m) h =
      ground (arith, e.same_iff i k, insert-IsMap k v m h.1, lookup-insert k i v m, e.same_iff k i)

  pub erase-IsMap : (k : K) (m : Entries K V) → IsMap m → IsMap (erase k m)
  erase-IsMap k [] h = tt
  erase-IsMap k ((i, w) ∷ m) h =
      ground (arith, e.same_iff i k, erase-IsMap k m h.1, lookup-erase k i m, e.same_iff k i)

  -- A new key goes to the end.
  pub insert_new :
      (k : K) (v : V) (m : Entries K V) → lookup k m ≡ none → insert k v m ≡ m ++ (k, v) ∷ []
  insert_new k v [] h = refl
  insert_new k v ((i, w) ∷ m) h = ground (arith, insert_new k v m)

  -- A known key leaves the number of entries alone.
  pub size-insert_known :
      (k : K) (v w : V) (m : Entries K V) → lookup k m ≡ some w → size (insert k v m) ≡ size m
  size-insert_known k v w [] h = cc
  size-insert_known k v w ((i, u) ∷ m) h = ground (arith, size-insert_known k v w m)

module _ {ℓ κ μ} {K : Type ℓ} ⦃e : StrictEq K⦄ {V : Type κ} (P : K × V → Type μ) where
  -- What holds of every entry and of the new one holds of every entry afterwards.
  pub All-insert : (k : K) (v : V) (m : Entries K V) → All P m → P (k, v) → All P (insert k v m)
  All-insert k v [] h p = (p, tt)
  All-insert k v ((i, w) ∷ m) h p = elim (Bool-cases (i == k)) [
    | inl here ↦ rw here (p, h.1)
    | inr there ↦ rw there (h.0, All-insert k v m h.1 p)
  ]

  pub All-erase : (k : K) (m : Entries K V) → All P m → All P (erase k m)
  All-erase k [] h = tt
  All-erase k ((i, w) ∷ m) h = elim (Bool-cases (i == k)) [
    | inl here ↦ rw here (All-erase k m h.1)
    | inr there ↦ rw there (h.0, All-erase k m h.1)
  ]

  pub All-lookup : (k : K) {v : V} (m : Entries K V) → All P m → lookup k m ≡ some v → P (k, v)
  All-lookup k [] h found = cc
  All-lookup k {v} ((i, w) ∷ m) h found = elim (Bool-cases (i == k)) [
    | inl here ↦ subst₂ (λ a b. P (a, b)) ((e.same_iff i k).0 here) (ground arith) h.0
    | inr there ↦ All-lookup k m h.1 (ground arith)
  ]

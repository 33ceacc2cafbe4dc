-- ===== src/Holloway/Sovereign/Registry.antt =====
-- hdv-foundation/holloway/sovereign.ts: who is a sovereign after successions.
use hdv_orchestrator.Common.{
  ℕ, String, true, Option, none, some, List, [], ◌∷◌, ◌==◌, string_eq, ◌≡◌, ◌⊎◌, inl, inr, refl,
  ◌∙◌, ap, Bool-cases,
}
use hdv_orchestrator.Json.{Json}
use hdv_orchestrator.JsMap.{Entries, lookup, insert, contains}
use hdv_orchestrator.JsMap.Laws.{lookup-insert, lookup-insert_self}
use hdv_orchestrator.Holloway.Identity.{ActingPrime, FormerPrime}
use hdv_orchestrator.Holloway.Sovereign.{
  SovereignAuthority, Directive, Call, issuing, countermanding, succession, is_acting_prime,
  is_former_prime, issue_directive, countermand, countermand_found, veto, succeed, perform, run,
  has_status,
}

contains-insert :
    (k j : String) (v : FormerPrime) (m : Entries String FormerPrime)
    → contains j m ≡ true
    → contains j (insert k v m) ≡ true
contains-insert k j v m h = elim (Bool-cases (k == j)) [
  | inl same ↦ rw (lookup-insert k j v m, same, contains) refl
  | inr other ↦ rw (lookup-insert k j v m, other, contains) h
]

contains-insert_self :
    (k : String) (v : FormerPrime) (m : Entries String FormerPrime)
    → contains k (insert k v m) ≡ true
contains-insert_self k v m = rw (lookup-insert_self k v m, contains) refl

module _ (digest : Json → String) (sha256 : String → String) where
  -- A countermand changes neither the Acting Prime nor the Former Primes.
  countermand_found-keeps :
      (now : ℕ) (former_id id reason : String) (found : Option Directive) (a : SovereignAuthority)
      → ((countermand_found digest sha256 now former_id id reason found a).1.acting ≡ a.acting)
        × ((countermand_found digest sha256 now former_id id reason found a).1.formers ≡ a.formers)
  unfolding countermand_found veto
  countermand_found-keeps now former_id id reason none a = (refl, refl)
  countermand_found-keeps now former_id id reason (some d) a =
      elim (Bool-cases (has_status d.status)) [
        | inl live ↦ rw live (refl, refl)
        | inr gone ↦ rw gone (refl, refl)
      ]

  countermand-keeps :
      (now : ℕ) (former_id id reason : String) (a : SovereignAuthority)
      → ((countermand digest sha256 now former_id id reason a).1.acting ≡ a.acting)
        × ((countermand digest sha256 now former_id id reason a).1.formers ≡ a.formers)
  unfolding countermand
  countermand-keeps now former_id id reason a = elim (Bool-cases (contains former_id a.formers)) [
    | inl known ↦
        rw known (countermand_found-keeps now former_id id reason (lookup id a.directives_by_id) a)
    | inr stranger ↦ rw stranger (refl, refl)
  ]

  perform-keeps :
      (c : Call) (id : String) (a : SovereignAuthority)
      → (is_former_prime a id ≡ true → is_former_prime (perform digest sha256 c a) id ≡ true)
        × (is_acting_prime a id ≡ true
            → (is_acting_prime (perform digest sha256 c a) id ≡ true)
              ⊎ (is_former_prime (perform digest sha256 c a) id ≡ true))
  unfolding perform issue_directive succeed is_former_prime is_acting_prime
  perform-keeps (issuing now command options) id a = (λ h. h, λ h. inl h)
  perform-keeps (countermanding now former_id d reason) id a =
      let same = countermand-keeps now former_id d reason a in
      (
        λ h. ap (λ m. contains id m) same.1 ∙ h,
        λ h. inl (ap (λ (p : ActingPrime). p.id == id) same.0 ∙ h),
      )
  perform-keeps (succession now successor stepped_down_at) id a = (
    contains-insert a.acting.id id _ a.formers,
    λ h. inr (
        rw (← (string_eq.same_iff a.acting.id id).0 h)
          (contains-insert_self a.acting.id _ a.formers)),
  )

  -- Over every sequence of directives, countermands and successions: a Former Prime remains one, and
  -- who is Acting Prime is afterwards the Acting Prime or a Former Prime, so no Prime ever loses the
  -- veto.
  pub run_keeps_primes :
      (cs : List Call) (id : String) (a : SovereignAuthority)
      → (is_former_prime a id ≡ true → is_former_prime (run digest sha256 cs a) id ≡ true)
        × (is_acting_prime a id ≡ true
            → (is_acting_prime (run digest sha256 cs a) id ≡ true)
              ⊎ (is_former_prime (run digest sha256 cs a) id ≡ true))
  unfolding run
  run_keeps_primes [] id a = (λ h. h, λ h. inl h)
  run_keeps_primes (c ∷ cs) id a =
      let once = perform-keeps c id a in
      let rest = run_keeps_primes cs id (perform digest sha256 c a) in
      (
        λ h. rest.0 (once.0 h),
        λ h. elim (once.1 h) [ inl acting ↦ rest.1 acting | inr former ↦ inr (rest.0 former) ],
      )

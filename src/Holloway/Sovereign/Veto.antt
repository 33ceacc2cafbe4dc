-- ===== src/Holloway/Sovereign/Veto.antt =====
-- hdv-foundation/holloway/sovereign.ts: what can happen to a directive.
use mathlib.Core.Path.{subst}
use text.Mathlib.TextLemmas.{append_cancel_left}
use hdv_orchestrator.Common.{
  ℕ, suc, ◌≤◌, String, true, false, Option, none, some, List, [], ◌∷◌, ◌==◌, string_eq, ◌≡◌, ◌≢◌,
  ◌⊎◌, inl, inr, refl, ◌∙◌, sym, ap, arith, Bool-cases,
}
use hdv_orchestrator.Json.{Json}
use hdv_orchestrator.JsMap.{Entries, lookup, insert, contains}
use hdv_orchestrator.JsMap.Laws.{lookup-insert, lookup-insert_ne}
use hdv_orchestrator.Text.Decimal.Digits.{padded_inj}
use hdv_orchestrator.Holloway.Identity.{ActingPrime, FormerPrime}
use hdv_orchestrator.Holloway.Sovereign.{
  SovereignAuthority, Directive, Call, issuing, countermanding, succession, is_former_prime,
  get_directive, issue_directive, countermand, countermand_found, veto, succeed, perform, run,
  has_status, vetoed, directive_of, directive_id, new_authority,
}
use hdv_orchestrator.Holloway.Sovereign.Registry.{run_keeps_primes}

directive_id_inj : (n m : ℕ) → directive_id n ≡ directive_id m → n ≡ m
unfolding directive_id
directive_id_inj n m h = padded_inj 8 n m (append_cancel_left "dir_" _ _ h)

-- Every directive has an id that was given out.
abbrev pub IsNumbered : SovereignAuthority → Type 0
IsNumbered a =
    (id : String) (d : Directive)
    → get_directive id a ≡ some d
    → (n : ℕ) × (id ≡ directive_id n) × (n ≤ a.seq)

pub new_authority-IsNumbered :
    (acting : ActingPrime) (formers : List FormerPrime) → IsNumbered (new_authority acting formers)
unfolding new_authority get_directive
new_authority-IsNumbered acting formers id d at = cc

new_id :
    (a : SovereignAuthority) (id : String) (d : Directive)
    → IsNumbered a
    → get_directive id a ≡ some d
    → directive_id (suc a.seq) ≢ id
new_id a id d numbered at same =
    let (n, named, low) = numbered id d at in
    let e = directive_id_inj (suc a.seq) n (same ∙ named) in absurd (omega arith)

-- A directive is as it was, or it was active and a Former Prime has countermanded it.
abbrev pub IsKept : String → Directive → SovereignAuthority → Type 0
IsKept id d b =
    (get_directive id b ≡ some d)
    ⊎ ((has_status d.status ≡ true)
        × (now : ℕ) × (former_id : String) × (reason : String) × (get_directive id b
            ≡ some (vetoed now former_id reason d))
        × (is_former_prime b former_id ≡ true))

some_same : {x d : Directive} → some x ≡ some d → x ≡ d
some_same h = cc

found_same :
    (m : Entries String Directive) (target id : String) {x d : Directive}
    → target ≡ id
    → some x ≡ lookup target m
    → lookup id m ≡ some d
    → x ≡ d
found_same m target id k e at = some_same (e ∙ ap (λ i. lookup i m) k ∙ at)

not_live : ¬ (false ≡ true)
not_live h = cc

module _ (digest : Json → String) (sha256 : String → String) where
  countermand_found-IsKept :
      (now : ℕ) (former_id target reason id : String) (found : Option Directive)
      → (a : SovereignAuthority) (d : Directive) → found ≡ get_directive target a
      → is_former_prime a former_id ≡ true
      → get_directive id a ≡ some d
      → IsKept id d (countermand_found digest sha256 now former_id target reason found a).1
  unfolding countermand_found veto get_directive is_former_prime
  countermand_found-IsKept now former_id target reason id none a d e known at = inl at
  countermand_found-IsKept now former_id target reason id (some x) a d e known at =
      elim (Bool-cases (has_status x.status)) [
        | inr gone ↦ rw gone (inl at)
        | inl live ↦ rw live (elim (Bool-cases (target == id)) [
          | inr other ↦ inl (
              rw (lookup-insert target id (vetoed now former_id reason x) a.directives_by_id, other)
                at)
          | inl same ↦
              let k = (string_eq.same_iff target id).0 same in
              let x_is_d : x ≡ d = found_same a.directives_by_id target id k e at in
              inr (
                subst (λ (y : Directive). has_status y.status ≡ true) x_is_d live,
                now,
                former_id,
                reason,
                rw
                    (
                      lookup-insert target id (vetoed now former_id reason x) a.directives_by_id,
                      same,
                    )
                    (ap (λ y. some (vetoed now former_id reason y)) x_is_d),
                known,
              )
        ])
      ]

  countermand-IsKept :
      (now : ℕ) (former_id target reason : String) (a : SovereignAuthority) (id : String)
      → (d : Directive) → get_directive id a ≡ some d
      → IsKept id d (countermand digest sha256 now former_id target reason a).1
  unfolding countermand get_directive is_former_prime
  countermand-IsKept now former_id target reason a id d at =
      elim (Bool-cases (contains former_id a.formers)) [
        | inl known ↦ rw known (
            countermand_found-IsKept now former_id target reason id
              (lookup target a.directives_by_id) a d refl known at)
        | inr stranger ↦ rw stranger (inl at)
      ]

  perform-IsKept :
      (c : Call) (a : SovereignAuthority) (id : String) (d : Directive)
      → IsNumbered a
      → get_directive id a ≡ some d
      → IsKept id d (perform digest sha256 c a)
  unfolding perform issue_directive countermand succeed get_directive is_former_prime directive_of
  perform-IsKept (issuing now command options) a id d numbered at = inl (
      lookup-insert_ne (directive_id (suc a.seq)) id (directive_of now command options a)
        a.directives_by_id (new_id a id d numbered at)
      ∙ at)
  perform-IsKept (countermanding now former_id target reason) a id d numbered at =
      countermand-IsKept now former_id target reason a id d at
  perform-IsKept (succession now successor stepped_down_at) a id d numbered at = inl at

  insert-IsNumbered :
      (seq more : ℕ) (k : String) (v : Directive) (m : Entries String Directive)
      → seq ≤ more
      → ((n : ℕ) × (k ≡ directive_id n) × (n ≤ more))
      → ((id : String) (d : Directive)
          → lookup id m ≡ some d
          → (n : ℕ) × (id ≡ directive_id n) × (n ≤ seq))
      → (id : String) (d : Directive) → lookup id (insert k v m) ≡ some d
      → (n : ℕ) × (id ≡ directive_id n) × (n ≤ more)
  insert-IsNumbered seq more k v m grows new old id d at = elim (Bool-cases (k == id)) [
    | inl same ↦ (new.0, sym ((string_eq.same_iff k id).0 same) ∙ new.1, new.2)
    | inr other ↦
        let (n, named, low) = old id d (rw (lookup-insert k id v m, other) at at) in
        (n, named, omega arith)
  ]

  countermand-IsNumbered :
      (now : ℕ) (former_id target reason : String) (found : Option Directive)
      → (a : SovereignAuthority) → found ≡ get_directive target a
      → IsNumbered a
      → IsNumbered (countermand_found digest sha256 now former_id target reason found a).1
  unfolding countermand_found veto get_directive
  countermand-IsNumbered now former_id target reason none a e numbered = numbered
  countermand-IsNumbered now former_id target reason (some x) a e numbered =
      elim (Bool-cases (has_status x.status)) [
        | inl live ↦ rw live (
            insert-IsNumbered a.seq a.seq target (vetoed now former_id reason x) a.directives_by_id
              (omega arith) (numbered target x (sym e)) numbered)
        | inr gone ↦ rw gone numbered
      ]

  pub perform-IsNumbered :
      (c : Call) (a : SovereignAuthority) → IsNumbered a → IsNumbered (perform digest sha256 c a)
  unfolding perform issue_directive countermand succeed get_directive directive_of
  perform-IsNumbered (issuing now command options) a numbered =
      insert-IsNumbered a.seq (suc a.seq) (directive_id (suc a.seq))
        (directive_of now command options a) a.directives_by_id (omega arith)
        (suc a.seq, refl, omega arith) numbered
  perform-IsNumbered (countermanding now former_id target reason) a numbered =
      elim (Bool-cases (contains former_id a.formers)) [
        | inl known ↦
            rw (known, perform)
              (countermand-IsNumbered now former_id target reason (lookup target a.directives_by_id)
                a refl numbered)
        | inr stranger ↦ rw (stranger, perform) numbered
      ]
  perform-IsNumbered (succession now successor stepped_down_at) a numbered = numbered

  -- Given that the directives bear the ids that were given out: whatever is issued, countermanded and
  -- handed over afterwards, a directive that was issued stays exactly as it is, unless it is active
  -- and a Former Prime countermands it; that first countermand is final.
  pub run-IsKept :
      (cs : List Call) (a : SovereignAuthority) (id : String) (d : Directive)
      → IsNumbered a
      → get_directive id a ≡ some d
      → IsKept id d (run digest sha256 cs a)
  unfolding run
  run-IsKept [] a id d numbered at = inl at
  run-IsKept (c ∷ cs) a id d numbered at =
      let next = perform digest sha256 c a in
      let numbered_next = perform-IsNumbered c a numbered in
      elim (perform-IsKept c a id d numbered at) [
        | inl same ↦ run-IsKept cs next id d numbered_next same
        | inr (live, now, former_id, reason, hit, known) ↦
            (elim (run-IsKept cs next id (vetoed now former_id reason d) numbered_next hit) [
              | inl final ↦ inr (
                live,
                now,
                former_id,
                reason,
                final,
                (run_keeps_primes digest sha256 cs former_id next).0 known,
              )
              | inr twice ↦ absurd (not_live twice.0)
            ])
      ]

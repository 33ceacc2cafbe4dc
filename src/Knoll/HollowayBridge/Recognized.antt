-- ===== src/Knoll/HollowayBridge/Recognized.antt =====
-- hdv-foundation/knoll/holloway_bridge.ts: that the recognizer and the overrides agree.
use hdv_orchestrator.Common.{
  ℕ, String, true, false, Option, none, some, [], ◌∷◌, string_eq, ◌==◌, ◌≡◌, ◌≢◌, ◌⊎◌, ◌↔◌, refl,
  ◌∙◌, sym, Bool-cases, Option-cases, inl, inr,
}
use text.Mathlib.TextEquality.{eq_iff}
use mathlib.Core.Bool.{false≢true}
use hdv_orchestrator.Json.{Json}
use hdv_orchestrator.Text.Decimal.{template}
use hdv_orchestrator.Knoll.Freeze.{
  SystemFreezeController, default_is_holloway_token, running, trigger_freeze, sovereign_freeze,
  clear_freeze,
}
use hdv_orchestrator.Holloway.Identity.{PrimeRegistry}
use hdv_orchestrator.Holloway.Override.{
  HollowayOverrideToken, refused, applied, verify_override_token, is_sovereign_authority, is_live,
  act, apply_holloway_override,
}
use hdv_orchestrator.Knoll.HollowayBridge.{
  as_freeze_controllable, parse_override_token, is_recognized, sovereign_token_recognizer,
}

-- An override with the token would be accepted: a FREEZE trips the freeze, with the reason of the
-- token and the score 1, where it is not tripped already, and any other action ends it; the
-- quarantine is kept.
abbrev pub IsApplied :
    (Json → String)
    → Option PrimeRegistry
    → ℕ
    → SystemFreezeController
    → HollowayOverrideToken
    → Type 0
IsApplied digest registry now c t =
    ((t.fields.action ≡ "FREEZE")
      × (apply_holloway_override digest (as_freeze_controllable now) t registry c
          ≡ applied (trigger_freeze t.fields.reason 10000 none now c)))
    ⊎ ((t.fields.action ≢ "FREEZE")
        × (apply_holloway_override digest (as_freeze_controllable now) t registry c
            ≡ applied (record c { state = running })))

applied-IsApplied :
    (digest : Json → String) (registry : Option PrimeRegistry) (now : ℕ)
    → (c : SystemFreezeController) (t : HollowayOverrideToken)
    → apply_holloway_override digest (as_freeze_controllable now) t registry c
      ≡ applied (act (as_freeze_controllable now) t.fields c)
    → IsApplied digest registry now c t
unfolding as_freeze_controllable sovereign_freeze clear_freeze
applied-IsApplied digest registry now c t h = elim (Bool-cases (t.fields.action == "FREEZE")) [
  | inl freezes ↦ inl ((eq_iff _ _).0 freezes, rw freezes at h)
  | inr clears ↦ inr (λ same. false≢true (sym clears ∙ (eq_iff _ _).1 same), rw clears at h)
]

refused_not : {S : Type 0} {reason : String} {s : S} → ¬ (refused reason ≡ applied s)
refused_not h = cc

not_both : ¬ (false ≡ true)
not_both h = cc

none_not : {t : HollowayOverrideToken} → ¬ (none ≡ some t)
none_not h = cc

some_same : {x y : HollowayOverrideToken} → some x ≡ some y → x ≡ y
some_same h = cc

not_refused :
    (digest : Json → String) (registry : Option PrimeRegistry) (now : ℕ)
    → (c : SystemFreezeController) (t : HollowayOverrideToken) (reason : String)
    → apply_holloway_override digest (as_freeze_controllable now) t registry c ≡ refused reason
    → ¬ IsApplied digest registry now c t
not_refused digest registry now c t reason h (inl (action, moved)) = refused_not (sym h ∙ moved)
not_refused digest registry now c t reason h (inr (action, moved)) = refused_not (sym h ∙ moved)

recognized-IsApplied :
    (digest : Json → String) (registry : Option PrimeRegistry) (now : ℕ)
    → (c : SystemFreezeController) (t : HollowayOverrideToken)
    → (is_recognized digest registry (some t) ≡ true) ↔ IsApplied digest registry now c t
unfolding apply_holloway_override
recognized-IsApplied digest registry now c t = elim (Bool-cases (verify_override_token digest t)) [
  | inr forged ↦ (
    λ h. absurd (not_both (rw forged at h)),
    λ h. absurd (not_refused digest registry now c t "signature mismatch" (rw forged refl) h),
  )
  | inl signed ↦ (elim (Bool-cases (is_sovereign_authority t.fields.authority)) [
    | inr common ↦ (
      λ h. absurd (not_both (rw (signed, common) at h)),
      λ h. absurd (
          not_refused digest registry now c t
            (template ("non-sovereign authority '" ∷ t.fields.authority ∷ "'" ∷ []))
            (rw (signed, common) refl) h),
    )
    | inl high ↦ (elim (Bool-cases (is_live registry t.fields)) [
      | inr stale ↦ (
        λ h. absurd (not_both (rw (signed, high, stale) at h)),
        λ h. absurd (
            not_refused digest registry now c t
              (template ("'" ∷ t.fields.issued_by ∷ "' is not a live sovereign" ∷ []))
              (rw (signed, high, stale) refl) h),
      )
      | inl live ↦ (
        λ _. applied-IsApplied digest registry now c t (rw (signed, high, live) refl),
        λ _. rw (signed, high, live) refl,
      )
    ])
  ])
]

-- A token that is not of the legacy form of text is recognized by KNOLL exactly if it can be read as
-- an override token and the override with it would be accepted, with its effect: a FREEZE trips the
-- freeze where it is not tripped already, and any other action ends it.
pub recognizer_iff :
    (digest : Json → String) (parse : String → Option Json) (registry : Option PrimeRegistry)
    → (now : ℕ) (c : SystemFreezeController) (token : Json)
    → default_is_holloway_token token ≡ false
    → (sovereign_token_recognizer digest parse registry token ≡ true) ↔ (
        (t : HollowayOverrideToken) × (parse_override_token parse token ≡ some t)
        × IsApplied digest registry now c t)
unfolding sovereign_token_recognizer
recognizer_iff digest parse registry now c token modern =
    elim (Option-cases (parse_override_token parse token)) [
      | inl unread ↦ (
        λ h. absurd (not_both (rw (modern, unread) at h)),
        λ h. absurd (none_not (sym unread ∙ h.1)),
      )
      | inr (t, parsed) ↦ (
        λ h. (
          t,
          parsed,
          (recognized-IsApplied digest registry now c t).0 (rw (modern, parsed) at h),
        ),
        λ h.
            let same : h.0 ≡ t = some_same (sym h.1 ∙ parsed) in
            rw (modern, parsed) ((recognized-IsApplied digest registry now c t).1 (rw same at h.2)),
      )
    ]

-- ===== src/Holloway/Override/Guard.antt =====
-- hdv-foundation/holloway/override.ts: which override tokens move the freeze.
use hdv_orchestrator.Common.{
  ℕ, String, true, Option, some, [], ◌∷◌, ◌==◌, string_eq, ◌≡◌, ◌≢◌, ◌↔◌, inl, inr, refl, arith,
  Bool-cases, ==_refl, ==_ne,
}
use hdv_orchestrator.Json.{Json}
use hdv_orchestrator.Holloway.Identity.{
  HollowayRole, acting_prime, former_prime, role_name, ActingPrime, PrimeRegistry,
}
use hdv_orchestrator.Holloway.Override.{
  TokenFields, HollowayOverrideToken, FreezeControllable, refused, applied, sign_override_token,
  mint_override_token, verify_override_token, is_live, act, Override, apply_holloway_override,
}
use hdv_orchestrator.JsMap.{contains}
use hdv_orchestrator.JsMap.Laws.{lookup-insert_self}
use hdv_orchestrator.Text.Decimal.{template}
use hdv_orchestrator.Holloway.Sovereign.{
  outgoing_of, SovereignAuthority, registry_of, is_acting_prime, is_former_prime, succeed,
}

refused_not : {S : Type 0} {reason : String} {s : S} → ¬ (refused reason ≡ applied s)
refused_not h = cc

-- An override moves its target exactly if the signature is that of its fields and the issuer is a
-- live sovereign in the role that the token claims; otherwise it is refused.
pub apply_iff :
    (S : Type 0) (digest : Json → String) (target : FreezeControllable S)
    → (t : HollowayOverrideToken) (registry : PrimeRegistry) (s : S)
    → (apply_holloway_override digest target t (some registry) s ≡ applied (act target t.fields s))
      ↔ ((sign_override_token digest t.fields ≡ t.signature)
          × (is_live (some registry) t.fields ≡ true))
unfolding apply_holloway_override verify_override_token
apply_iff S digest target t registry s = (
  λ h. elim (Bool-cases (sign_override_token digest t.fields == t.signature)) [
    | inr forged ↦ absurd (refused_not (rw forged at h))
    | inl signed ↦ (
      (string_eq.same_iff (sign_override_token digest t.fields) t.signature).0 signed,
      ground arith,
    )
  ],
  λ h. rw (h.0, ==_refl t.signature) (ground arith),
)

-- What comes of minting a token of an action in a role and applying it to a target.
abbrev pub attempt :
    {S : Type 0}
    → (Json → String)
    → FreezeControllable S
    → SovereignAuthority
    → String
    → HollowayRole
    → String
    → String
    → ℕ
    → S
    → Override S
attempt digest target a id role action reason issued_at s =
    apply_holloway_override digest target
      (mint_override_token digest id role action reason issued_at) (some (registry_of a)) s

-- Whoever is the Acting Prime freezes a target by a FREEZE token of that role, with the reason of the
-- token, and unfreezes it by an UNFREEZE token. Once another Prime has succeeded, a token of that role is refused
-- whatever its action, and those that the outgoing Prime mints in the role of a Former Prime freeze and unfreeze.
pub minted_override :
    (S : Type 0) (digest : Json → String) (sha256 : String → String)
    → (target : FreezeControllable S)
    → (a : SovereignAuthority) (now : ℕ) (successor : ActingPrime) (stepped_down_at : Option ℕ)
    → (action reason : String) (issued_at : ℕ) (s : S) → successor.id ≢ a.acting.id
    → (attempt digest target a a.acting.id acting_prime "FREEZE" reason issued_at s
        ≡ applied (target.freeze reason s))
      × (attempt digest target a a.acting.id acting_prime "UNFREEZE" reason issued_at s
          ≡ applied (target.unfreeze reason s))
      × (attempt digest target
            (succeed digest sha256 now successor stepped_down_at a)
            a.acting.id
            acting_prime
            action
            reason
            issued_at
            s
          ≡ refused (template ("'" ∷ a.acting.id ∷ "' is not a live sovereign" ∷ [])))
      × (attempt digest target
            (succeed digest sha256 now successor stepped_down_at a)
            a.acting.id
            former_prime
            "FREEZE"
            reason
            issued_at
            s
          ≡ applied (target.freeze reason s))
      × (attempt digest target
            (succeed digest sha256 now successor stepped_down_at a)
            a.acting.id
            former_prime
            "UNFREEZE"
            reason
            issued_at
            s
          ≡ applied (target.unfreeze reason s))
unfolding apply_holloway_override verify_override_token mint_override_token is_acting_prime
    is_former_prime succeed
minted_override S digest sha256 target a now successor stepped_down_at action reason issued_at s
      other =
    let f : HollowayRole → String → TokenFields = λ role action. record {
      issued_by = a.acting.id;
      authority = role_name role;
      action = action;
      reason = reason;
      issued_at = issued_at;
    } in
    let signed : (role : HollowayRole) (action : String)
        → (sign_override_token digest (f role action) == sign_override_token digest (f role action))
          ≡ true =
      λ role action. ==_refl (sign_override_token digest (f role action)) in
    let stays = lookup-insert_self a.acting.id (outgoing_of a now stepped_down_at) a.formers in
    (
      rw (signed acting_prime "FREEZE", ==_refl a.acting.id) refl,
      rw (signed acting_prime "UNFREEZE", ==_refl a.acting.id) refl,
      rw (signed acting_prime action, ==_ne successor.id a.acting.id other) refl,
      rw (signed former_prime "FREEZE", stays, contains) refl,
      rw (signed former_prime "UNFREEZE", stays, contains) refl,
    )

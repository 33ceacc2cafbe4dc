-- ===== src/Knoll/ActiveRouter/Sweep.antt =====
-- What a sweep of health probes of hdv-foundation/knoll/active_router.ts leaves behind.
use mathlib.Core.List.{append_assoc, append-nil}
use hdv_orchestrator.Common.{
  ℕ, suc, ◌+◌, String, List, [], ◌∷◌, ◌++◌, map, length, ◌≡◌, refl, arith, ap, ◌∙◌, sym,
}
use hdv_orchestrator.Config.Routing.{AgentRole}
use hdv_orchestrator.Persistence.Records.{allowed}
use hdv_orchestrator.Knoll.Audit.{SecurityAuditLog, Stamp, blocked, count, blocked-write}
use hdv_orchestrator.Knoll.ActiveRouter.{
  KnollActiveRouter, HealthSample, ProbeReadings, emit, sample, sample_each, sample_all,
}

module _ (latency_text : ℕ → String) where
  emit_allowed :
      (stamp : Stamp) (s : HealthSample) (audit : SecurityAuditLog)
      → (count (emit latency_text stamp s audit) ≡ count audit + 1)
        × (blocked (emit latency_text stamp s audit) ≡ blocked audit)
  unfolding emit
  emit_allowed stamp s audit = blocked-write stamp _ allowed _ audit

module _ {W : Type 0} (latency_text : ℕ → String) where
  -- The samples taken are the new ones of the log, one for each surface in order; the audit has one
  -- entry more for each, and the same blocked ones.
  abbrev pub IsSwept :
      List AgentRole → KnollActiveRouter W → List HealthSample × KnollActiveRouter W → Type 0
  IsSwept roles before outcome =
      (outcome.1.samples ≡ before.samples ++ outcome.0)
      × (map (λ s. s.role) outcome.0 ≡ roles)
      × (count outcome.1.audit ≡ count before.audit + length roles)
      × (blocked outcome.1.audit ≡ blocked before.audit)

  sample_each-IsSwept :
      (r : ℕ → ProbeReadings) (i : ℕ) (roles : List AgentRole) (router : KnollActiveRouter W)
      → IsSwept roles router (sample_each latency_text r i roles router)
  unfolding sample_each sample
  sample_each-IsSwept r i [] router = (sym (append-nil _), refl, omega arith, refl)
  sample_each-IsSwept r i (role ∷ roles) router =
      let taken = (sample latency_text (r i) role router).0 in
      let after = (sample latency_text (r i) role router).1 in
      let rest = (sample_each latency_text r (suc i) roles after).0 in
      let (more, same, counted, quiet) = sample_each-IsSwept r (suc i) roles after in
      let (one, clean) = emit_allowed latency_text (r i).stamp taken router.audit in
      (
        more ∙ append_assoc router.samples (taken ∷ []) rest,
        ap (λ rs. role ∷ rs) same,
        omega (arith, counted, one),
        quiet ∙ clean,
      )

  -- A full sweep, whatever the probes report, return or throw, takes one sample for each surface in
  -- order and logs exactly those, writes as many audit entries, and blocks nothing.
  sample_all-IsSwept :
      (r : ℕ → ProbeReadings) (router : KnollActiveRouter W)
      → IsSwept router.surfaces router (sample_all latency_text r router)
  unfolding sample_all
  sample_all-IsSwept r router = sample_each-IsSwept r 0 router.surfaces router

-- ===== src/Knoll/ActiveRouter.antt =====
-- hdv-foundation/knoll/active_router.ts, `KnollActiveRouter`. A probe is a function of a state `W`,
-- which stands for the surfaces outside KNOLL; it reports, returns nothing or throws. Latencies are
-- in ten-thousandths of a millisecond, to which `round4` rounds; how JavaScript prints them is the
-- argument `latency_text`.
pub mod Sweep
use hdv_orchestrator.Common.{
  ℕ, zero, suc, ◌+◌, ◌-◌, String, Option, none, some, List, [], ◌∷◌, ◌++◌, or_else, ◌==◌, string_eq,
  if◌then◌else◌,
}
use hdv_orchestrator.JsMap.{Entries, lookup, insert}
use hdv_orchestrator.Text.Decimal.{template}
use hdv_orchestrator.Config.Routing.{AgentRole, role_name, role_eq, hope, vision, dream, apex}
use hdv_orchestrator.Persistence.Records.{allowed}
use hdv_orchestrator.Knoll.Audit.{SecurityAuditLog, Stamp, write}

pub data HealthStatus : Type 0 where
  healthy degraded unreachable : HealthStatus

abbrev pub status_name : HealthStatus → String
status_name healthy = "healthy"
status_name degraded = "degraded"
status_name unreachable = "unreachable"

-- `DEFAULT_PROBE_SURFACES`
abbrev pub default_surfaces : List AgentRole
default_surfaces = hope ∷ vision ∷ dream ∷ apex ∷ []

pub data ProbeOutcome : Type 0 where
  silent : ProbeOutcome
  reported : (status : Option HealthStatus) (detail : Option String) → ProbeOutcome
  raised : (message : String) → ProbeOutcome

abbrev pub HealthProbe : Type 0 → Type 0
HealthProbe W = W → ProbeOutcome × W

pub record HealthSample : Type 0 where
  pub role : AgentRole
  pub status : HealthStatus
  pub latency_ms : ℕ
  pub detail : Option String
  pub timestamp : ℕ

pub record KnollActiveRouter (W : Type 0) : Type 0 where
  pub audit : SecurityAuditLog
  pub surfaces : List AgentRole
  pub probes : Entries AgentRole (HealthProbe W)
  pub samples : List HealthSample
  pub world : W

-- What the two clocks and the audit's id generator give during one sample.
pub record ProbeReadings : Type 0 where
  pub start : ℕ
  pub stop : ℕ
  pub now : ℕ
  pub stamp : Stamp

-- The status and the detail that an outcome stands for.
abbrev pub read_outcome : ProbeOutcome → HealthStatus × Option String
read_outcome silent = (healthy, none)
read_outcome (reported status detail) = (or_else status healthy, detail)
read_outcome (raised message) = (unreachable, some message)

-- The call of the probe, if one is registered.
unfoldable pub ask : {W : Type 0} → Option (HealthProbe W) → W → (HealthStatus × Option String) × W
ask none world = ((unreachable, some "no health probe registered"), world)
ask (some probe) world = let (outcome, after) = probe world in (read_outcome outcome, after)

abbrev pub detail_text : Option String → String
detail_text none = ""
detail_text (some detail) = if detail == "" then "" else template (" detail=" ∷ detail ∷ [])

module _ (latency_text : ℕ → String) where
  unfoldable pub emit : Stamp → HealthSample → SecurityAuditLog → SecurityAuditLog
  emit stamp s audit =
      write stamp (template ("knoll-probe:" ∷ role_name s.role ∷ [])) allowed
        (some (
          template (
            "KNOLL_HEALTH_PROBE role="
            ∷ role_name s.role
            ∷ " status="
            ∷ status_name s.status
            ∷ " latencyMs="
            ∷ latency_text s.latency_ms
            ∷ detail_text s.detail
            ∷ [])))
        audit

unfoldable pub latest_of : AgentRole → List HealthSample → Option HealthSample
latest_of role [] = none
latest_of role (s ∷ ss) =
    let rest = latest_of role ss in
    elim rest [ none ↦ (if s.role == role then some s else none) | some later ↦ some later ]

module _ {W : Type 0} where
  unfoldable pub register_probe :
      AgentRole → HealthProbe W → KnollActiveRouter W → KnollActiveRouter W
  register_probe role probe router = record router { probes = insert role probe router.probes }

  unfoldable pub latest : AgentRole → KnollActiveRouter W → Option HealthSample
  unfolding latest_of
  latest role router = latest_of role router.samples

  unfoldable pub clear : KnollActiveRouter W → KnollActiveRouter W
  clear router = record router { samples = [] }

module _ {W : Type 0} (latency_text : ℕ → String) where
  unfoldable pub sample :
      ProbeReadings → AgentRole → KnollActiveRouter W → HealthSample × KnollActiveRouter W
  unfolding ask emit
  sample r role router =
      let (found, after) = ask (lookup role router.probes) router.world in
      let taken : HealthSample = record {
        role = role;
        status = found.0;
        latency_ms = r.stop - r.start;
        detail = found.1;
        timestamp = r.now;
      } in
      (
        taken,
        record router {
          samples = router.samples ++ taken ∷ [];
          audit = emit latency_text r.stamp taken router.audit;
          world = after;
        },
      )

  -- `surfaces.map((role) => this.sample(role))`, with the readings of each sample by its number.
  unfoldable pub sample_each :
      (ℕ → ProbeReadings)
      → ℕ
      → List AgentRole
      → KnollActiveRouter W
      → List HealthSample × KnollActiveRouter W
  unfolding sample
  sample_each r i [] router = ([], router)
  sample_each r i (role ∷ roles) router =
      let (taken, after) = sample (r i) role router in
      let (rest, last) = sample_each r (suc i) roles after in (taken ∷ rest, last)

  unfoldable pub sample_all :
      (ℕ → ProbeReadings) → KnollActiveRouter W → List HealthSample × KnollActiveRouter W
  unfolding sample_each
  sample_all r router = sample_each r 0 router.surfaces router

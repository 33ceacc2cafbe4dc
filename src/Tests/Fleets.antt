-- ===== src/Tests/Fleets.antt =====
-- A fleet that is used, and a sweep of health probes.
use hdv_orchestrator.Common.{ℕ, ◌+◌, true, false, none, some, List, [], ◌∷◌, ◌≡◌, refl}
use hdv_orchestrator.Text.Decimal.{decimal, padded}
use hdv_orchestrator.Config.Routing.{hope, dream, vision}
use hdv_orchestrator.Knoll.ActiveRouter.{
  KnollActiveRouter, ProbeReadings, silent, raised, healthy, unreachable, sample_all,
}
use hdv_orchestrator.Nodes.Fleet.{
  NodeFleet, Call, materializing, releasing, run, live_count, active_count, idle_count,
}
use hdv_orchestrator.Nodes.Fleet.Counts.{run_counts}

abbrev fleet : NodeFleet
fleet = record { live = []; repository = some [] }

abbrev calls : List Call
calls =
    materializing 1 hope 0 7 false
    ∷ materializing 2 dream 3 4 true
    ∷ materializing 3 dream 3 5 true
    ∷ releasing 4 "HOPE-mgr-00-node-07"
    ∷ releasing 5 "DREAM-mgr-03-node-04"
    ∷ []

fleet_runs :
    (live_count (run calls fleet) ≡ 2)
    × (active_count (run calls fleet) ≡ 1)
    × (idle_count (run calls fleet) ≡ 1)
unfolding run live_count active_count idle_count padded
fleet_runs = (refl, refl, refl)

run_counts_example :
    active_count (run calls fleet) + idle_count (run calls fleet) ≡ live_count (run calls fleet)
run_counts_example = run_counts calls fleet tt

abbrev prober : KnollActiveRouter ℕ
prober = record {
  audit = record { entries = []; repository = none };
  surfaces = hope ∷ dream ∷ vision ∷ [];
  probes = (hope, λ w. (silent, w + 1)) ∷ (vision, λ w. (raised "down", w)) ∷ [];
  samples = [];
  world = 0;
}

abbrev times : ℕ → ProbeReadings
times i = record { start = 5; stop = 9; now = 20 + i; stamp = record { id = "s"; at = 30 + i } }

sweep_runs :
    ((sample_all decimal times prober).1.world ≡ 1)
    × ((sample_all decimal times prober).1.samples
        ≡ record { role = hope; status = healthy; latency_ms = 4; detail = none; timestamp = 20 }
          ∷ record {
            role = dream;
            status = unreachable;
            latency_ms = 4;
            detail = some "no health probe registered";
            timestamp = 21;
          }
          ∷ record {
            role = vision;
            status = unreachable;
            latency_ms = 4;
            detail = some "down";
            timestamp = 22;
          }
          ∷ [])
unfolding sample_all
sweep_runs = (refl, refl)

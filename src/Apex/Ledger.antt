-- ===== src/Apex/Ledger.antt =====
-- hdv-foundation/apex/ledger.ts, `InMemoryLedger`. A row has the shape of the repository's record.
-- Costs are in billionths of a dollar, and `round2` rounds them to millionths; `Number.EPSILON`, which
-- it adds, is far below a billionth and changes no such cost's rounding. Negative and finer costs are
-- not modelled.
pub mod Rows
use Prim.Native.String.{◌++◌ as text_append}
use hdv_orchestrator.Common.{
  or_else, ℕ, ◌+◌, ◌*◌, ◌/◌, String, Option, none, some, List, [], ◌∷◌, ◌++◌, length, filter_by,
}
use hdv_orchestrator.Text.Decimal.{padded}
use hdv_orchestrator.Config.Routing.{RoutingStatus}
use hdv_orchestrator.Persistence.Records.{RequestLogRecord, same_routing_status}
use hdv_orchestrator.Persistence.RequestLog

pub record LogRequestInput : Type 0 where
  pub packet_id : String
  pub source : String
  pub destination : String
  pub status : RoutingStatus
  pub cost_usd : Option ℕ
  pub knoll_signature : String
  pub timestamp : Option ℕ

pub record InMemoryLedger : Type 0 where
  pub rows : List RequestLogRecord
  pub seq : ℕ
  pub repository : Option (List RequestLogRecord)

-- `led_${n.toString().padStart(8, '0')}`
unfoldable pub ledger_id : ℕ → String
unfolding padded
ledger_id n = text_append "led_" (padded 8 n)

-- `Math.round(n * 1e6) / 1e6`: the nearest millionth, and the upper one of two.
unfoldable pub round2 : ℕ → ℕ
round2 n = (n + 500) / 1000 * 1000

unfoldable pub entry_of : ℕ → LogRequestInput → ℕ → RequestLogRecord
unfolding round2
entry_of now input n = record {
  id = ledger_id n;
  packet_id = input.packet_id;
  timestamp = or_else input.timestamp now;
  source = input.source;
  destination = input.destination;
  status = input.status;
  cost_usd = round2 (or_else input.cost_usd 0);
  knoll_signature = input.knoll_signature;
}

abbrev mirror : RequestLogRecord → Option (List RequestLogRecord) → Option (List RequestLogRecord)
mirror row none = none
mirror row (some rows) = some (RequestLog.save row rows)

-- `logRequest`, and `request`, which is another name for it.
unfoldable pub log_request :
    ℕ → LogRequestInput → InMemoryLedger → RequestLogRecord × InMemoryLedger
unfolding entry_of
log_request now input ledger =
    let next = ledger.seq + 1 in
    let entry = entry_of now input next in
    (
      entry,
      record {
        rows = ledger.rows ++ entry ∷ [];
        seq = next;
        repository = mirror entry ledger.repository;
      },
    )

-- `rows.reduce((sum, r) => sum + r.cost_usd, 0)`
unfoldable pub sum_costs : List RequestLogRecord → ℕ
sum_costs [] = 0
sum_costs (row ∷ rows) = row.cost_usd + sum_costs rows

unfoldable pub total_cost : InMemoryLedger → ℕ
unfolding sum_costs round2
total_cost ledger = round2 (sum_costs ledger.rows)

unfoldable pub cost_by_status : RoutingStatus → InMemoryLedger → ℕ
unfolding sum_costs round2
cost_by_status status ledger =
    round2 (sum_costs (filter_by (λ r. same_routing_status r.status status) ledger.rows))

unfoldable pub count_by_status : RoutingStatus → InMemoryLedger → ℕ
count_by_status status ledger =
    length (filter_by (λ r. same_routing_status r.status status) ledger.rows)

unfoldable pub clear : InMemoryLedger → InMemoryLedger
clear ledger = record ledger { rows = []; seq = 0 }

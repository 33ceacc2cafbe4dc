-- ===== src/Persistence/RequestLog.antt =====
-- hdv-foundation/persistence/repositories.ts, `InMemoryRequestLogRepository`: the rows in order.
use hdv_orchestrator.Common.{
  ℕ, ◌+◌, String, Option, List, [], ◌∷◌, ◌++◌, ◌==◌, string_eq, if◌then◌else◌, length, filter_by,
  find_by, filter_by-append, length-append, ◌≡◌, arith,
}
use hdv_orchestrator.Config.Routing.{RoutingStatus}
use hdv_orchestrator.Persistence.Records.{RequestLogRecord, same_routing_status}

unfoldable pub save : RequestLogRecord → List RequestLogRecord → List RequestLogRecord
save row rows = rows ++ row ∷ []

unfoldable pub find_by_packet_id : String → List RequestLogRecord → Option RequestLogRecord
find_by_packet_id packet_id rows = find_by (λ r. r.packet_id == packet_id) rows

unfoldable pub count_by_status : RoutingStatus → List RequestLogRecord → ℕ
count_by_status status rows = length (filter_by (λ r. same_routing_status r.status status) rows)

pub count_by_status-save :
    (row : RequestLogRecord) (status : RoutingStatus) (rows : List RequestLogRecord)
    → count_by_status status (save row rows)
      ≡ count_by_status status rows + (if same_routing_status row.status status then 1 else 0)
unfolding count_by_status save
count_by_status-save row status rows =
    rw
      (
        filter_by-append (λ r. same_routing_status r.status status) rows (row ∷ []),
        length-append (filter_by (λ r. same_routing_status r.status status) rows),
      )
      (ground arith)

unfoldable pub clear : List RequestLogRecord → List RequestLogRecord
clear rows = []

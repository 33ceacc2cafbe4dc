-- ===== src/Persistence/NodeIdentity.antt =====
-- hdv-foundation/persistence/repositories.ts, `InMemoryNodeIdentityRepository`: a map by node id.
use hdv_orchestrator.Common.{[], ℕ, String, Option, string_eq, length, filter_by}
use hdv_orchestrator.JsMap.{Entries, lookup, insert, values}
use hdv_orchestrator.Persistence.Records.{NodeIdentityRecord, NodeStatus, same_node_status}

unfoldable pub upsert :
    NodeIdentityRecord → Entries String NodeIdentityRecord → Entries String NodeIdentityRecord
upsert row rows = insert row.node_id row rows

unfoldable pub get : String → Entries String NodeIdentityRecord → Option NodeIdentityRecord
get node_id rows = lookup node_id rows

unfoldable pub count_by_status : NodeStatus → Entries String NodeIdentityRecord → ℕ
count_by_status status rows =
    length (filter_by (λ r. same_node_status r.status status) (values rows))

unfoldable pub clear : Entries String NodeIdentityRecord → Entries String NodeIdentityRecord
clear rows = []

-- ===== src/Persistence/CompanionMemory.antt =====
-- hdv-foundation/persistence/repositories.ts, `InMemoryCompanionMemoryRepository`: a map by companion id.
use hdv_orchestrator.Common.{[], String, Option, string_eq}
use hdv_orchestrator.JsMap.{Entries, lookup, insert}
use hdv_orchestrator.Persistence.Records.{CompanionMemoryRecord}

unfoldable pub get : String → Entries String CompanionMemoryRecord → Option CompanionMemoryRecord
get companion_id rows = lookup companion_id rows

unfoldable pub upsert :
    CompanionMemoryRecord
    → Entries String CompanionMemoryRecord
    → Entries String CompanionMemoryRecord
upsert row rows = insert row.companion_id row rows

unfoldable pub clear : Entries String CompanionMemoryRecord → Entries String CompanionMemoryRecord
clear rows = []

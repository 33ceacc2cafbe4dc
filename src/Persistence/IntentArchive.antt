-- ===== src/Persistence/IntentArchive.antt =====
-- hdv-foundation/persistence/repositories.ts, `InMemoryIntentArchiveRepository`: a map by document id.
use hdv_orchestrator.Common.{[], String, Option, List, string_eq, filter_by}
use hdv_orchestrator.JsMap.{Entries, lookup, insert, values}
use hdv_orchestrator.Persistence.Records.{IntentDocumentRecord}

unfoldable pub save :
    IntentDocumentRecord → Entries String IntentDocumentRecord → Entries String IntentDocumentRecord
save row rows = insert row.id row rows

unfoldable pub get : String → Entries String IntentDocumentRecord → Option IntentDocumentRecord
get id rows = lookup id rows

unfoldable pub needing_clarification :
    Entries String IntentDocumentRecord → List IntentDocumentRecord
needing_clarification rows = filter_by (λ r. r.clarification_needed) (values rows)

unfoldable pub clear : Entries String IntentDocumentRecord → Entries String IntentDocumentRecord
clear rows = []

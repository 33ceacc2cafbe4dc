-- ===== src/Persistence/CreatorProfiles.antt =====
-- hdv-foundation/persistence/repositories.ts, `InMemoryCreatorProfileRepository`: a map by user id.
use hdv_orchestrator.Common.{[], String, Option, string_eq}
use hdv_orchestrator.JsMap.{Entries, lookup, insert}
use hdv_orchestrator.Persistence.Records.{CreatorProfileRecord}

unfoldable pub upsert :
    CreatorProfileRecord → Entries String CreatorProfileRecord → Entries String CreatorProfileRecord
upsert row rows = insert row.user_id row rows

unfoldable pub get : String → Entries String CreatorProfileRecord → Option CreatorProfileRecord
get user_id rows = lookup user_id rows

unfoldable pub clear : Entries String CreatorProfileRecord → Entries String CreatorProfileRecord
clear rows = []

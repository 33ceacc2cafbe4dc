-- ===== src/Persistence/Sessions.antt =====
-- hdv-foundation/persistence/repositories.ts, `InMemorySessionRepository`: a map by token.
use hdv_orchestrator.Common.{[], String, Option, string_eq}
use hdv_orchestrator.JsMap.{Entries, lookup, insert, erase}
use hdv_orchestrator.Persistence.Records.{SessionRecord}

unfoldable pub create : SessionRecord → Entries String SessionRecord → Entries String SessionRecord
create row rows = insert row.token row rows

unfoldable pub find_by_token : String → Entries String SessionRecord → Option SessionRecord
find_by_token token rows = lookup token rows

unfoldable pub delete : String → Entries String SessionRecord → Entries String SessionRecord
delete token rows = erase token rows

unfoldable pub clear : Entries String SessionRecord → Entries String SessionRecord
clear rows = []

-- ===== src/Persistence/SecurityAudit.antt =====
-- hdv-foundation/persistence/repositories.ts, `InMemorySecurityAuditRepository`: the rows in order.
use hdv_orchestrator.Common.{List, [], ◌∷◌, ◌++◌, filter_by}
use hdv_orchestrator.Persistence.Records.{SecurityAuditRecord, is_blocked}

unfoldable pub save : SecurityAuditRecord → List SecurityAuditRecord → List SecurityAuditRecord
save row rows = rows ++ row ∷ []

unfoldable pub blocked : List SecurityAuditRecord → List SecurityAuditRecord
blocked rows = filter_by (λ r. is_blocked r.outcome) rows

unfoldable pub clear : List SecurityAuditRecord → List SecurityAuditRecord
clear rows = []

-- ===== src/Knoll/Audit.antt =====
-- hdv-foundation/knoll/audit.ts, `SecurityAuditLog`. The id of an entry (`randomUUID`) and its time
-- (`Date.now`) are arguments; an entry has the shape of the repository's record.
use hdv_orchestrator.Common.{
  ℕ, ◌+◌, String, Option, none, some, List, [], ◌∷◌, ◌++◌, length, filter_by, ◌≡◌, ◌⊎◌, ◌∙◌, refl,
  arith, if◌then◌else◌, length-append, filter_by-append,
}
use mathlib.Core.List.{append-nil}
use hdv_orchestrator.Persistence.Records.{SecurityAuditRecord, AuditOutcome, allowed, is_blocked}
use hdv_orchestrator.Persistence.SecurityAudit

pub record SecurityAuditLog : Type 0 where
  pub entries : List SecurityAuditRecord
  pub repository : Option (List SecurityAuditRecord)

-- What the calls of `randomUUID` and `Date.now` give for one entry.
pub record Stamp : Type 0 where
  pub id : String
  pub at : ℕ

abbrev pub entry_of : Stamp → String → AuditOutcome → Option String → SecurityAuditRecord
entry_of stamp packet_id outcome reasoning = record {
  id = stamp.id;
  packet_id = packet_id;
  outcome = outcome;
  reasoning = reasoning;
  timestamp = stamp.at;
}

abbrev mirror :
    SecurityAuditRecord → Option (List SecurityAuditRecord) → Option (List SecurityAuditRecord)
mirror entry none = none
mirror entry (some rows) = some (SecurityAudit.save entry rows)

unfoldable pub write :
    Stamp → String → AuditOutcome → Option String → SecurityAuditLog → SecurityAuditLog
write stamp packet_id outcome reasoning log = record {
  entries = log.entries ++ entry_of stamp packet_id outcome reasoning ∷ [];
  repository = mirror (entry_of stamp packet_id outcome reasoning) log.repository;
}

unfoldable pub blocked : SecurityAuditLog → List SecurityAuditRecord
blocked log = filter_by (λ r. is_blocked r.outcome) log.entries

unfoldable pub count : SecurityAuditLog → ℕ
count log = length log.entries

unfoldable pub clear : SecurityAuditLog → SecurityAuditLog
clear log = record log { entries = [] }

-- The repository, if there is one, holds the very entries of the log.
abbrev pub IsMirrored : SecurityAuditLog → Type 0
IsMirrored log = (log.repository ≡ none) ⊎ (log.repository ≡ some log.entries)

-- Writing keeps a mirrored log mirrored.
pub write-IsMirrored :
    (stamp : Stamp) (packet_id : String) (outcome : AuditOutcome) (reasoning : Option String)
    (log : SecurityAuditLog)
    → IsMirrored log
    → IsMirrored (write stamp packet_id outcome reasoning log)
unfolding write SecurityAudit.save
write-IsMirrored stamp packet_id outcome reasoning log h = ground arith

blocked_case :
    (outcome : AuditOutcome) (entry : SecurityAuditRecord) (rows : List SecurityAuditRecord)
    → rows ++ (if is_blocked outcome then entry ∷ [] else [])
      ≡ (if is_blocked outcome then rows ++ entry ∷ [] else rows)
blocked_case allowed entry rows = append-nil rows
blocked_case AuditOutcome.blocked entry rows = refl

-- A write appends one entry, which is among the blocked ones exactly if its outcome says so.
pub blocked-write :
    (stamp : Stamp) (packet_id : String) (outcome : AuditOutcome) (reasoning : Option String)
    (log : SecurityAuditLog)
    → (count (write stamp packet_id outcome reasoning log) ≡ count log + 1)
      × (blocked (write stamp packet_id outcome reasoning log) ≡ (
          if is_blocked outcome
          then blocked log ++ entry_of stamp packet_id outcome reasoning ∷ []
          else blocked log))
unfolding write count blocked
blocked-write stamp packet_id outcome reasoning log =
    let entry = entry_of stamp packet_id outcome reasoning in
    (
      omega (arith, length-append {0} log.entries (entry ∷ [])),
      filter_by-append (λ r. is_blocked r.outcome) log.entries (entry ∷ [])
          ∙ blocked_case outcome entry (filter_by (λ r. is_blocked r.outcome) log.entries),
    )

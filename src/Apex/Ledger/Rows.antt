-- ===== src/Apex/Ledger/Rows.antt =====
-- The rows of the ledger of hdv-foundation/apex/ledger.ts: their numbers, their sums and the rounding
-- of their costs.
use hdv_orchestrator.Common.{
  ℕ, ◌+◌, ◌%◌, ◌≤◌, ◌<◌, suc, List, [], ◌∷◌, ◌++◌, length, length-append, ◌≡◌, refl, arith, ap, ◌∙◌,
}
use hdv_orchestrator.Persistence.Records.{RequestLogRecord}
use hdv_orchestrator.Apex.Ledger.{
  InMemoryLedger, LogRequestInput, ledger_id, round2, entry_of, log_request, sum_costs,
}

-- The rows bear the numbers from `n` on, in order.
abbrev Numbered : ℕ → List RequestLogRecord → Type 0
Numbered n [] = Unit
Numbered n (row ∷ rows) = (row.id ≡ ledger_id n) × Numbered (suc n) rows

-- The rows bear the numbers from 1 on, and `seq` is the last of them.
abbrev pub IsNumbered : InMemoryLedger → Type 0
IsNumbered ledger = (ledger.seq ≡ length ledger.rows) × Numbered 1 ledger.rows

Numbered-append :
    (n m : ℕ) (rows : List RequestLogRecord) (row : RequestLogRecord)
    → Numbered n rows
    → m ≡ n + length rows
    → row.id ≡ ledger_id m
    → Numbered n (rows ++ row ∷ [])
Numbered-append n m [] row h e i = (i ∙ ap ledger_id (omega (arith, e)), tt)
Numbered-append n m (x ∷ rows) row h e i =
    (h.0, Numbered-append (suc n) m rows row h.1 (omega (arith, e)) i)

-- A ledger whose rows are numbered from 1 on in order stays so, with one row more.
log_request-IsNumbered :
    (now : ℕ) (input : LogRequestInput) (ledger : InMemoryLedger)
    → IsNumbered ledger
    → IsNumbered (log_request now input ledger).1
unfolding log_request entry_of
log_request-IsNumbered now input ledger h =
    let row = entry_of now input (ledger.seq + 1) in
    (
      omega (arith, h.0, length-append ledger.rows (row ∷ [])),
      Numbered-append 1 (ledger.seq + 1) ledger.rows row h.1 (omega (arith, h.0)) refl,
    )

pub sum_costs-append :
    (rows more : List RequestLogRecord) → sum_costs (rows ++ more) ≡ sum_costs rows + sum_costs more
unfolding sum_costs
sum_costs-append [] more = omega arith
sum_costs-append (row ∷ rows) more = omega (arith, sum_costs-append rows more)

-- What a cost is rounded to: whole millionths, not more than half a millionth above it and less than
-- half a one below it.
abbrev pub IsRounded : ℕ → ℕ → Type 0
IsRounded cost rounded = (rounded % 1000 ≡ 0) × (rounded ≤ cost + 500) × (cost < rounded + 500)

pub round2-IsRounded : (cost : ℕ) → IsRounded cost (round2 cost)
unfolding round2
round2-IsRounded cost = (omega arith, omega arith, omega arith)

-- There is one such rounding.
pub IsRounded-unique : (cost rounded : ℕ) → IsRounded cost rounded → rounded ≡ round2 cost
unfolding round2
IsRounded-unique cost rounded (whole, above, below) = omega arith

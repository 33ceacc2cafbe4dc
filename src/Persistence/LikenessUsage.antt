-- ===== src/Persistence/LikenessUsage.antt =====
-- hdv-foundation/persistence/repositories.ts, `InMemoryLikenessUsageEventRepository`: the events in
-- order, with amounts in millionths of a dollar.
use hdv_orchestrator.Common.{
  ℕ, ◌+◌, String, List, [], ◌∷◌, ◌++◌, ◌==◌, string_eq, if◌then◌else◌, filter_by, filter_by-append,
  ◌≡◌, arith,
}
use hdv_orchestrator.Persistence.Records.{LikenessUsageEventRecord}

unfoldable pub append :
    LikenessUsageEventRecord → List LikenessUsageEventRecord → List LikenessUsageEventRecord
append event rows = rows ++ event ∷ []

unfoldable pub by_creator : String → List LikenessUsageEventRecord → List LikenessUsageEventRecord
by_creator creator rows = filter_by (λ r. r.creator_user_id == creator) rows

-- The `reduce` of `sumAccruedUsd`.
abbrev pub sum_accrued : List LikenessUsageEventRecord → ℕ
sum_accrued [] = 0
sum_accrued (r ∷ rows) = r.accrued_usd + sum_accrued rows

unfoldable pub sum_accrued_usd : String → List LikenessUsageEventRecord → ℕ
unfolding by_creator
sum_accrued_usd creator rows = sum_accrued (by_creator creator rows)

sum_accrued-append :
    (xs ys : List LikenessUsageEventRecord)
    → sum_accrued (xs ++ ys) ≡ sum_accrued xs + sum_accrued ys
sum_accrued-append [] ys = omega arith
sum_accrued-append (x ∷ xs) ys = omega (arith, sum_accrued-append xs ys)

-- A recorded event adds its amount to the earnings of its own creator, and leaves the earnings of
-- every other creator as they were.
sum_accrued_usd-append :
    (event : LikenessUsageEventRecord) (creator : String) (rows : List LikenessUsageEventRecord)
    → sum_accrued_usd creator (append event rows)
      ≡ sum_accrued_usd creator rows
        + (if event.creator_user_id == creator then event.accrued_usd else 0)
unfolding sum_accrued_usd append
sum_accrued_usd-append event creator rows =
    rw
      (
        filter_by-append (λ r. r.creator_user_id == creator) rows (event ∷ []),
        sum_accrued-append (filter_by (λ r. r.creator_user_id == creator) rows),
      )
      (ground arith)

unfoldable pub clear : List LikenessUsageEventRecord → List LikenessUsageEventRecord
clear rows = []

-- ===== src/Knoll/Rate.antt =====
-- hdv-foundation/knoll/validator.ts, `checkRate`: the fixed window of each source.
pub mod Bound
use hdv_orchestrator.Common.{
  ℕ, ◌+◌, String, Bool, Option, none, some, List, [], ◌∷◌, if◌then◌else◌, leb, ltb,
}
use hdv_orchestrator.Text.Decimal.{template, decimal}
use hdv_orchestrator.Config.Routing.{KnollValidationResponse}
use hdv_orchestrator.Knoll.Structure.{deny, allow}

pub record RateBucket : Type 0 where
  pub window_start : ℕ
  pub count : ℕ

rate_exceeded : String → ℕ → ℕ → KnollValidationResponse
unfolding decimal
rate_exceeded source limit window =
    deny
      (template (
        "rate limit exceeded for "
        ∷ source
        ∷ " ("
        ∷ decimal limit
        ∷ "/"
        ∷ decimal window
        ∷ "ms)"
        ∷ []))
      ("RATE_LIMIT" ∷ [])

-- `checkRate` on the bucket of the source: the verdict, and the bucket afterwards.
unfoldable pub check_bucket :
    String → ℕ → ℕ → ℕ → Option RateBucket → KnollValidationResponse × RateBucket
unfolding rate_exceeded
check_bucket source limit window t none = (allow, record { window_start = t; count = 1 })
check_bucket source limit window t (some bucket) =
    if leb (bucket.window_start + window) t
    then (allow, record { window_start = t; count = 1 })
    else (if ltb limit (bucket.count + 1)
        then (rate_exceeded source limit window, record bucket { count = bucket.count + 1 })
        else (allow, record bucket { count = bucket.count + 1 }))

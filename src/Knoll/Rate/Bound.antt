-- ===== src/Knoll/Rate/Bound.antt =====
-- How many packets of one source hdv-foundation/knoll/validator.ts lets through in one window.
use Prim.Native.Nat.{min}
use hdv_orchestrator.Common.{
  ℕ, ◌+◌, ◌-◌, ◌<◌, String, Option, none, some, List, [], ◌∷◌, if◌then◌else◌, length, All, ◌≡◌,
  arith,
}
use hdv_orchestrator.Knoll.Rate.{RateBucket, check_bucket}

module _ (source : String) (limit window : ℕ) where
  -- The number of packets that pass, of packets that arrive at the given times.
  abbrev pub passed : List ℕ → Option RateBucket → ℕ
  passed [] bucket = 0
  passed (t ∷ ts) bucket =
      let step = check_bucket source limit window t bucket in
      let rest = passed ts (some step.1) in if step.0.is_allowed then 1 + rest else rest

  passed_in_window :
      (ts : List ℕ) (bucket : RateBucket)
      → All (λ t. t < bucket.window_start + window) ts
      → passed ts (some bucket) ≡ min (length ts) (limit - bucket.count)
  unfolding check_bucket
  passed_in_window [] bucket h = omega arith
  passed_in_window (t ∷ ts) bucket h =
      ground (arith, passed_in_window ts (record bucket { count = bucket.count + 1 }) h.1)

  -- Of the packets of a source that arrive within one window, the first included, exactly the first
  -- ones pass, as many as the limit says and never less than one.
  pub passed_of_window :
      (t : ℕ) (ts : List ℕ)
      → All (λ u. u < t + window) ts
      → passed (t ∷ ts) none ≡ 1 + min (length ts) (limit - 1)
  unfolding check_bucket
  passed_of_window t ts h =
      ground (arith, passed_in_window ts (record { window_start = t; count = 1 }) h)

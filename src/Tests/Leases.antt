-- ===== src/Tests/Leases.antt =====
-- Leases on concrete calls.
use hdv_orchestrator.Common.{
  String, true, false, if◌then◌else◌, string_eq, none, some, [], ◌∷◌, ◌≡◌, ◌≢◌, refl, inr, arith,
}
use text.Mathlib.TextEquality.{eq_iff}
use hdv_orchestrator.Nodes.Lease.{
  LeaseState, MemEntry, claims, releases, perform, holder_of, token_of,
}
use hdv_orchestrator.Nodes.Lease.Exclusion.{run, lease_kept}
use hdv_orchestrator.Nodes.Lease.Fencing.{IsAbove, acquired_tokens, acquired_tokens-IsAbove}
use hdv_orchestrator.Nodes.Lease.Redis.{RedisLike, RedisLeaseStub, Await, advance, claim, release}
use hdv_orchestrator.JsMap.{Entries, lookup, insert, erase, contains}

abbrev held : MemEntry
held = record { holder = "w1"; expires_at = 110; fencing_token = 1 }

abbrev state : LeaseState
state = record { entries = ("k", held) ∷ []; tokens = ("k", 1) ∷ [] }

other_worker : ◌≢◌ {A = String} "w2" "w1"
other_worker = ground (arith, eq_iff "w2" "w1")

lease_kept_example :
    holder_of "k" 100 (run (claims "k" "w2" 50 20 ∷ releases "k" "w2" 30 ∷ []) state) ≡ some "w1"
lease_kept_example =
    lease_kept (claims "k" "w2" 50 20 ∷ releases "k" "w2" 30 ∷ []) "k" state {e = held} 100 refl
      (inr (refl, other_worker, omega arith), (inr (refl, other_worker, omega arith), tt))
      (omega arith)

takeover :
    acquired_tokens "k"
      (claims "k" "w2" 50 120 ∷ claims "k" "w1" 50 130 ∷ claims "k" "w1" 50 180 ∷ [])
      state
    ≡ 2 ∷ 3 ∷ []
unfolding perform
takeover = refl

acquired_tokens-IsAbove_example :
    IsAbove
      (token_of "k" state)
      (acquired_tokens "k" (claims "k" "w2" 50 120 ∷ claims "k" "w1" 50 180 ∷ []) state)
acquired_tokens-IsAbove_example =
    acquired_tokens-IsAbove (claims "k" "w2" 50 120 ∷ claims "k" "w1" 50 180 ∷ []) "k" state

-- A Redis that only holds the owners of keys.
abbrev owners : RedisLike (Entries String String)
owners = record {
  set_nx = λ key value ttl m. if contains key m then (false, m) else (true, insert key value m);
  get = λ key m. lookup key m;
  pexpire = λ key ttl m. (contains key m, m);
  del = λ key m. erase key m;
}

abbrev owned : RedisLeaseStub (Entries String String)
owned = record { redis = ("k", "w1") ∷ []; token = 1 }

-- "w1" asks who holds the key and is told that it does; the lease then runs out and "w2" claims it.
abbrev asked : Await × RedisLeaseStub (Entries String String)
asked = advance owners 10 (release "k" "w1") owned

abbrev taken_over : Await × RedisLeaseStub (Entries String String)
taken_over = advance owners 11 (claim "k" "w2" 50) (record asked.1 { redis = [] })

w2_holds : lookup "k" taken_over.1.redis ≡ some "w2"
unfolding advance claim release
w2_holds = refl

-- The release of "w1" goes on and deletes the lease of "w2".
release_race : lookup "k" (advance owners 12 asked.0 taken_over.1).1.redis ≡ none
unfolding advance claim release
release_race = refl

-- ===== src/Nodes/Lease/Redis.antt =====
-- hdv-foundation/nodes/lease.ts, `RedisLeaseStub`. The client of Redis is a parameter, by the four
-- operations that the code calls; a method is a machine that stops at each `await`, so that other
-- clients and the time can act on Redis in between.
use hdv_orchestrator.Common.{
  ℕ, suc, ◌+◌, String, Bool, true, false, Option, none, some, ◌==◌, string_eq, if◌then◌else◌,
}
use hdv_orchestrator.Nodes.Lease.{
  LeaseReason, acquired, renewed, held_by_other, not_held, released, LeaseResult, normalize_ttl,
}

-- `set` with NX and PX answers whether it set the key, `pexpire` whether the key exists.
pub record RedisLike (S : Type 0) : Type 0 where
  pub set_nx : String → String → ℕ → S → Bool × S
  pub get : String → S → Option String
  pub pexpire : String → ℕ → S → Bool × S
  pub del : String → S → S

-- The state of Redis and the token counter of this process.
pub record RedisLeaseStub (S : Type 0) : Type 0 where
  pub redis : S
  pub token : ℕ

-- Where a method of the stub waits: for the command that it has sent, or no more.
pub data Await : Type 0 where
  claim_set claim_get claim_expire : (key holder : String) (ttl : ℕ) → Await
  renew_get renew_expire : (key holder : String) (ttl : ℕ) → Await
  release_get release_del : (key holder : String) → Await
  answered : (result : LeaseResult) → Await

abbrev pub refused : LeaseReason → Option String → Await
refused reason held_by =
    answered (record { success = false; reason = reason; claim = none; held_by = held_by })

-- `claimFor`, with the answer that bears it.
abbrev pub claim_for :
    {S : Type 0}
    → ℕ
    → LeaseReason
    → String
    → String
    → ℕ
    → RedisLeaseStub S
    → Await × RedisLeaseStub S
claim_for now reason key holder ttl s = (
  answered (record {
    success = true;
    reason = reason;
    claim = some (record {
      key = key;
      holder = holder;
      expires_at = now + ttl;
      fencing_token = suc s.token;
    });
    held_by = none;
  }),
  record s { token = suc s.token },
)

-- What is done with an answer of `get`: the holder's own key, another's, or none.
abbrev on_holder : String → Option String → Await → Await → Await
on_holder holder (some current) own absent =
    if current == holder then own else refused held_by_other (some current)
on_holder holder none own absent = absent

unfoldable pub claim : String → String → ℕ → Await
unfolding normalize_ttl
claim key holder ttl_ms = claim_set key holder (normalize_ttl ttl_ms)

unfoldable pub renew : String → String → ℕ → Await
unfolding normalize_ttl
renew key holder ttl_ms = renew_get key holder (normalize_ttl ttl_ms)

unfoldable pub release : String → String → Await
release key holder = release_get key holder

-- One command of the method and what follows it, up to the next one.
unfoldable pub advance :
    {S : Type 0} → RedisLike S → ℕ → Await → RedisLeaseStub S → Await × RedisLeaseStub S
advance client now (claim_set key holder ttl) s =
    let (set, redis) = client.set_nx key holder ttl s.redis in
    let after = record s { redis = redis } in
    if set then claim_for now acquired key holder ttl after else (claim_get key holder ttl, after)
advance client now (claim_get key holder ttl) s = (
  on_holder holder (client.get key s.redis) (claim_expire key holder ttl)
      (refused held_by_other none),
  s,
)
advance client now (claim_expire key holder ttl) s =
    claim_for now renewed key holder ttl (record s { redis = (client.pexpire key ttl s.redis).1 })
advance client now (renew_get key holder ttl) s = (
  on_holder holder (client.get key s.redis) (renew_expire key holder ttl) (refused not_held none),
  s,
)
advance client now (renew_expire key holder ttl) s =
    let (set, redis) = client.pexpire key ttl s.redis in
    let after = record s { redis = redis } in
    if set then claim_for now renewed key holder ttl after else (refused not_held none, after)
advance client now (release_get key holder) s =
    (on_holder holder (client.get key s.redis) (release_del key holder) (refused not_held none), s)
advance client now (release_del key holder) s = (
  answered (record { success = true; reason = released; claim = none; held_by = none }),
  record s { redis = client.del key s.redis },
)
advance client now (answered result) s = (answered result, s)

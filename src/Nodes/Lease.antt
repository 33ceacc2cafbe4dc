-- ===== src/Nodes/Lease.antt =====
-- hdv-foundation/nodes/lease.ts, the contract and `InMemoryNodeSliceLease`. The clock's reading is
-- an argument. A time to live is natural; 0 stands for every value that is not a positive number.
pub mod Exclusion
pub mod Fencing
pub mod Redis
use hdv_orchestrator.Common.{
  ℕ, suc, ◌+◌, String, Bool, true, false, Option, none, some, List, [], ◌∷◌, ◌==◌, string_eq,
  nat_eq, if◌then◌else◌, leb,
}
use hdv_orchestrator.JsMap.{Entries, lookup, insert, erase}
use hdv_orchestrator.Text.Decimal.{template, decimal}

pub record NodeSliceCoord : Type 0 where
  pub agent : String
  pub manager : ℕ
  pub node : ℕ

unfoldable pub slice_key : NodeSliceCoord → String
unfolding decimal
slice_key coord =
    template
      ("lease:node:" ∷ coord.agent ∷ "/" ∷ decimal coord.manager ∷ "/" ∷ decimal coord.node ∷ [])

pub data LeaseReason : Type 0 where
  acquired renewed held_by_other not_held released : LeaseReason

pub record LeaseClaim : Type 0 where
  pub key : String
  pub holder : String
  pub expires_at : ℕ
  pub fencing_token : ℕ

pub record LeaseResult : Type 0 where
  pub success : Bool
  pub reason : LeaseReason
  pub claim : Option LeaseClaim
  pub held_by : Option String

pub record MemEntry : Type 0 where
  pub holder : String
  pub expires_at : ℕ
  pub fencing_token : ℕ

pub record LeaseState : Type 0 where
  pub entries : Entries String MemEntry
  pub tokens : Entries String ℕ

abbrev pub start : LeaseState
start = record { entries = []; tokens = [] }

unfoldable pub normalize_ttl : ℕ → ℕ
normalize_ttl ttl = if ttl == 0 then 30000 else ttl

abbrev pub to_claim : String → MemEntry → LeaseClaim
to_claim key e = record {
  key = key;
  holder = e.holder;
  expires_at = e.expires_at;
  fencing_token = e.fencing_token;
}

abbrev pub granted : LeaseReason → String → MemEntry → LeaseResult
granted reason key e = record {
  success = true;
  reason = reason;
  claim = some (to_claim key e);
  held_by = none;
}

abbrev pub lapsed : LeaseResult
lapsed = record { success = false; reason = not_held; claim = none; held_by = none }

abbrev pub taken : String → LeaseResult
taken holder = record {
  success = false;
  reason = held_by_other;
  claim = none;
  held_by = some holder;
}

-- `liveEntry`, on the entry that the map holds: an expired one does not count.
unfoldable pub live_of : ℕ → Option MemEntry → Option MemEntry
live_of t none = none
live_of t (some e) = if leb e.expires_at t then none else some e

-- `liveEntry` also deletes an expired entry.
unfoldable pub reap : String → ℕ → LeaseState → LeaseState
reap key t s = elim (lookup key s.entries) [
  | none ↦ s
  | some e ↦ if leb e.expires_at t then record s { entries = erase key s.entries } else s
]

unfoldable pub live_entry : String → ℕ → LeaseState → Option MemEntry × LeaseState
unfolding live_of reap
live_entry key t s = (live_of t (lookup key s.entries), reap key t s)

-- `this.tokens.get(key) ?? 0`
unfoldable pub token_of : String → LeaseState → ℕ
token_of key s = elim (lookup key s.tokens) [ none ↦ 0 | some n ↦ n ]

unfoldable pub next_token : String → LeaseState → ℕ × LeaseState
unfolding token_of
next_token key s =
    let next = token_of key s + 1 in (next, record s { tokens = insert key next s.tokens })

grant : LeaseReason → String → MemEntry → LeaseState → LeaseResult × LeaseState
grant reason key e s = (granted reason key e, record s { entries = insert key e s.entries })

claim_free : String → String → ℕ → LeaseState → LeaseResult × LeaseState
unfolding grant next_token
claim_free key holder expires s =
    let (token, s') = next_token key s in
    grant acquired key (record { holder = holder; expires_at = expires; fencing_token = token }) s'

claim_live : String → String → ℕ → MemEntry → LeaseState → LeaseResult × LeaseState
unfolding grant
claim_live key holder expires live s =
    if live.holder == holder
    then grant renewed key
        (record { holder = holder; expires_at = expires; fencing_token = live.fencing_token }) s
    else (taken live.holder, s)

claim_on : Option MemEntry → String → String → ℕ → LeaseState → LeaseResult × LeaseState
unfolding claim_free claim_live
claim_on none key holder expires s = claim_free key holder expires s
claim_on (some live) key holder expires s = claim_live key holder expires live s

unfoldable pub claim : String → String → ℕ → ℕ → LeaseState → LeaseResult × LeaseState
unfolding claim_on live_entry normalize_ttl
claim key holder ttl_ms t s =
    let (live, s') = live_entry key t s in claim_on live key holder (t + normalize_ttl ttl_ms) s'

renew_on : Option MemEntry → String → String → ℕ → LeaseState → LeaseResult × LeaseState
unfolding grant
renew_on none key holder expires s = (lapsed, s)
renew_on (some live) key holder expires s =
    if live.holder == holder
    then grant renewed key (record live { expires_at = expires }) s
    else (taken live.holder, s)

unfoldable pub renew : String → String → ℕ → ℕ → LeaseState → LeaseResult × LeaseState
unfolding renew_on live_entry normalize_ttl
renew key holder ttl_ms t s =
    let (live, s') = live_entry key t s in renew_on live key holder (t + normalize_ttl ttl_ms) s'

abbrev freed : LeaseResult
freed = record { success = true; reason = released; claim = none; held_by = none }

release_on : Option MemEntry → String → String → LeaseState → LeaseResult × LeaseState
release_on none key holder s = (lapsed, record s { entries = erase key s.entries })
release_on (some live) key holder s =
    if live.holder == holder
    then (freed, record s { entries = erase key s.entries })
    else (taken live.holder, s)

unfoldable pub release : String → String → ℕ → LeaseState → LeaseResult × LeaseState
unfolding release_on live_entry
release key holder t s = let (live, s') = live_entry key t s in release_on live key holder s'

abbrev holder_name : Option MemEntry → Option String
holder_name none = none
holder_name (some e) = some e.holder

unfoldable pub holder_of : String → ℕ → LeaseState → Option String
unfolding live_of
holder_of key t s = holder_name (live_of t (lookup key s.entries))

-- A call of the lease, with the clock's reading.
pub data Call : Type 0 where
  claims renews : (key holder : String) (ttl_ms t : ℕ) → Call
  releases : (key holder : String) (t : ℕ) → Call

unfoldable pub perform : Call → LeaseState → LeaseResult × LeaseState
unfolding claim renew release
perform (claims key holder ttl_ms t) s = claim key holder ttl_ms t s
perform (renews key holder ttl_ms t) s = renew key holder ttl_ms t s
perform (releases key holder t) s = release key holder t s

-- ===== src/Nodes/Lease/Exclusion.antt =====
-- A live lease of hdv-foundation/nodes/lease.ts is exclusive.
use hdv_orchestrator.Common.{
  ℕ, ◌<◌, String, some, List, [], ◌∷◌, string_eq, ◌≡◌, ◌≢◌, ◌⊎◌, sym, ap, ◌∙◌, ==_ne, arith, All,
  inl, inr,
}
use hdv_orchestrator.JsMap.{lookup}
use hdv_orchestrator.JsMap.Laws.{lookup-insert_ne, lookup-erase_ne}
use hdv_orchestrator.Nodes.Lease.{
  MemEntry, LeaseState, LeaseResult, taken, live_of, reap, holder_of, Call, claims, renews,
  releases, perform,
}

abbrev pub key_of : Call → String
key_of (claims key holder ttl t) = key
key_of (renews key holder ttl t) = key
key_of (releases key holder t) = key

abbrev pub caller_of : Call → String
caller_of (claims key holder ttl t) = holder
caller_of (renews key holder ttl t) = holder
caller_of (releases key holder t) = holder

abbrev pub time_of : Call → ℕ
time_of (claims key holder ttl t) = t
time_of (renews key holder ttl t) = t
time_of (releases key holder t) = t

lookup-reap_ne :
    (j key : String) (t : ℕ) (s : LeaseState)
    → j ≢ key
    → lookup key (reap j t s).entries ≡ lookup key s.entries
unfolding reap
lookup-reap_ne j key t s ne = ground (arith, lookup-erase_ne j key s.entries ne)

reap_live :
    (key : String) (t : ℕ) (s : LeaseState) {e : MemEntry}
    → lookup key s.entries ≡ some e
    → t < e.expires_at
    → reap key t s ≡ s
unfolding reap
reap_live key t s at live = ground arith

live_of_live : (t : ℕ) (e : MemEntry) → t < e.expires_at → live_of t (some e) ≡ some e
unfolding live_of
live_of_live t e live = ground arith

-- Whatever is done to another key leaves the entry of this one alone.
pub perform_other :
    (call : Call) (key : String) (s : LeaseState)
    → key_of call ≢ key
    → lookup key (perform call s).1.entries ≡ lookup key s.entries
unfolding perform
perform_other (claims j holder ttl t) key s ne =
    grind (arith, lookup-insert_ne, lookup-reap_ne j key t s ne)
perform_other (renews j holder ttl t) key s ne =
    grind (arith, lookup-insert_ne, lookup-reap_ne j key t s ne)
perform_other (releases j holder t) key s ne =
    grind (arith, lookup-erase_ne, lookup-reap_ne j key t s ne)

-- On a live lease of somebody else a call is refused, with the holder's name, and changes nothing.
pub perform_refused :
    (call : Call) (s : LeaseState) {e : MemEntry}
    → lookup (key_of call) s.entries ≡ some e
    → caller_of call ≢ e.holder
    → time_of call < e.expires_at
    → perform call s ≡ (taken e.holder, s)
unfolding perform
perform_refused (claims key holder ttl t) s {e} at other live = rw (
  at,
  live_of_live t e live,
  reap_live key t s at live,
  ==_ne e.holder holder (λ h. other (sym h)),
)
perform_refused (renews key holder ttl t) s {e} at other live = rw (
  at,
  live_of_live t e live,
  reap_live key t s at live,
  ==_ne e.holder holder (λ h. other (sym h)),
)
perform_refused (releases key holder t) s {e} at other live = rw (
  at,
  live_of_live t e live,
  reap_live key t s at live,
  ==_ne e.holder holder (λ h. other (sym h)),
)

abbrev pub run : List Call → LeaseState → LeaseState
run [] s = s
run (call ∷ calls) s = run calls (perform call s).1

-- A call that cannot take the lease `e` on the key: it comes from another holder and before the
-- lease expires, or it is for another key.
abbrev pub IsForeign : String → MemEntry → Call → Type 0
IsForeign key e call =
    (key_of call ≢ key)
    ⊎ ((key_of call ≡ key) × (caller_of call ≢ e.holder) × (time_of call < e.expires_at))

foreign_keeps :
    (call : Call) (key : String) (s : LeaseState) {e : MemEntry}
    → lookup key s.entries ≡ some e
    → IsForeign key e call
    → lookup key (perform call s).1.entries ≡ some e
foreign_keeps call key s at (inl ne) = perform_other call key s ne ∙ at
foreign_keeps call key s {e} at (inr (same, other, live)) =
    ap (λ (r : LeaseResult × LeaseState). lookup key r.1.entries)
      (perform_refused call s (ap (λ k. lookup k s.entries) same ∙ at) other live)
    ∙ at

-- While a lease is live, no calls of other holders on its key and no calls on other keys, however
-- many and in whatever order, take it away: the holder keeps it until it expires.
pub lease_kept :
    (calls : List Call) (key : String) (s : LeaseState) {e : MemEntry} (t : ℕ)
    → lookup key s.entries ≡ some e
    → All (IsForeign key e) calls
    → t < e.expires_at
    → holder_of key t (run calls s) ≡ some e.holder
unfolding holder_of
lease_kept [] key s {e} t at h live = rw (at, live_of_live t e live)
lease_kept (call ∷ calls) key s t at h live =
    lease_kept calls key (perform call s).1 t (foreign_keeps call key s at h.0) h.1 live

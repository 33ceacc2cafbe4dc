-- ===== src/Nodes/Lease/Fencing.antt =====
-- The fencing tokens of hdv-foundation/nodes/lease.ts: each acquisition of a key has a greater one.
use text.Mathlib.TextEquality.{eq_iff}
use hdv_orchestrator.Common.{
  ℕ, ◌+◌, ◌<◌, String, Option, some, List, [], ◌∷◌, ◌++◌, ◌==◌, string_eq, if◌then◌else◌, ◌≡◌, ◌⊎◌,
  arith, inl, inr,
}
use hdv_orchestrator.JsMap.Laws.{lookup-insert}
use hdv_orchestrator.Nodes.Lease.{
  LeaseState, LeaseResult, LeaseClaim, LeaseReason, acquired, reap, Call, claims, renews, releases,
  perform, token_of,
}

-- The token of the claim, if the call has acquired the key anew.
abbrev pub acquired_token : String → LeaseReason → Option LeaseClaim → List ℕ
acquired_token key acquired (some c) = if c.key == key then c.fencing_token ∷ [] else []
acquired_token key _ _ = []

-- The tokens with which a run of calls acquires the key, in order.
abbrev pub acquired_tokens : String → List Call → LeaseState → List ℕ
acquired_tokens key [] s = []
acquired_tokens key (call ∷ calls) s =
    let (result, s') = perform call s in
    acquired_token key result.reason result.claim ++ acquired_tokens key calls s'

-- Every token is greater than the one before it, and the first than `n`.
abbrev pub IsAbove : ℕ → List ℕ → Type 0
IsAbove n [] = Unit
IsAbove n (x ∷ xs) = (n < x) × IsAbove x xs

tokens-reap : (key : String) (t : ℕ) (s : LeaseState) → (reap key t s).tokens ≡ s.tokens
unfolding reap
tokens-reap key t s = ground arith

-- A call acquires the key with the next token, or leaves the key's token as it is.
abbrev Advances : String → LeaseState → LeaseResult × LeaseState → Type 0
Advances key s (result, s') =
    ((acquired_token key result.reason result.claim ≡ []) × (token_of key s' ≡ token_of key s))
    ⊎ ((acquired_token key result.reason result.claim ≡ (token_of key s + 1) ∷ [])
        × (token_of key s' ≡ token_of key s + 1))

perform-Advances : (call : Call) (key : String) (s : LeaseState) → Advances key s (perform call s)
unfolding perform token_of
perform-Advances (claims j holder ttl t) key s = ground (
  arith,
  tokens-reap j t s,
  lookup-insert j key (token_of j (reap j t s) + 1) (reap j t s).tokens,
  eq_iff j key,
)
perform-Advances (renews j holder ttl t) key s = grind (arith, tokens-reap j t s)
perform-Advances (releases j holder t) key s = grind (arith, tokens-reap j t s)

-- Whatever is called, at whatever times, the tokens with which a key is acquired grow strictly, and
-- are greater than every token issued for it before: a holder that was expired and replaced always
-- carries a smaller token than its successor.
pub acquired_tokens-IsAbove :
    (calls : List Call) (key : String) (s : LeaseState)
    → IsAbove (token_of key s) (acquired_tokens key calls s)
acquired_tokens-IsAbove [] key s = tt
acquired_tokens-IsAbove (call ∷ calls) key s = elim (perform-Advances call key s) [
  | inl (nothing, same) ↦
      rw (nothing, ← same) (acquired_tokens-IsAbove calls key (perform call s).1)
  | inr (token, next) ↦
      rw token (omega arith, rw (← next) (acquired_tokens-IsAbove calls key (perform call s).1))
]

-- ===== src/Holloway/Ledger/Access.antt =====
-- hdv-foundation/holloway/designated_ledger.ts: who may read the ledger.
use hdv_orchestrator.Common.{
  String, true, ◌&&◌, some, ◌≡◌, ◌⊎◌, ◌↔◌, inl, inr, refl, ap, arith, Bool-cases, string_eq,
}
use hdv_orchestrator.Json.{Json, string, object, prop, as_string, is_text}
use hdv_orchestrator.Holloway.Identity.{
  PrimeRegistry, is_prime_hope_token, is_sovereign_identity, prime_hope_token,
}
use hdv_orchestrator.Holloway.Ledger.{DesignatedLedger, granted, forbidden, can_read, knows, read}

-- An object that bears the id of the Acting Prime and that role, or of a Former Prime and that role.
abbrev pub IsSovereign : PrimeRegistry → Json → Type 0
IsSovereign registry reader =
    (id : String) × (prop "id" reader ≡ string id)
    × (((prop "role" reader ≡ string "ACTING_PRIME") × (registry.is_acting_prime id ≡ true))
        ⊎ ((prop "role" reader ≡ string "FORMER_PRIME") × (registry.is_former_prime id ≡ true)))

abbrev pub IsReader : PrimeRegistry → Json → Type 0
IsReader registry reader = (reader ≡ string "PRIME_HOPE") ⊎ IsSovereign registry reader

is_text_sound : (s : String) (v : Json) → is_text s v ≡ true → v ≡ string s
is_text_sound s (string t) h = ap string ((string_eq.same_iff t s).0 h)
is_text_sound s v h = cc

knows_sound :
    (registry : PrimeRegistry) (id role : Json)
    → knows registry role (as_string id) ≡ true
    → (s : String) × (id ≡ string s)
      × (((role ≡ string "ACTING_PRIME") × (registry.is_acting_prime s ≡ true))
          ⊎ ((role ≡ string "FORMER_PRIME") × (registry.is_former_prime s ≡ true)))
knows_sound registry (string s) role h =
    elim (Bool-cases (is_text "ACTING_PRIME" role && registry.is_acting_prime s)) [
      | inl acting ↦ (s, refl, inl (is_text_sound "ACTING_PRIME" role (ground arith), ground arith))
      | inr other ↦ (s, refl, inr (is_text_sound "FORMER_PRIME" role (ground arith), ground arith))
    ]
knows_sound registry id role h = cc

sovereign-can_read :
    (registry : PrimeRegistry) (reader : Json)
    → IsSovereign registry reader
    → can_read (some registry) reader ≡ true
unfolding can_read is_prime_hope_token is_sovereign_identity
sovereign-can_read registry (object fs) (id, named, inl (role, live)) = rw (named, role, live) refl
sovereign-can_read registry (object fs) (id, named, inr (role, live)) = rw (named, role, live) refl
sovereign-can_read registry reader (id, named, either) = cc

can_read_sound :
    (registry : PrimeRegistry) (reader : Json)
    → can_read (some registry) reader ≡ true
    → IsReader registry reader
unfolding can_read is_prime_hope_token is_sovereign_identity
can_read_sound registry reader h = elim (Bool-cases (is_text prime_hope_token reader)) [
  | inl hope ↦ inl (is_text_sound "PRIME_HOPE" reader hope)
  | inr other ↦ inr (knows_sound registry (prop "id" reader) (prop "role" reader) (ground arith))
]

IsReader-can_read :
    (registry : PrimeRegistry) (reader : Json)
    → IsReader registry reader
    → can_read (some registry) reader ≡ true
unfolding can_read is_prime_hope_token
IsReader-can_read registry reader (inl hope) = rw hope refl
IsReader-can_read registry reader (inr sovereign) = sovereign-can_read registry reader sovereign

refused_not :
    {A : Type 0} {reader_id : String} {content : A} → ¬ (forbidden reader_id ≡ granted content)
refused_not h = cc

-- With a registry: a reader gets the links of the ledger exactly if it is the token of Prime Hope, or
-- an object with the id and the role of the present Acting Prime or of a registered Former Prime.
pub read_iff :
    (registry : PrimeRegistry) (reader : Json) (ledger : DesignatedLedger)
    → (read (some registry) reader ledger ≡ granted ledger.links) ↔ IsReader registry reader
unfolding read
read_iff registry reader ledger = (
  λ h. elim (Bool-cases (can_read (some registry) reader)) [
    | inl fits ↦ can_read_sound registry reader fits
    | inr unfit ↦ absurd (refused_not (rw unfit at h))
  ],
  λ r. rw (IsReader-can_read registry reader r) refl,
)

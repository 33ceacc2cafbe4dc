-- ===== src/Tests/Chain.antt =====
-- The audit hash chain on concrete entries. The identity stands for SHA-256 over a text, and the id of
-- an entry for its digest.
use hdv_orchestrator.Common.{
  String, false, ◌==◌, string_eq, ◌≢◌, or_else, inl, inr, arith, none, List, [], ◌∷◌, map, length,
  ◌≡◌, ◌↔◌, refl,
}
use text.Mathlib.TextEquality.{eq_iff}
use hdv_orchestrator.Json.{Json, prop, as_string}
use hdv_orchestrator.Persistence.Records.{SecurityAuditRecord, blocked}
use hdv_orchestrator.Knoll.HashChain.{
  canonicalize_entry, hash_audit_entry, intact, mismatch, length_changed, genesis_hash,
  compute_link_hash, rebuild, append_all, append, verify_links, verify_from, detect_tamper,
}
use hdv_orchestrator.Knoll.HashChain.Tamper.{IsChain, verify_links_iff, AreApart, detect_tamper_iff}
use hdv_orchestrator.Text.Decimal.{decimal}

abbrev entry : String → SecurityAuditRecord
entry id = record {
  id = id;
  packet_id = "pkt_1";
  outcome = blocked;
  reasoning = none;
  timestamp = 5;
}

-- The text of the first field.
abbrev digest : Json → String
digest v = or_else (as_string (prop "id" v)) ""

abbrev sha256 : String → String
sha256 s = s

abbrev entries : List SecurityAuditRecord
entries = entry "a" ∷ entry "b" ∷ []

running_chain : Unit {0}
unfolding hash_audit_entry canonicalize_entry rebuild append_all append compute_link_hash decimal
    verify_links verify_from detect_tamper
running_chain = tt

runs :
    (verify_links digest sha256 (rebuild digest sha256 entries) ≡ intact 2)
    × (detect_tamper digest sha256 (entry "a" ∷ entry "c" ∷ []) (rebuild digest sha256 entries)
        ≡ mismatch 2 1)
    × (detect_tamper digest sha256 (entry "b" ∷ entry "a" ∷ []) (rebuild digest sha256 entries)
        ≡ mismatch 2 0)
    × (detect_tamper digest sha256 (entry "a" ∷ []) (rebuild digest sha256 entries)
        ≡ length_changed 2 1)
unfolding running_chain
runs = (refl, refl, refl, refl)

sealed-IsChain : IsChain digest sha256 0 genesis_hash (rebuild digest sha256 entries)
unfolding running_chain
sealed-IsChain = (refl, (refl, tt))

verify_links_iff_example :
    (verify_links digest sha256 (rebuild digest sha256 entries)
      ≡ intact (length (rebuild digest sha256 entries)))
    ↔ IsChain digest sha256 0 genesis_hash (rebuild digest sha256 entries)
verify_links_iff_example = verify_links_iff digest sha256 (rebuild digest sha256 entries)

abbrev edited : List SecurityAuditRecord
edited = entry "a" ∷ entry "c" ∷ []

differs : (s t : String) → (s == t) ≡ false → s ≢ t
differs s t other same = ground (arith, eq_iff s t)

edited-AreApart : AreApart digest sha256 edited (rebuild digest sha256 entries)
unfolding running_chain hash_audit_entry canonicalize_entry
edited-AreApart = ((inl refl, inl refl), ((inr (differs "c" "b" refl), inr (differs _ _ refl)), tt))

-- The edit of the second entry is seen.
detect_tamper_iff_example :
    (detect_tamper digest sha256 edited (rebuild digest sha256 entries) ≡ intact 2)
    ↔ (edited ≡ map (λ l. l.entry) (rebuild digest sha256 entries))
unfolding running_chain
detect_tamper_iff_example =
    detect_tamper_iff digest sha256 edited (rebuild digest sha256 entries) sealed-IsChain
      edited-AreApart

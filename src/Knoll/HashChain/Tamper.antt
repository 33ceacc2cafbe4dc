-- ===== src/Knoll/HashChain/Tamper.antt =====
-- Sealing, verifying and tamper detection of hdv-foundation/knoll/hashchain.ts: `verify` accepts
-- exactly the well-formed chains, and `detectTamper` exactly the sealed entries.
use text.Mathlib.TextEquality.{eq_iff}
use text.Mathlib.TextLemmas.{append_cancel_left}
use mathlib.Core.List.{append_assoc, append-nil, map-append}
use hdv_orchestrator.Common.{
  ℕ, suc, ◌+◌, List, [], ◌∷◌, ◌++◌, map, length, length-map, nat_eq, string_eq, ◌≡◌, ◌≢◌, ◌↔◌, ◌⊎◌,
  inl, inr, String, Option-cases, if◌then◌else◌, refl, sym, ap, ◌∙◌, arith,
}
use mathlib.Core.Path.{ap₂, subst}
use hdv_orchestrator.Json.{Json, prop, as_string, is_text}
use hdv_orchestrator.Knoll.Structure.{text_or_empty, number_or_zero}
use hdv_orchestrator.Persistence.Records.{SecurityAuditRecord, AuditOutcome, allowed, blocked}
use hdv_orchestrator.Text.Decimal.{decimal}
use hdv_orchestrator.Knoll.HashChain.{
  HashChainLink, intact, genesis_hash, canonicalize_entry, hash_audit_entry, link_text,
  compute_link_hash, head_from, head, link_for, append, append_all, rebuild, verify_from,
  verify_links, compare_from, detect_tamper,
}

-- The entry that a canonical form was made of.
read_entry : Json → SecurityAuditRecord
read_entry v = record {
  id = text_or_empty (prop "id" v);
  packet_id = text_or_empty (prop "packetId" v);
  outcome = if is_text "ALLOWED" (prop "outcome" v) then allowed else blocked;
  reasoning = as_string (prop "reasoning" v);
  timestamp = number_or_zero (prop "timestamp" v);
}

outcome_cases : (outcome : AuditOutcome) → (outcome ≡ allowed) ⊎ (outcome ≡ blocked)
outcome_cases allowed = inl refl
outcome_cases blocked = inr refl

read_entry-canonicalize_entry :
    (entry : SecurityAuditRecord) → read_entry (canonicalize_entry entry) ≡ entry
unfolding read_entry canonicalize_entry
read_entry-canonicalize_entry entry = elim (outcome_cases entry.outcome) [
  | inl passes ↦ (elim (Option-cases entry.reasoning) [
    | inl silent ↦ rw (passes, silent) refl
    | inr (text, said) ↦ rw (passes, said) refl
  ])
  | inr stops ↦ (elim (Option-cases entry.reasoning) [
    | inl silent ↦ rw (stops, silent) refl
    | inr (text, said) ↦ rw (stops, said) refl
  ])
]

canonicalize_entry_inj :
    (a b : SecurityAuditRecord) → canonicalize_entry a ≡ canonicalize_entry b → a ≡ b
canonicalize_entry_inj a b h =
    sym (read_entry-canonicalize_entry a) ∙ ap read_entry h ∙ read_entry-canonicalize_entry b

link_text_inj :
    (i : ℕ) (prev : String) (d e : String) → link_text i prev d ≡ link_text i prev e → d ≡ e
link_text_inj i prev d e h = append_cancel_left "|" d e (
    append_cancel_left prev _ _ (append_cancel_left "|" _ _ (append_cancel_left (decimal i) _ _ h)))

module _ (digest : Json → String) (sha256 : String → String) where
  -- Each link is the one that sealing its entry at its place makes.
  abbrev pub IsChain : ℕ → String → List HashChainLink → Type 0
  IsChain i prev [] = Unit
  IsChain i prev (link ∷ links) =
      (link ≡ link_for digest sha256 i prev link.entry) × IsChain (suc i) link.hash links

  verify_from_sound :
      (total i : ℕ) (prev : String) (links : List HashChainLink)
      → verify_from digest sha256 total i prev links ≡ intact total
      → IsChain i prev links
  unfolding verify_from
  verify_from_sound total i prev [] h = tt
  verify_from_sound total i prev (link ∷ links) h = (
    ground (
      arith,
      eq_iff link.prev_hash prev,
      eq_iff (hash_audit_entry digest link.entry) link.entry_hash,
      eq_iff (compute_link_hash digest sha256 i link.prev_hash link.entry_hash) link.hash,
    ),
    verify_from_sound total (suc i) link.hash links (ground arith),
  )

  verify_from_complete :
      (total i : ℕ) (prev : String) (links : List HashChainLink)
      → IsChain i prev links
      → verify_from digest sha256 total i prev links ≡ intact total
  unfolding verify_from
  verify_from_complete total i prev [] h = refl
  verify_from_complete total i prev (link ∷ links) h = ground (
    arith,
    eq_iff link.prev_hash prev,
    eq_iff (hash_audit_entry digest link.entry) link.entry_hash,
    eq_iff (compute_link_hash digest sha256 i link.prev_hash link.entry_hash) link.hash,
    verify_from_complete total (suc i) link.hash links h.1,
  )

  -- `verify` accepts a sequence of links exactly if every link is the one that sealing its entry
  -- at that place makes: its index, its own hash, its entry's hash and the link before it are right.
  pub verify_links_iff :
      (links : List HashChainLink)
      → (verify_links digest sha256 links ≡ intact (length links)) ↔ IsChain 0 genesis_hash links
  unfolding verify_links
  verify_links_iff links = (
    verify_from_sound (length links) 0 genesis_hash links,
    verify_from_complete (length links) 0 genesis_hash links,
  )

  append-IsChain :
      (i : ℕ) (prev : String) (entry : SecurityAuditRecord) (links : List HashChainLink)
      → IsChain i prev links
      → IsChain i prev (
          links
          ++ link_for digest sha256 (i + length links) (head_from digest sha256 prev links) entry
            ∷ [])
  append-IsChain i prev entry [] h =
      (ap (λ n. link_for digest sha256 n prev entry) (omega arith), tt)
  append-IsChain i prev entry (link ∷ links) h = (
    h.0,
    subst
        (λ n.
          IsChain (suc i) link.hash (
            links ++ link_for digest sha256 n (head_from digest sha256 link.hash links) entry ∷ []))
        (omega arith) (append-IsChain (suc i) link.hash entry links h.1),
  )

  append_all-IsChain :
      (entries : List SecurityAuditRecord) (links : List HashChainLink)
      → IsChain 0 genesis_hash links
      → IsChain 0 genesis_hash (append_all digest sha256 entries links)
  unfolding append_all append
  append_all-IsChain [] links h = h
  append_all-IsChain (entry ∷ entries) links h =
      append_all-IsChain entries (append digest sha256 entry links) (
        subst
          (λ n.
            IsChain 0 genesis_hash
              (links ++ link_for digest sha256 n (head digest sha256 links) entry ∷ []))
          (omega arith) (append-IsChain 0 genesis_hash entry links h))

  entries-append_all :
      (entries : List SecurityAuditRecord) (links : List HashChainLink)
      → map (λ l. l.entry) (append_all digest sha256 entries links)
        ≡ map (λ l. l.entry) links ++ entries
  unfolding append_all append
  entries-append_all [] links = sym (append-nil _)
  entries-append_all (entry ∷ entries) links =
      entries-append_all entries (append digest sha256 entry links)
      ∙ ap (λ es. es ++ entries)
          (map-append (λ (l : HashChainLink). l.entry) links
            (link_for digest sha256 (length links) (head digest sha256 links) entry ∷ []))
      ∙ append_assoc (map (λ l. l.entry) links) (entry ∷ []) entries

  -- A chain that is rebuilt over entries holds those entries in order, and passes `verify`.
  pub rebuild_verified :
      (entries : List SecurityAuditRecord)
      → (map (λ l. l.entry) (rebuild digest sha256 entries) ≡ entries)
        × (verify_links digest sha256 (rebuild digest sha256 entries)
            ≡ intact (length (rebuild digest sha256 entries)))
  unfolding rebuild
  rebuild_verified entries = (
    entries-append_all entries [],
    (verify_links_iff (append_all digest sha256 entries [])).1 (append_all-IsChain entries [] tt),
  )

  compare_from_complete :
      (total i : ℕ) (prev : String) (links : List HashChainLink)
      → IsChain i prev links
      → compare_from digest sha256 total i prev (map (λ l. l.entry) links) links ≡ intact total
  unfolding compare_from
  compare_from_complete total i prev [] h = refl
  compare_from_complete total i prev (link ∷ links) h = ground (
    arith,
    eq_iff (compute_link_hash digest sha256 i prev (hash_audit_entry digest link.entry)) link.hash,
    compare_from_complete total (suc i) link.hash links h.1,
  )

  -- The sealed entries themselves are never reported as tampered with.
  detect_tamper_quiet :
      (links : List HashChainLink)
      → IsChain 0 genesis_hash links
      → detect_tamper digest sha256 (map (λ l. l.entry) links) links ≡ intact (length links)
  unfolding detect_tamper
  detect_tamper_quiet links h = ground (
    arith,
    length-map links (λ (l : HashChainLink). l.entry),
    compare_from_complete (length links) 0 genesis_hash links h,
  )

  -- What the chain hashes of an entry and of a sealed link is the same, or has different hashes: of
  -- the entries, and of the texts of the link and of the one that the entry would make in its place.
  abbrev pub IsApart : SecurityAuditRecord → HashChainLink → Type 0
  IsApart entry link =
      ((canonicalize_entry entry ≡ canonicalize_entry link.entry)
        ⊎ (hash_audit_entry digest entry ≢ hash_audit_entry digest link.entry))
      × ((link_text link.index link.prev_hash (hash_audit_entry digest entry)
            ≡ link_text link.index link.prev_hash (hash_audit_entry digest link.entry))
          ⊎ (sha256 (link_text link.index link.prev_hash (hash_audit_entry digest entry))
              ≢ sha256 (link_text link.index link.prev_hash (hash_audit_entry digest link.entry))))

  -- That holds of the entries and the links at the same positions.
  abbrev pub AreApart : List SecurityAuditRecord → List HashChainLink → Type 0
  AreApart [] links = Unit
  AreApart (entry ∷ entries) [] = Unit
  AreApart (entry ∷ entries) (link ∷ links) = IsApart entry link × AreApart entries links

  same_entry :
      (i : ℕ) (prev : String) (entry : SecurityAuditRecord) (link : HashChainLink)
      → link ≡ link_for digest sha256 i prev link.entry
      → IsApart entry link
      → compute_link_hash digest sha256 i prev (hash_audit_entry digest entry) ≡ link.hash
      → entry ≡ link.entry
  unfolding compute_link_hash
  same_entry i prev entry link sealed (entries, texts) same =
      let at : link.index ≡ i = ap (λ (l : HashChainLink). l.index) sealed in
      let after : link.prev_hash ≡ prev = ap (λ (l : HashChainLink). l.prev_hash) sealed in
      let hashes : sha256 (link_text link.index link.prev_hash (hash_audit_entry digest entry))
          ≡ sha256 (link_text link.index link.prev_hash (hash_audit_entry digest link.entry)) =
        rw (at, after) (same ∙ ap (λ (l : HashChainLink). l.hash) sealed) in
      let text : link_text link.index link.prev_hash (hash_audit_entry digest entry)
          ≡ link_text link.index link.prev_hash (hash_audit_entry digest link.entry) =
        elim texts [ inl equal ↦ equal | inr apart ↦ absurd (apart hashes) ] in
      elim entries [
        | inl equal ↦ canonicalize_entry_inj entry link.entry equal
        | inr apart ↦ absurd (apart (link_text_inj _ _ _ _ text))
      ]

  compare_from_sound :
      (total i : ℕ) (prev : String) (current : List SecurityAuditRecord)
      (links : List HashChainLink)
      → length current ≡ length links
      → IsChain i prev links
      → AreApart current links
      → compare_from digest sha256 total i prev current links ≡ intact total
      → current ≡ map (λ l. l.entry) links
  unfolding compare_from
  compare_from_sound total i prev [] [] len h apart e = refl
  compare_from_sound total i prev [] (link ∷ links) len h apart e = absurd (omega arith)
  compare_from_sound total i prev (entry ∷ entries) [] len h apart e = absurd (omega arith)
  compare_from_sound total i prev (entry ∷ entries) (link ∷ links) len h apart e =
      let hash = compute_link_hash digest sha256 i prev (hash_audit_entry digest entry) in
      let same : hash ≡ link.hash = ground (arith, eq_iff hash link.hash) in
      ap₂ ◌∷◌ (same_entry i prev entry link h.0 apart.0 same) (
        compare_from_sound total (suc i) link.hash entries links (omega arith) h.1 apart.1
          (ground (arith, eq_iff hash link.hash)))

  -- Given a well-formed chain, and that SHA-256 tells apart what it hashes of the entries of a
  -- snapshot and of the links at their positions, `detectTamper` reports no tampering exactly if the
  -- snapshot is the list of the sealed entries: every edit of a field, reordering, insertion and
  -- deletion is reported, and nothing else.
  pub detect_tamper_iff :
      (current : List SecurityAuditRecord) (links : List HashChainLink)
      → IsChain 0 genesis_hash links
      → AreApart current links
      → (detect_tamper digest sha256 current links ≡ intact (length links))
        ↔ (current ≡ map (λ l. l.entry) links)
  unfolding detect_tamper
  detect_tamper_iff current links h apart = (
    λ e.
        compare_from_sound (length links) 0 genesis_hash current links (ground arith) h apart
          (ground arith),
    λ same. rw same (detect_tamper_quiet links h),
  )

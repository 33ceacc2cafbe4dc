-- ===== src/Holloway/Ledger/Chain.antt =====
-- hdv-foundation/holloway/designated_ledger.ts: what `verify` says of a ledger that `record` has built,
-- and of one with an altered record.
use text.Mathlib.TextEquality.{eq_iff}
use mathlib.Core.Path.{subst}
use mathlib.Core.List.{append-nil, append_assoc, map-append}
use hdv_orchestrator.Common.{
  ℕ, suc, ◌+◌, String, false, List, [], ◌∷◌, ◌++◌, map, length, ◌==◌, string_eq, nat_eq, ◌≡◌, ◌≢◌,
  or_else, refl, ◌∙◌, sym, ap, arith, ==_refl, ==_ne,
}
use hdv_orchestrator.Json.{Json, object, end}
use hdv_orchestrator.Text.Decimal.{template, padded}
use hdv_orchestrator.Knoll.HashChain.{genesis_hash}
use hdv_orchestrator.Holloway.Ledger.{
  LedgerRecord, RecordInput, LedgerLink, DesignatedLedger, valid, altered, empty_ledger, record_of,
  head_from, head, hash_ledger_record, compute_link_hash, link_for, record_event, record_all,
  verify_from, verify,
}

-- The records that a list of calls describes, numbered on from `seq`: the kind, the summary and the
-- actor are the call's, the data are empty and the time is that of the call where it names none.
abbrev pub records_from : ℕ → List (ℕ × RecordInput) → List LedgerRecord
records_from seq [] = []
records_from seq ((now, input) ∷ rest) =
    record {
      id = template ("dal_" ∷ padded 8 (suc seq) ∷ []);
      kind = input.kind;
      summary = input.summary;
      actor_id = input.actor_id;
      data_of = or_else input.data_of (object end);
      timestamp = or_else input.timestamp now;
    }
    ∷ records_from (suc seq) rest

module _ (digest : Json → String) (sha256 : String → String) where
  -- From a position and a hash on, every link is the one that sealing its record makes.
  abbrev IsChain : ℕ → String → List LedgerLink → Type 0
  IsChain i prev [] = Unit
  IsChain i prev (link ∷ links) =
      (link ≡ link_for digest sha256 i prev link.content) × IsChain (suc i) link.hash links

  append-IsChain :
      (i n : ℕ) (prev : String) (r : LedgerRecord) (links : List LedgerLink)
      → n ≡ i + length links
      → IsChain i prev links
      → IsChain i prev (links ++ link_for digest sha256 n (head_from prev links) r ∷ [])
  append-IsChain i n prev r [] e h =
      let same : n ≡ i = omega arith in (ap (λ k. link_for digest sha256 k prev r) same, tt)
  append-IsChain i n prev r (link ∷ links) e h =
      (h.0, append-IsChain (suc i) n link.hash r links (omega arith) h.1)

  record_all-IsChain :
      (inputs : List (ℕ × RecordInput)) (ledger : DesignatedLedger)
      → IsChain 0 genesis_hash ledger.links
      → IsChain 0 genesis_hash (record_all digest sha256 inputs ledger).links
  unfolding record_all record_event
  record_all-IsChain [] ledger h = h
  record_all-IsChain ((now, input) ∷ rest) ledger h =
      record_all-IsChain rest (record_event digest sha256 now input ledger).1 (
        append-IsChain 0 (length ledger.links) genesis_hash (record_of (suc ledger.seq) now input)
          ledger.links (omega arith) h)

  record_all-content :
      (inputs : List (ℕ × RecordInput)) (ledger : DesignatedLedger)
      → map (λ l. l.content) (record_all digest sha256 inputs ledger).links
        ≡ map (λ l. l.content) ledger.links ++ records_from ledger.seq inputs
  unfolding record_all record_event record_of
  record_all-content [] ledger = sym (append-nil _)
  record_all-content ((now, input) ∷ rest) ledger =
      let new = record_of (suc ledger.seq) now input in
      record_all-content rest (record_event digest sha256 now input ledger).1
      ∙ ap (λ rs. rs ++ records_from (suc ledger.seq) rest)
          (map-append (λ (l : LedgerLink). l.content) ledger.links
            (link_for digest sha256 (length ledger.links) (head ledger) new ∷ []))
      ∙ append_assoc (map (λ l. l.content) ledger.links) (new ∷ [])
          (records_from (suc ledger.seq) rest)

  verify_from_complete :
      (total i : ℕ) (prev : String) (links : List LedgerLink)
      → IsChain i prev links
      → verify_from digest sha256 total i prev links ≡ valid total
  unfolding verify_from
  verify_from_complete total i prev [] h = refl
  verify_from_complete total i prev (link ∷ links) h = ground (
    arith,
    eq_iff link.prev_hash prev,
    eq_iff (hash_ledger_record digest sha256 link.content) link.record_hash,
    eq_iff (compute_link_hash digest sha256 i link.prev_hash link.record_hash) link.hash,
    verify_from_complete total (suc i) link.hash links h.1,
  )

  -- Whatever is recorded, at whatever times, from an empty ledger on: the ledger holds one link for
  -- each call in order, its records bear the numbers from 1 on in their ids and the kind, summary,
  -- actor, data and time of their calls (or, where a call names none, no data and the time of the
  -- call), and `verify` finds it valid.
  pub record_all_verified :
      (inputs : List (ℕ × RecordInput))
      → (map (λ l. l.content) (record_all digest sha256 inputs empty_ledger).links
          ≡ records_from 0 inputs)
        × (verify digest sha256 (record_all digest sha256 inputs empty_ledger)
            ≡ valid (length (record_all digest sha256 inputs empty_ledger).links))
  unfolding verify
  record_all_verified inputs = (
    record_all-content inputs empty_ledger,
    verify_from_complete _ 0 genesis_hash (record_all digest sha256 inputs empty_ledger).links
        (record_all-IsChain inputs empty_ledger tt),
  )

  altered_from :
      (total i : ℕ) (prev : String) (before : List LedgerLink) (link : LedgerLink)
      → (after : List LedgerLink) (r : LedgerRecord) → IsChain i prev (before ++ link ∷ after)
      → hash_ledger_record digest sha256 r ≢ hash_ledger_record digest sha256 link.content
      → verify_from digest sha256 total i prev (before ++ record link { content = r } ∷ after)
        ≡ altered total (i + length before)
  unfolding verify_from
  altered_from total i prev [] link after r h differs =
      let here : i + 0 ≡ i = omega arith in
      let sealed : link.record_hash ≡ hash_ledger_record digest sha256 link.content =
        ap (λ (l : LedgerLink). l.record_hash) h.0 in
      let open_hash : (hash_ledger_record digest sha256 r == link.record_hash) ≡ false =
        rw sealed (==_ne (hash_ledger_record digest sha256 r) _ differs) in
      let at : link.index ≡ i = ap (λ (l : LedgerLink). l.index) h.0 in
      let linked : link.prev_hash ≡ prev = ap (λ (l : LedgerLink). l.prev_hash) h.0 in
      rw (at, linked, here, open_hash, ==_refl i, ==_refl prev) refl
  altered_from total i prev (first ∷ before) link after r h differs =
      let further : suc i + length before ≡ i + suc (length before) = omega arith in
      let rest = altered_from total (suc i) first.hash before link after r h.1 differs in
      ground (
        arith,
        eq_iff first.prev_hash prev,
        eq_iff (hash_ledger_record digest sha256 first.content) first.record_hash,
        eq_iff (compute_link_hash digest sha256 i first.prev_hash first.record_hash) first.hash,
      )

  -- If the record of one link of a ledger that was built by `record` is replaced by one with another
  -- hash, then `verify` reports an altered record, at exactly that link.
  pub altered_found :
      (inputs : List (ℕ × RecordInput)) (before : List LedgerLink) (link : LedgerLink)
      → (after : List LedgerLink) (r : LedgerRecord) (seq : ℕ)
      → (record_all digest sha256 inputs empty_ledger).links ≡ before ++ link ∷ after
      → hash_ledger_record digest sha256 r ≢ hash_ledger_record digest sha256 link.content
      → verify digest sha256
          (record { links = before ++ record link { content = r } ∷ after; seq = seq })
        ≡ altered (length (before ++ record link { content = r } ∷ after)) (length before)
  unfolding verify
  altered_found inputs before link after r seq split differs =
      altered_from _ 0 genesis_hash before link after r
        (subst (IsChain 0 genesis_hash) split (record_all-IsChain inputs empty_ledger tt)) differs
      ∙ ap (altered (length (before ++ record link { content = r } ∷ after))) (omega arith)

-- ===== src/Holloway/Ledger.antt =====
-- hdv-foundation/holloway/designated_ledger.ts, `DesignatedAuditLedger`. `digest` stands for SHA-256
-- over the JSON text of a value, `sha256` for SHA-256 over a text; the registry, which another object
-- keeps, is an argument of the operations that ask it.
pub mod Chain
pub mod Access
use hdv_orchestrator.Common.{
  ℕ, zero, suc, String, Bool, true, false, ◌&&◌, ◌||◌, Option, none, some, List, [], ◌∷◌, ◌++◌, map,
  length, ◌==◌, string_eq, nat_eq, if◌then◌else◌, or_else,
}
use hdv_orchestrator.Json.{
  Json, string, number, object, field, end, prop, as_string, to_text, is_text,
}
use hdv_orchestrator.Text.Decimal.{decimal, padded, template}
use hdv_orchestrator.Knoll.HashChain.{genesis_hash}
use hdv_orchestrator.Holloway.Identity.{
  PrimeRegistry, is_prime_hope_token, is_sovereign_identity, is_present_object, prime_hope_token,
}

pub data LedgerRecordKind : Type 0 where
  override anomalous_command critical_oob_decision : LedgerRecordKind

abbrev pub kind_name : LedgerRecordKind → String
kind_name override = "OVERRIDE"
kind_name anomalous_command = "ANOMALOUS_COMMAND"
kind_name critical_oob_decision = "CRITICAL_OOB_DECISION"

pub record LedgerRecord : Type 0 where
  pub id : String
  pub kind : LedgerRecordKind
  pub summary : String
  pub actor_id : String
  pub data_of : Json
  pub timestamp : ℕ

pub record RecordInput : Type 0 where
  pub kind : LedgerRecordKind
  pub summary : String
  pub actor_id : String
  pub data_of : Option Json
  pub timestamp : Option ℕ

pub record LedgerLink : Type 0 where
  pub index : ℕ
  pub content : LedgerRecord
  pub record_hash : String
  pub prev_hash : String
  pub hash : String

pub record DesignatedLedger : Type 0 where
  pub links : List LedgerLink
  pub seq : ℕ

-- `brokenAt` is -1 in the source where the chain is valid; the texts of `reason` are the cases.
pub data LedgerVerification : Type 0 where
  valid : (length : ℕ) → LedgerVerification
  bad_index bad_prev altered bad_hash : (length broken_at : ℕ) → LedgerVerification

abbrev pub empty_ledger : DesignatedLedger
empty_ledger = record { links = []; seq = 0 }

unfoldable pub canonicalize_record : LedgerRecord → Json
canonicalize_record r = object (
    field "id" (string r.id) (
      field "kind" (string (kind_name r.kind)) (
        field "summary" (string r.summary) (
          field "actorId" (string r.actor_id)
            (field "data" r.data_of (field "timestamp" (number r.timestamp) end))))))

-- `data ?? {}` and `timestamp ?? Date.now()`; `dal_${n.toString().padStart(8, '0')}`
unfoldable pub record_of : ℕ → ℕ → RecordInput → LedgerRecord
unfolding padded
record_of seq now input = record {
  id = template ("dal_" ∷ padded 8 seq ∷ []);
  kind = input.kind;
  summary = input.summary;
  actor_id = input.actor_id;
  data_of = or_else input.data_of (object end);
  timestamp = or_else input.timestamp now;
}

-- `head()`
abbrev pub head_from : String → List LedgerLink → String
head_from prev [] = prev
head_from prev (link ∷ links) = head_from link.hash links

abbrev pub head : DesignatedLedger → String
head ledger = head_from genesis_hash ledger.links

module _ (digest : Json → String) (sha256 : String → String) where
  unfoldable pub hash_ledger_record : LedgerRecord → String
  unfolding canonicalize_record
  hash_ledger_record r = digest (canonicalize_record r)

  unfoldable pub compute_link_hash : ℕ → String → String → String
  compute_link_hash index prev_hash record_hash =
      sha256 (template (decimal index ∷ "|" ∷ prev_hash ∷ "|" ∷ record_hash ∷ []))

  abbrev pub link_for : ℕ → String → LedgerRecord → LedgerLink
  link_for index prev_hash r = record {
    index = index;
    content = r;
    record_hash = hash_ledger_record r;
    prev_hash = prev_hash;
    hash = compute_link_hash index prev_hash (hash_ledger_record r);
  }

  -- `record`, with the time of the call.
  unfoldable pub record_event : ℕ → RecordInput → DesignatedLedger → LedgerLink × DesignatedLedger
  record_event now input ledger =
      let link =
        link_for (length ledger.links) (head ledger) (record_of (suc ledger.seq) now input) in
      (link, record { links = ledger.links ++ link ∷ []; seq = suc ledger.seq })

  unfoldable pub record_all : List (ℕ × RecordInput) → DesignatedLedger → DesignatedLedger
  unfolding record_event
  record_all [] ledger = ledger
  record_all ((now, input) ∷ rest) ledger = record_all rest (record_event now input ledger).1

  -- The loop of `verify`, from position `i` on, in a ledger of `total` links.
  unfoldable pub verify_from : ℕ → ℕ → String → List LedgerLink → LedgerVerification
  verify_from total i prev [] = valid total
  verify_from total i prev (link ∷ links) =
      let rest = verify_from total (suc i) link.hash links in
      if link.index == i
      then if link.prev_hash == prev
        then if hash_ledger_record link.content == link.record_hash
          then if compute_link_hash i link.prev_hash link.record_hash == link.hash
            then rest
            else bad_hash total i
          else altered total i
        else bad_prev total i
      else bad_index total i

  unfoldable pub verify : DesignatedLedger → LedgerVerification
  unfolding verify_from
  verify ledger = verify_from (length ledger.links) 0 genesis_hash ledger.links

-- The three recorders, by what they hand to `record`.
abbrev pub event_input : LedgerRecordKind → String → String → Json → RecordInput
event_input kind actor_id summary detail = record {
  kind = kind;
  summary = summary;
  actor_id = actor_id;
  data_of = some detail;
  timestamp = none;
}

abbrev pub knows : PrimeRegistry → Json → Option String → Bool
knows registry role none = false
knows registry role (some id) =
    (is_text "ACTING_PRIME" role && registry.is_acting_prime id)
    || (is_text "FORMER_PRIME" role && registry.is_former_prime id)

-- A registry that is there must know the reader.
abbrev pub is_live : Option PrimeRegistry → Json → Bool
is_live none reader = true
is_live (some registry) reader = knows registry (prop "role" reader) (as_string (prop "id" reader))

-- `authorize`, which throws where this is false; `canRead`.
unfoldable pub can_read : Option PrimeRegistry → Json → Bool
unfolding is_prime_hope_token is_sovereign_identity
can_read registry reader =
    is_prime_hope_token reader
    || (is_sovereign_identity reader
        && (is_text "ACTING_PRIME" (prop "role" reader)
            || is_text "FORMER_PRIME" (prop "role" reader))
        && is_live registry reader)

-- The label of a rejected reader.
unfoldable pub reader_label : Json → String
unfolding is_sovereign_identity to_text
reader_label reader =
    if is_text prime_hope_token reader
    then prime_hope_token
    else if is_sovereign_identity reader
    then template (to_text (prop "role" reader) ∷ ":" ∷ to_text (prop "id" reader) ∷ [])
    else if is_present_object reader
    then or_else (as_string (prop "id" reader)) (to_text reader)
    else to_text reader

-- What a read answers: the links, or `ForbiddenLedgerAccess` with the reader's label.
pub data LedgerRead {ℓ} (A : Type ℓ) : Type ℓ where
  granted : (content : A) → LedgerRead A
  forbidden : (reader_id : String) → LedgerRead A

unfoldable pub read : Option PrimeRegistry → Json → DesignatedLedger → LedgerRead (List LedgerLink)
unfolding can_read reader_label
read registry reader ledger =
    if can_read registry reader then granted ledger.links else forbidden (reader_label reader)

unfoldable pub read_records :
    Option PrimeRegistry → Json → DesignatedLedger → LedgerRead (List LedgerRecord)
unfolding read
read_records registry reader ledger = elim (read registry reader ledger) [
  | granted links ↦ granted (map (λ link. link.content) links)
  | forbidden reader_id ↦ forbidden reader_id
]

-- ===== src/Knoll/HashChain.antt =====
-- hdv-foundation/knoll/hashchain.ts, `AuditHashChain`. `digest` stands for SHA-256 over the JSON text
-- of a value, `sha256` for SHA-256 over a text (`createHash` of node:crypto).
pub mod Tamper
use Prim.Native.Nat.{min}
use Prim.Native.String.{◌++◌ as text_append}
use hdv_orchestrator.Common.{
  ℕ, zero, suc, ◌+◌, String, Bool, true, false, Option, none, some, List, [], ◌∷◌, ◌++◌, length,
  ◌==◌, string_eq, nat_eq, if◌then◌else◌, ◌≡◌, refl,
}
use hdv_orchestrator.Text.Decimal.{decimal}
use hdv_orchestrator.Json.{Json, null, string, number, object, field, end}
use hdv_orchestrator.Persistence.Records.{SecurityAuditRecord, AuditOutcome, allowed, blocked}

pub record HashChainLink : Type 0 where
  pub index : ℕ
  pub entry : SecurityAuditRecord
  pub entry_hash : String
  pub prev_hash : String
  pub hash : String

-- `brokenAt` is -1 in the source where the chain is valid; the texts of `reason` are the cases.
pub data HashChainVerification : Type 0 where
  intact : (length : ℕ) → HashChainVerification
  bad_index bad_prev altered bad_hash length_changed mismatch :
      (length broken_at : ℕ) → HashChainVerification

-- `'0'.repeat(64)`
abbrev pub genesis_hash : String
genesis_hash = "0000000000000000000000000000000000000000000000000000000000000000"

abbrev outcome_name : AuditOutcome → String
outcome_name allowed = "ALLOWED"
outcome_name blocked = "BLOCKED"

-- `entry.reasoning ?? null`
abbrev reasoning_or_null : Option String → Json
reasoning_or_null none = null
reasoning_or_null (some reasoning) = string reasoning

unfoldable pub canonicalize_entry : SecurityAuditRecord → Json
canonicalize_entry entry = object (
    field "id" (string entry.id) (
      field "packetId" (string entry.packet_id) (
        field "outcome" (string (outcome_name entry.outcome)) (
          field "reasoning" (reasoning_or_null entry.reasoning)
            (field "timestamp" (number entry.timestamp) end)))))

unfoldable pub hash_audit_entry : (Json → String) → SecurityAuditRecord → String
unfolding canonicalize_entry
hash_audit_entry digest entry = digest (canonicalize_entry entry)

-- `${index}|${prevHash}|${entryHash}`
abbrev pub link_text : ℕ → String → String → String
link_text index prev_hash entry_hash =
    text_append (decimal index)
      (text_append "|" (text_append prev_hash (text_append "|" entry_hash)))

module _ (digest : Json → String) (sha256 : String → String) where
  unfoldable pub compute_link_hash : ℕ → String → String → String
  compute_link_hash index prev_hash entry_hash = sha256 (link_text index prev_hash entry_hash)

  -- `head()`: the hash of the last link.
  abbrev pub head_from : String → List HashChainLink → String
  head_from prev [] = prev
  head_from prev (link ∷ links) = head_from link.hash links

  abbrev pub head : List HashChainLink → String
  head links = head_from genesis_hash links

  abbrev pub link_for : ℕ → String → SecurityAuditRecord → HashChainLink
  link_for index prev_hash entry = record {
    index = index;
    entry = entry;
    entry_hash = hash_audit_entry digest entry;
    prev_hash = prev_hash;
    hash = compute_link_hash index prev_hash (hash_audit_entry digest entry);
  }

  unfoldable pub append : SecurityAuditRecord → List HashChainLink → List HashChainLink
  append entry links = links ++ link_for (length links) (head links) entry ∷ []

  unfoldable pub append_all : List SecurityAuditRecord → List HashChainLink → List HashChainLink
  append_all [] links = links
  append_all (entry ∷ entries) links = append_all entries (append entry links)

  unfoldable pub rebuild : List SecurityAuditRecord → List HashChainLink
  rebuild entries = append_all entries []

  -- The loop of `verifyLinks`, from position `i` on, in a chain of `total` links.
  unfoldable pub verify_from : ℕ → ℕ → String → List HashChainLink → HashChainVerification
  verify_from total i prev [] = intact total
  verify_from total i prev (link ∷ links) =
      let rest = verify_from total (suc i) link.hash links in
      if link.index == i
      then if link.prev_hash == prev
        then if hash_audit_entry digest link.entry == link.entry_hash
          then if compute_link_hash i link.prev_hash link.entry_hash == link.hash
            then rest
            else bad_hash total i
          else altered total i
        else bad_prev total i
      else bad_index total i

  unfoldable pub verify_links : List HashChainLink → HashChainVerification
  verify_links links = verify_from (length links) 0 genesis_hash links

  -- The loop of `detectTamper`; the lists are of one length there.
  unfoldable pub compare_from :
      ℕ → ℕ → String → List SecurityAuditRecord → List HashChainLink → HashChainVerification
  compare_from total i prev [] links = intact total
  compare_from total i prev (entry ∷ entries) [] = intact total
  compare_from total i prev (entry ∷ entries) (link ∷ links) =
      let hash = compute_link_hash i prev (hash_audit_entry digest entry) in
      let rest = compare_from total (suc i) hash entries links in
      if hash == link.hash then rest else mismatch total i

  unfoldable pub detect_tamper :
      List SecurityAuditRecord → List HashChainLink → HashChainVerification
  unfolding compare_from
  detect_tamper current links =
      if length current == length links
      then compare_from (length links) 0 genesis_hash current links
      else length_changed (length links) (min (length current) (length links))

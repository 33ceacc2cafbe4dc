-- ===== src/Config/Hash.antt =====
-- hdv-foundation/config/hash.ts. `digest` stands for `createHash('sha256')` of node:crypto over the
-- text that `JSON.stringify` makes of a value; `sortValue` is in Json/Sorting.
use hdv_orchestrator.Common.{ℕ, String, Bool, ◌≡◌, refl, true, false, leb, ◌&&◌, ◌||◌}
use hdv_orchestrator.Json.{Json, undefined, number, string, object, Fields, end, field}
use hdv_orchestrator.Json.Sorting.{sort_value, Reorders, sort_value_of_Reorders}
use hdv_orchestrator.Text.{codes}
use hdv_orchestrator.Text.Rx.{Rx, word, times, chr, stop, test_start}
use hdv_orchestrator.Config.Routing.{Header, Payload, priority_name}

-- `{ tenantId }` only if it is present.
abbrev tenant_field : Json → Fields
tenant_field undefined = end
tenant_field v = field "tenantId" v end

unfoldable pub canonicalize : Header → Payload → Json
canonicalize header payload = object (
    field "header"
      (object (
        field "packetId" (string header.packet_id) (
          field "timestamp" (number header.timestamp) (
            field "source" (string header.source) (
              field "destination" (string header.destination) (
                field "priority" (string (priority_name header.priority))
                  (tenant_field header.tenant_id)))))))
      (field "payload"
        (object
          (field "intent" (string payload.intent) (field "data" (sort_value payload.content) end)))
        end))

unfoldable pub compute_packet_hash : (Json → String) → Header → Payload → String
compute_packet_hash digest header payload = digest (canonicalize header payload)

unfoldable pub is_hex : ℕ → Bool
is_hex c = (leb b'a' c && leb c b'f') || (leb b'0' c && leb c b'9')

-- /^knoll_[a-f0-9]{32}$/
token_pattern : Rx
unfolding is_hex
token_pattern = word (codes "knoll_") (times 32 (chr is_hex) stop)

unfoldable pub is_well_formed_knoll_token : String → Bool
unfolding token_pattern test_start
is_well_formed_knoll_token token = test_start token_pattern (codes token)

token_tests :
    (is_well_formed_knoll_token "knoll_0123456789abcdef0123456789abcdef" ≡ true)
    × (is_well_formed_knoll_token "knoll_0123456789abcdef0123456789abcde" ≡ false)
    × (is_well_formed_knoll_token "knoll_0123456789abcdef0123456789abcdef0" ≡ false)
unfolding is_well_formed_knoll_token
token_tests = (refl, refl, refl)

-- The hash of a packet does not depend on the order in which the keys of its data, at any depth,
-- were written.
pub compute_packet_hash-Reorders :
    (digest : Json → String) (header : Header) (intent : String) (v w : Json)
    → Reorders v w
    → compute_packet_hash digest header (record { intent = intent; content = v })
      ≡ compute_packet_hash digest header (record { intent = intent; content = w })
unfolding compute_packet_hash canonicalize
compute_packet_hash-Reorders digest header intent v w r = rw (sort_value_of_Reorders v w r)

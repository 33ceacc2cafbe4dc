-- ===== src/Knoll/Freeze.antt =====
-- hdv-foundation/knoll/freeze.ts, `SystemFreezeController`. Scores are in ten-thousandths, to which
-- the scorers round them; times are arguments; a packet is a value, so the deep copy is the packet.
-- The recognizer of override tokens (`isHollowayToken`) is an argument of what calls it.
pub mod Safety
use hdv_orchestrator.Common.{
  ℕ, String, Bool, true, false, ◌||◌, ◌&&◌, Option, none, some, List, [], ◌∷◌, ◌++◌, ◌≡◌, ◌≢◌, ◌⊎◌,
  refl, arith, leb, if◌then◌else◌, inl, inr,
}
use hdv_orchestrator.Json.{Json, string}
use hdv_orchestrator.Text.{codes}
use hdv_orchestrator.Text.Rx.{Rx, word, times, chr, many, alt, seq, stop, test_start}
use hdv_orchestrator.Config.Routing.{RoutingPacket}

pub record QuarantineRecord : Type 0 where
  pub packet_id : String
  pub packet : RoutingPacket
  pub reason : String
  pub score : Option ℕ
  pub quarantined_at : ℕ

pub record FreezeState : Type 0 where
  pub frozen : Bool
  pub reason : Option String
  pub score : Option ℕ
  pub packet_id : Option String
  pub frozen_at : Option ℕ

pub record SystemFreezeController : Type 0 where
  pub state : FreezeState
  pub quarantine : List QuarantineRecord

abbrev pub running : FreezeState
running = record { frozen = false; reason = none; score = none; packet_id = none; frozen_at = none }

is_alphanumeric : ℕ → Bool
is_alphanumeric c =
    (leb b'A' c && leb c b'Z') || (leb b'a' c && leb c b'z') || (leb b'0' c && leb c b'9')

-- /^(holloway|prime)_[A-Za-z0-9]{8,}$/
override_pattern : Rx
unfolding is_alphanumeric
override_pattern =
    let rest = times 8 (chr is_alphanumeric) (seq (many is_alphanumeric) stop) in
    alt (word (codes "holloway_") rest) (word (codes "prime_") rest)

unfoldable pub default_is_holloway_token : Json → Bool
unfolding override_pattern test_start
default_is_holloway_token (string s) = test_start override_pattern (codes s)
default_is_holloway_token v = false

unfoldable pub trigger_freeze :
    String → ℕ → Option String → ℕ → SystemFreezeController → SystemFreezeController
trigger_freeze reason score packet_id now c = if c.state.frozen then c else record c {
  state = record {
    frozen = true;
    reason = some reason;
    score = some score;
    packet_id = packet_id;
    frozen_at = some now;
  };
}

abbrev quarantine_reason : Option String → Option String → String
quarantine_reason (some given) cause = given
quarantine_reason none (some cause) = cause
quarantine_reason none none = "quarantined by KNOLL"

unfoldable pub quarantine_packet :
    RoutingPacket → Option String → Option ℕ → ℕ → SystemFreezeController → SystemFreezeController
quarantine_packet packet reason score now c = record c {
  quarantine =
      c.quarantine
      ++ record {
        packet_id = packet.header.packet_id;
        packet = packet;
        reason = quarantine_reason reason c.state.reason;
        score = score;
        quarantined_at = now;
      }
        ∷ [];
}

unfoldable pub is_frozen : SystemFreezeController → Bool
is_frozen c = c.state.frozen

unfoldable pub clear_freeze : SystemFreezeController → SystemFreezeController
clear_freeze c = record c { state = running }

unfoldable pub unfreeze :
    (Json → Bool) → Json → SystemFreezeController → Bool × SystemFreezeController
unfolding clear_freeze
unfreeze recognizes token c =
    if c.state.frozen
    then (if recognizes token then (true, clear_freeze c) else (false, c))
    else (true, c)

unfoldable pub reset : SystemFreezeController → SystemFreezeController
reset c = record { state = running; quarantine = [] }

-- `asFreezeControllable(c).freeze(reason)`: the score is 1.0.
unfoldable pub sovereign_freeze :
    Option String → ℕ → SystemFreezeController → SystemFreezeController
sovereign_freeze none now c = trigger_freeze "sovereign FREEZE override" 10000 none now c
sovereign_freeze (some reason) now c = trigger_freeze reason 10000 none now c

-- A call of one of the controller's operations that change its state: by KNOLL, by APEX (`unfreeze`
-- with a token), through `asFreezeControllable` (`sovereign`, `lift`), or of `clearFreeze` or `reset`.
pub data Event : Type 0 where
  trigger : (reason : String) (score : ℕ) (packet_id : Option String) (now : ℕ) → Event
  sovereign : (reason : Option String) (now : ℕ) → Event
  hold : (packet : RoutingPacket) (reason : Option String) (score : Option ℕ) (now : ℕ) → Event
  present : (token : Json) → Event
  lift : (reason : Option String) → Event
  privileged_clear lifecycle_reset : Event

unfoldable pub handle : (Json → Bool) → Event → SystemFreezeController → SystemFreezeController
unfolding trigger_freeze sovereign_freeze quarantine_packet unfreeze clear_freeze reset
handle recognizes (trigger reason score packet_id now) c =
    trigger_freeze reason score packet_id now c
handle recognizes (sovereign reason now) c = sovereign_freeze reason now c
handle recognizes (hold packet reason score now) c = quarantine_packet packet reason score now c
handle recognizes (present token) c = (unfreeze recognizes token c).1
handle recognizes (lift reason) c = clear_freeze c
handle recognizes privileged_clear c = clear_freeze c
handle recognizes lifecycle_reset c = reset c

unfoldable pub run : (Json → Bool) → List Event → SystemFreezeController → SystemFreezeController
run recognizes [] c = c
run recognizes (event ∷ events) c = run recognizes events (handle recognizes event c)

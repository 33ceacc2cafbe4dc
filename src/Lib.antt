-- ===== src/Lib.antt =====
-- HDV orchestrator: a model of the governed multi-agent runtime of hdv-foundation, with the
-- theorems that make it correct.
--
-- The program routes packets between the agents of a runtime (APEX, KNOLL, HOPE, VISION, DREAM).
-- APEX is the only transport: `ApexRouter.dispatch` tests the shape of a packet, asks the freeze
-- controller, asks KNOLL, and only then calls the handler of the destination; each call leaves a row
-- in the billing ledger. KNOLL's `intercept` runs the shape check, the hash check, the rate limit,
-- the eight laws and the anomaly scorers in turn, freezes the runtime when it finds an anomaly, and
-- writes one record of its verdict. The records go to the repositories of the persistence layer and
-- to a hash chain. Nodes are materialized on demand and claim slices of work under leases with
-- fencing tokens; accounts log in for session tokens. A worker
-- executes workflows, graphs of nodes. Above all of them a sovereign authority issues directives,
-- keeps a ledger of its own and can lift or raise a freeze by override tokens.
--
-- Which file models which part:
--   Common, Common/Lists    lists, options, equality tests, finite quantifiers
--   JsMap                   a JavaScript Map: an association list in insertion order
--   Text                    strings: code units, decimals, trimming, the order `<`, and the
--                           regular expressions that the program uses
--   Json, Json/Sorting      JSON values and the sorting of object keys
--   Config/Routing, Duty, Hash
--                           hdv-foundation/config/routing_schema.ts, duty.ts and hash.ts:
--                           RoutingPacket, the duties, the canonical form and computePacketHash
--   Persistence             hdv-foundation/persistence/repositories.ts, a file per repository
--   Knoll                   hdv-foundation/knoll: laws.ts (Laws), validator.ts (Structure, Rate,
--                           Validator), freeze.ts (Freeze), audit.ts (Audit), hashchain.ts
--                           (HashChain), active_router.ts (ActiveRouter)
--   Nodes/Lease             hdv-foundation/nodes/lease.ts
--   Nodes/Matrix, Managers  hdv-foundation/nodes/matrix.ts and constants.ts
--   Nodes/Fleet             hdv-foundation/nodes/lifecycle.ts
--   Apex                    hdv-foundation/apex: packet.ts (Packet), ledger.ts (Ledger) and router.ts
--                           (Router)
--   Auth                    hdv-foundation/auth/service.ts: passwords (Password), accounts and
--                           sessions (Service)
--   Worker                  packages/worker/src/engine/dag.ts: the graph of a workflow (Graph), the
--                           state of an execution (Engine) and its steps (Steps)
--   Holloway                hdv-foundation/holloway: types.ts and prime_hope.ts (Identity),
--                           designated_ledger.ts (Ledger), sovereign.ts (Sovereign), override.ts
--                           (Override); knoll/holloway_bridge.ts is Knoll/HollowayBridge
--   Market                  hdv-foundation/market: store.ts and types.ts (Waitlist), handlers.ts
--                           (Handlers)
-- A method of a class becomes a function from the state to the new state and the result; the
-- state of a class is a record with a field per private field. Functions keep their names in
-- snake_case (findByEmail is `find_by_email`).
--
-- Choices. Clocks, random ids and the randomness of Node's crypto are arguments of the operations
-- that read them. SHA-256 over JSON.stringify is a parameter `digest` from JSON values to strings.
-- Promises are the values they resolve to: each repository runs its body without an await in
-- between, so a call is one step. Floating-point scores stand in ten-thousandths, costs of requests
-- in billionths of a dollar and other money in millionths. The loops run over lists; the recursion of
-- cascadeSkip has fuel above the number of nodes, with a theorem that it is enough.
--
-- Not modelled: the scorers' floating-point arithmetic (the gate takes any scorer through the
-- record `Scorers`), the HTTP gateway and its handlers, the adapters of Prisma, Kafka, Redis and
-- Stripe, the providers of models, the sandboxes of VISION, the nodes of packages/worker,
-- the other packages, billing, tenancy, HOPE and DREAM, and the parts written in
-- Python.
pub mod Common
pub mod JsMap
pub mod Text
pub mod Json
pub mod Config
pub mod Persistence
pub mod Knoll
pub mod Nodes
pub mod Auth
pub mod Worker
pub mod Apex
pub mod Holloway
pub mod Market
mod Tests

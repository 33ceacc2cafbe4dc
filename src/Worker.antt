-- ===== src/Worker.antt =====
-- packages/worker/src/engine: the execution of a workflow graph.
pub mod Graph
pub mod Engine
pub mod Steps

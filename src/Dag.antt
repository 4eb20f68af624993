-- ===== src/Dag.antt =====
-- internal/dag: conditions, walks, orders and checks over the graph of the store.
pub mod Condition
pub mod Cycle
pub mod Walk
pub mod Topo
pub mod Validate
pub mod Linearize

-- ===== src/Web.antt =====
-- internal/web: the handlers whose checks guard the graph, and the cache of the evidence pane.
pub mod Exits
pub mod Stability
pub mod Steady

-- ===== src/Exposure.antt =====
-- The exposure engine: what the graph says about who owns whom (exposure/ownership_graph.py).
pub mod Ownership
pub mod Chains
pub mod Contagion
pub mod Queries
mod Tests

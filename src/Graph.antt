-- ===== src/Graph.antt =====
-- Nodes and edges (common/types.py), the in-memory store (knowledge_graph/memory.py) with the
-- queries that it inherits (knowledge_graph/store.py), and the policy on edges
-- (knowledge_graph/substrate.py).
pub mod Types
pub mod Memory
pub mod Substrate
pub mod Reach
mod Tests

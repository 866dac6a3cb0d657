-- ===== src/Resolution.antt =====
-- Entity resolution: the log of judgements and the clusters that follow from it
-- (knowledge_graph/resolution.py).
pub mod Log
pub mod Sets
pub mod Cluster
pub mod Canonical
mod Tests

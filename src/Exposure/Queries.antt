-- ===== src/Exposure/Queries.antt =====
-- The queries of exposure/queries.py over the store.
pub mod Props
pub mod Owners
pub mod Profile
pub mod Panels
pub mod Funds
pub mod Companies
pub mod Network
pub mod Places
pub mod Sectors
pub mod Commodities
pub mod People
pub mod Portfolio
pub mod Gics
pub mod Hops
pub mod Hidden
mod Tests

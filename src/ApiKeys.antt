-- ===== src/ApiKeys.antt =====
-- API keys: src/coruscant/enterprise/api_keys.py.
pub mod Store
pub mod Scopes
pub mod Resolving
pub mod Runs
pub mod Revoking
pub mod Unique
mod Tests

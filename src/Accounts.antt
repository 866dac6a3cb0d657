-- ===== src/Accounts.antt =====
-- Accounts: src/coruscant/auth. The users' table is a list of rows; hashing, encoding and signing are the
-- standard library's, and are the fields of a record.
pub mod Security
pub mod Users
pub mod Service
pub mod Login
pub mod Reset
mod Tests

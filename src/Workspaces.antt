-- ===== src/Workspaces.antt =====
-- The workspaces of workspaces/store.py, with the models of workspaces/models.py. The three tables are
-- lists of rows; a transaction is one function, which returns the tables that it leaves. The key that
-- numbers the members' rows is left out, since no query reads it. `secrets.token_hex` is an argument.
pub mod Store
pub mod Invariant
pub mod Effects
pub mod Transactions
pub mod Access
pub mod Listing
mod Tests

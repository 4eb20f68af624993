-- ===== src/Doc.antt =====
-- internal/doc: the writing project's store over SQLite. `Db` has the tables and the SQL statements,
-- the other modules the methods of `SQLiteStore`, and their children what is proved of them.
pub mod Stamp
pub mod Db
pub mod Action
pub mod Inserted
pub mod Nodes
pub mod Edges
pub mod Evidence
pub mod Threads
pub mod State
pub mod Snapshots
pub mod Branches
pub mod Valid
pub mod Calls

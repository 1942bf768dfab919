-- ===== src/Store.antt =====
-- internal/store: the tables of migrations/*.sql and the statements of sqlite.go over them.
-- A table is the list of its rows in the order of insertion. SQLite itself is not modelled: it is
-- taken to carry out a statement, or a whole transaction, or to fail and change nothing.
pub mod Table
pub mod Db
pub mod Vms
pub mod Jobs
pub mod Ips
pub mod Idempotency
pub mod Migrations

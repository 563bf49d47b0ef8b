-- ===== src/Crud.antt =====
-- Package crud (pkg/crud): the SQL texts and the operations against one backend.
pub mod Sql
pub mod Statements
pub mod Driver
pub mod Rows
pub mod Ops
pub mod Writes
pub mod Batch
pub mod Gates
pub mod Transactions
pub mod Written
pub mod Atomic
pub mod Stuck
pub mod Quiet
pub mod Reads
pub mod Samples
mod Tests

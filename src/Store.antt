-- ===== src/Store.antt =====
-- internal/manager/memstore/memstore.go: the in-memory Repository, which the contract tests hold to
-- the behaviour of the MongoDB one. One mutex makes each method atomic, so a method is a function
-- of the store. Methods that hand out copies return the record.
pub mod State
pub mod Jobs
pub mod Participations
pub mod Events
pub mod Logs
pub mod Tokens
pub mod Accounts
pub mod Paging
mod Tests

-- ===== src/Domain.antt =====
-- internal/manager/domain: the entities of the program and the rules they keep.
pub mod Errors
pub mod Identifier
pub mod TimeOfDay
pub mod Reminder
pub mod Participation
pub mod Job
pub mod Event
pub mod Provider
pub mod Account
pub mod Workspace
pub mod Duration
mod Tests

-- ===== src/Usecase.antt =====
-- internal/manager/usecase: the application services over the repository and the provider port.
pub mod Effects
pub mod Events
pub mod Participation
pub mod Reminders
pub mod Identity
pub mod Workspaces
pub mod Quiet
pub mod Tests

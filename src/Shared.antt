-- ===== src/Shared.antt =====
-- internal/shared: helpers that the manager and the providers share.
pub mod ChannelName

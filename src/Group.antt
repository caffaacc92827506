-- ===== src/Group.antt =====
-- The group coordinator, internal/coordinator/group/groupcoord.go: its requests against the
-- replicated metadata state, its table of heartbeats and the sweep of expired members.
pub mod World
pub mod Quiet
pub mod TopicSets
pub mod Join
pub mod Leave
pub mod Commit
pub mod Heartbeat
pub mod Sweep

-- ===== src/Agent.antt =====
-- internal/agent: the durable queue of the server agent and the uploader that drains it.
pub mod Outbox
pub mod Uploader
pub mod Config
pub mod Runtime

-- ===== src/Watchdog.antt =====
-- crates/llm-guard-proxy/src/proxy/watchdog_progress.rs: what the stuck-engine watchdog sees of a
-- response.
pub mod Json
pub mod Content
pub mod Sse
pub mod Fast
pub mod Framing
pub mod Parser

-- ===== src/Guardian.antt =====
-- crates/llm-guard-proxy-host-guardian/src: the memory guardian of the host.
pub mod Thresholds
pub mod MemInfo
pub mod Emergency
pub mod Escalation
pub mod State
pub mod Reconcile
pub mod Registration
pub mod Tier2
pub mod Monitor

-- ===== src/StreamLoop.antt =====
-- The channelized loop detector of crates/llm-guard-proxy-core/src/loop_detector.rs: what a stream
-- of reasoning, content and tool arguments says about a model that repeats itself.
pub mod Hash
pub mod Counts
pub mod Config
pub mod Signal
pub mod Detection
pub mod Semantic
pub mod Suffix
pub mod Json
pub mod Profile
pub mod State
pub mod Lines
pub mod Tokens
pub mod Reasoning
pub mod Channel
pub mod Detector

-- ===== src/Lib.antt =====
-- llm-guard-proxy is a guard proxy for local LLM deployments. Beside the HTTP service it has parts
-- that decide on their own: a detector of loops in streams of text and tool calls, a guard that fails
-- a response on them, a detector of tool loops, a budget of retries, a guard on swap, a guardian of
-- the host's memory, and a parser that tells whether a response makes progress. This library models
-- those parts and proves what they promise.
--
-- StreamLoop: crates/llm-guard-proxy-core/src/loop_detector.rs, ChannelizedLoopDetector. Detector is
-- the struct with observe (observe_input), observe_tool_call and finish; Channel is
-- LoopChannelState::observe, which asks Lines, Tokens, the suffix cycle (Suffix), Reasoning and the
-- low progress of Tokens in this order; State is the struct of a channel, Profile the input profile,
-- Json the canonical form of arguments, Signal and Detection what is found, Counts the bounded maps,
-- Hash the FNV hashes, Config LoopGuardConfig of settings/model.rs. A text is a list of code points
-- (Prelude.Text); Unicode's tables (Unicode) and serde_json (JsonText) are parameters.
-- LoopGuard: crates/llm-guard-proxy/src/proxy/shielded_chat/loop_guard.rs. The guard's apply_signals
-- turns the detector's signals into the failure of a response.
-- ToolLoop: crates/llm-guard-proxy-core/src/loop_detector.rs, ToolLoopDetector. The window of
-- fingerprints, the counts and the outputs are its fields; observe_fingerprint and
-- observe_tool_output are functions from the detector to the detector and the signals.
-- RetryAfter: crates/llm-guard-proxy/src/proxy/retry_after.rs. The HTTP header library is a
-- parameter (Headers) with the laws that the code relies on.
-- SwapGuard: crates/llm-guard-proxy-host-telemetry/src/policy.rs and model.rs.
-- Budget: crates/llm-guard-proxy-state/src/budget.rs, check_and_increment. The SQLite table is a
-- parameter (BudgetCounts) with what its statements do to the rows. Dates are the civil dates of the
-- same file, for the times since the epoch.
-- Watchdog: crates/llm-guard-proxy/src/proxy/watchdog_progress.rs. Sse is the event parser byte by
-- byte, Fast the parser of oversized chunks line by line, Framing the test for SSE, Parser
-- emitted_progress over both; Content says what counts as progress in an event, over serde_json,
-- which is a parameter (Json).
-- Guardian: crates/llm-guard-proxy-host-guardian/src. Thresholds (config.rs), MemInfo
-- (parse_mem_available of monitor.rs), Registration (parse_registration of the same file), Emergency
-- (emergency.rs), Escalation (escalation.rs), State (the structs of monitor.rs and monitor/tier2.rs), Reconcile (policy and target, with
-- monitor/open.rs), Tier2 (monitor/tier2.rs) and Monitor (tick of monitor.rs). What the kernel,
-- systemd, the configuration and the executor answer in one tick is the record Host; a run of
-- ticks is a list of hosts, so a theorem over all lists holds for every behaviour of them.
--
-- Prelude holds what the parts share: tests on numbers, lists measured by native numbers, words
-- with saturating and checked arithmetic, maps and decimal text. Machine words are natural numbers
-- with their bounds written out.
--
-- Rounds: touch_from takes as many rounds as bytes, fast_loop and framing_loop as many as bytes of
-- the chunk, since each round takes a byte at least; wait_loop takes the rounds that its theorem
-- gives. Where the rounds of wait_loop run out, it gives none, which that theorem excludes.
--
-- count_repetitions takes as many rounds as the text has characters, since a repetition has four at
-- least, and search_units one for each length from 4 to 64.
--
-- Not modelled: the metadata texts of signals and of failures, the embedding detector, the
-- asynchronous HTTP service, the other stores on SQLite, the workflow processes, the collection of
-- telemetry, the parsing of settings and the guardian's timer loop; these are input and output, or the host's answers in the
-- model.
pub mod Prelude
pub mod Budget
pub mod Guardian
pub mod LoopGuard
pub mod RetryAfter
pub mod StreamLoop
pub mod SwapGuard
pub mod ToolLoop
pub mod Watchdog
mod Examples

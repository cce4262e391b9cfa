-- ===== src/Examples.antt =====
-- The theorems at concrete inputs, and runs of the definitions.
mod ToolLoopRuns
mod RetryAfterRuns
mod SwapGuardRuns
mod ThresholdRuns
mod MemInfoRuns
mod EmergencyRuns
mod EscalationRuns
mod GuardianRuns
mod WatchdogRuns
mod BudgetRuns
mod StreamRuns
mod StreamLoopRuns
mod LoopGuardRuns
mod RegistrationRuns
mod DateRuns

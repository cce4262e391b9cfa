-- ===== src/StreamLoop/Channel/Fragments.antt =====
-- Where the stream is cut into fragments does not matter to the lines, the tokens and the recent
-- characters of a channel.
use llm_guard_proxy.StreamLoop.Tokens
use llm_guard_proxy.Prelude.{ℕ, ◌≡◌, List}
use llm_guard_proxy.Prelude.Text.{Unicode}
use llm_guard_proxy.StreamLoop.Config.{LoopGuardConfig}
use llm_guard_proxy.StreamLoop.Signal.{StreamChannel}
use llm_guard_proxy.StreamLoop.Profile.{LoopInputProfile}
use llm_guard_proxy.StreamLoop.State.{fragment_input, LoopChannelState, Outcome}
use llm_guard_proxy.StreamLoop.State.Outcomes.{or_else-nothing}
use llm_guard_proxy.StreamLoop.Lines.{observe_line_chars, close_line, observe_lines}

module _ (unicode : Unicode) (config : LoopGuardConfig) (profile : LoopInputProfile) where
  abbrev token_chars : List ℕ → LoopChannelState → Outcome
  token_chars = Tokens.observe_token_chars unicode config profile

  pub fragment_lines :
      (channel : StreamChannel) (text : List ℕ) (start : ℕ) (st : LoopChannelState)
      → observe_lines unicode config profile (fragment_input channel text) start st
        ≡ observe_line_chars unicode config profile start 0 text st
  unfolding observe_lines close_line fragment_input
  fragment_lines channel text start st = or_else-nothing _

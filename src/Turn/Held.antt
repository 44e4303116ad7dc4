-- ===== src/Turn/Held.antt =====
-- Proofs on the human hold
-- (VadSpeechPresence in crates/speech-core-daemon/src/detectors/turn.rs).
use speech_core.Base.{ℕ, ◌-◌, ◌≤◌, ◌<◌, none, some, ◌≡◌}
use speech_core.Base.Words.{saturating_add}
use speech_core.Turn.Signals.{VadSpeechPresence}
use speech_core.Turn.Local.{Local}
use speech_core.Turn.Close.{turn_start_or}
use speech_core.Turn.Handlers.Shared.{hold_anchor}

-- For how long there was no token, at the time of the signal.
abbrev pub held_samples : VadSpeechPresence → Local → ℕ
held_samples s l =
    s.decision_sample
    - hold_anchor s.ids.stream_session_id (turn_start_or l.session.open_turn s.start_sample) l

-- The turn was closed at or past a sample.
pub record ClosedPast (sample : ℕ) (before after : Local) : Type 0 where
  pub no_turn : after.session.open_turn ≡ none
  pub counted : after.session.turns_closed ≡ saturating_add before.session.turns_closed 1
  pub decision : ℕ
  pub closed : after.session.last_closed_decision_sample ≡ some decision
  pub past : sample ≤ decision

-- How a signal of held speech ends, by the silence and what is configured.
pub data HoldEnd (threshold : ℕ) (s : VadSpeechPresence) (before after : Local) : Type 0 where
  fired :
      threshold ≤ held_samples s before
      → ClosedPast s.decision_sample before after
      → HoldEnd threshold s before after
  kept :
      held_samples s before < threshold
      → after.session ≡ before.session
      → after.progress ≡ before.progress
      → HoldEnd threshold s before after

-- ===== src/Turn/Config.antt =====
-- The configuration of the turn manager, its constants and its conversions between milliseconds
-- and samples at 16 kHz (crates/speech-core-daemon/src/detectors/turn.rs).
use speech_core.Base.{ℕ, ◌/◌, Bool, false}
use speech_core.Base.Words.{saturating_mul}

-- The handles `model_progress` and `model_drain` stand with the state that they point at.
pub record TurnManagerConfig : Type 0 where
  pub model_eou_close_enabled : Bool
  pub vad_close_enabled : Bool
  pub min_vad_speech_ms : ℕ  -- u32
  pub min_model_eou_speech_ms : ℕ  -- u32
  pub model_eou_refractory_ms : ℕ  -- u32
  pub model_alignment_timeout_ms : ℕ  -- u32
  pub human_hold_silence_ms : ℕ  -- u32
  pub transcript_silence_close_ms : ℕ  -- u32
  pub semantic_gate_enabled : Bool
  pub semantic_gate_close_enabled : Bool

abbrev pub default_config : TurnManagerConfig
default_config = record {
  model_eou_close_enabled = false;
  vad_close_enabled = false;
  min_vad_speech_ms = 300;
  min_model_eou_speech_ms = 300;
  model_eou_refractory_ms = 700;
  model_alignment_timeout_ms = 3000;
  human_hold_silence_ms = 7500;
  transcript_silence_close_ms = 700;
  semantic_gate_enabled = false;
  semantic_gate_close_enabled = false;
}

unfoldable pub samples_to_ms : ℕ → ℕ
samples_to_ms sample = saturating_mul sample 1000 / 16000

unfoldable pub ms_to_samples : ℕ → ℕ
ms_to_samples ms = saturating_mul ms 16000 / 1000

abbrev pub close_token_quiescence_ms : ℕ
close_token_quiescence_ms = 60

abbrev pub close_buffer_drained_ms : ℕ
close_buffer_drained_ms = 20

abbrev pub close_finalize_padding_ms : ℕ
close_finalize_padding_ms = 320

abbrev pub close_finalize_timeout_ms : ℕ
close_finalize_timeout_ms = 800

-- ===== src/Vad/Events.antt =====
-- The events that the voice activity detector writes
-- (crates/speech-core-daemon/src/detectors/vad.rs). Each has the constructor for its name. The
-- stamps of the daemon's clock are left out, as is the `detector`, which is always "silero_vad".
use speech_core.Base.{ℕ, Bool, true, false, String, Option}
use speech_core.Turn.Signals.{Ids}

pub record VadSessionStartEvent : Type 0 where
  pub ids : Ids
  pub model_path : String
  pub threshold : ℕ
  pub frame_ms : ℕ
  pub frame_samples : ℕ
  pub onset_frames : ℕ
  pub hangover_frames : ℕ
  pub pre_speech_frames : ℕ
  pub speech_end_silence_ms : ℕ
  pub emit_frames : Bool
  pub smoothing_alpha : ℕ
  pub stop_threshold : ℕ
  pub fallback_threshold : ℕ
  pub configured_fallback_threshold : ℕ
  pub acoustic_fallback_silence_ms : ℕ

-- What the three events of each window share.
pub record VadWindow : Type 0 where
  pub ids : Ids
  pub frame_index : ℕ
  pub sample_start : ℕ
  pub sample_count : ℕ
  pub sample_time_ms : ℕ
  pub probability : ℕ
  pub smoothed_probability : ℕ
  pub threshold : ℕ
  pub stop_threshold : ℕ
  pub fallback_threshold : ℕ
  pub raw_is_speech : Bool
  pub smoothed_in_speech : Bool
  pub ingress_receive_mono_ns : ℕ

pub record VadStateEvent : Type 0 where
  pub window : VadWindow
  pub raw_changed : Bool
  pub state_changed : Bool
  pub hangover_progress : Bool
  pub silence_counter : ℕ
  pub hangover_frames : ℕ

pub record VadMeterEvent : Type 0 where
  pub window : VadWindow
  pub silence_counter : ℕ
  pub hangover_frames : ℕ
  pub fallback_progress_ms : ℕ
  pub fallback_target_ms : ℕ
  pub energy_rms : Option ℕ
  pub energy_threshold : ℕ
  pub energy_gated : Bool

pub record VadFrameEvent : Type 0 where
  pub window : VadWindow

pub record VadSpeechStartEvent : Type 0 where
  pub ids : Ids
  pub segment_index : ℕ
  pub start_sample : ℕ
  pub decision_sample : ℕ
  pub confidence : ℕ
  pub raw_probability : ℕ
  pub smoothed_probability : ℕ

pub record VadSpeechEndEvent : Type 0 where
  pub ids : Ids
  pub segment_index : ℕ
  pub start_sample : ℕ
  pub end_sample : ℕ
  pub decision_sample : ℕ
  pub reason : String
  pub confidence : Option ℕ
  pub raw_probability : ℕ
  pub smoothed_probability : ℕ

pub record VadAcousticFallbackEvent : Type 0 where
  pub ids : Ids
  pub segment_index : ℕ
  pub start_sample : ℕ
  pub end_sample : ℕ
  pub decision_sample : ℕ
  pub silence_samples : ℕ
  pub confidence : Option ℕ
  pub raw_probability : ℕ
  pub smoothed_probability : ℕ
  pub fallback_threshold : ℕ
  pub configured_fallback_threshold : ℕ
  pub acoustic_fallback_silence_ms : ℕ

pub record VadSessionEndEvent : Type 0 where
  pub ids : Ids
  pub reason : String
  pub frames_processed : ℕ
  pub segments_detected : ℕ

pub record VadErrorEvent : Type 0 where
  pub ids : Ids
  pub message : String

pub data VadEvent : Type 0 where
  vad_session_start : VadSessionStartEvent → VadEvent
  vad_state : VadStateEvent → VadEvent
  vad_meter : VadMeterEvent → VadEvent
  vad_frame : VadFrameEvent → VadEvent
  vad_speech_start : VadSpeechStartEvent → VadEvent
  vad_speech_end : VadSpeechEndEvent → VadEvent
  vad_acoustic_fallback_event : VadAcousticFallbackEvent → VadEvent
  vad_session_end : VadSessionEndEvent → VadEvent
  vad_error : VadErrorEvent → VadEvent

-- `vad_meter` is filtered out of the log file and only broadcast (is_jsonl_filtered_event of
-- crates/speech-core-daemon/src/jsonl_logger.rs).
unfoldable pub is_logged : VadEvent → Bool
is_logged (vad_meter e) = false
is_logged _ = true

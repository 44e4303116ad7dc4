-- ===== src/Turn/Signals.antt =====
-- What the detectors tell the turn manager and what it answers (DetectorSignal, DetectorAction of
-- crates/speech-core-daemon/src/detectors/mod.rs), with the drain requests that it sends to the
-- model worker (crates/speech-core-daemon/src/model.rs). A confidence is the bit pattern of its
-- f32, since it is only passed on; so is the duration's f64.
use speech_core.Base.{ℕ, Bool, String, Option}
use speech_core.Base.Int.{ℤ}
use speech_core.Progress.State.{ModelProgressMap}

-- The three names that every signal, event and action carries.
pub record Ids : Type 0 where
  pub stream_id : String
  pub stream_session_id : String
  pub adapter_id : String

pub record ModelDrainRequest : Type 0 where
  pub ids : Ids
  pub target_sample : ℕ  -- u64
  pub reason : String
  pub timeout_ms : ℕ  -- u32
  pub finalize_turn : Bool
  pub padding_ms : ℕ  -- u32

pub record ModelDrainResult : Type 0 where
  pub session_found : Bool
  pub chunk_processed : Bool
  pub drained_until_sample : ℕ  -- u64
  pub finalized : Bool
  pub finalize_ok : Bool
  pub finalize_timeout : Bool
  pub close_to_input_finished_ms : ℕ  -- u64
  pub finalize_decode_ms : ℕ  -- u64
  pub finalize_chunks : ℕ  -- u32
  pub tokens_added_during_finalize : ℕ  -- u32
  pub padding_ms : ℕ  -- u32
  pub buffered_ms_at_close : Option ℤ  -- i64
  pub tokens_before_finalize : ℕ  -- u32
  pub tokens_after_finalize : ℕ  -- u32

-- What a drain comes to: its result (`none` for an error, such as a timeout), the time that it
-- took, and what the model worker has made of the shared progress by then, where there is one.
pub record DrainReply : Type 0 where
  pub result : Option ModelDrainResult
  pub elapsed_ns : ℕ
  pub progress : ModelProgressMap

-- A handle is known by what `drain_session` answers at a time, over the progress at that time.
pub record ModelDrainHandle : Type 0 where
  pub drain_session : ModelDrainRequest → ℕ → Option ModelProgressMap → DrainReply

pub record VadSegmentStart : Type 0 where
  pub detector : String
  pub ids : Ids
  pub start_sample : ℕ
  pub decision_sample : ℕ
  pub confidence : Option ℕ

pub record VadSegmentEnd : Type 0 where
  pub detector : String
  pub ids : Ids
  pub start_sample : ℕ
  pub end_sample : ℕ
  pub decision_sample : ℕ
  pub confidence : Option ℕ

pub record VadSpeechPresence : Type 0 where
  pub detector : String
  pub ids : Ids
  pub start_sample : ℕ
  pub decision_sample : ℕ
  pub confidence : Option ℕ

pub record TranscriptTokenCommitted : Type 0 where
  pub detector : String
  pub ids : Ids
  pub token_index : ℕ
  pub text : String
  pub start_sample : ℕ
  pub end_sample : ℕ
  pub decision_sample : ℕ
  pub confidence : Option ℕ
  pub drain_handle : ModelDrainHandle

pub record VadLowSilence : Type 0 where
  pub detector : String
  pub ids : Ids
  pub start_sample : ℕ
  pub decision_sample : ℕ
  pub silence_samples : ℕ
  pub confidence : Option ℕ

pub record ModelEou : Type 0 where
  pub detector : String
  pub ids : Ids
  pub end_sample : ℕ
  pub decision_sample : ℕ
  pub text_delta : String
  pub confidence : Option ℕ

pub record SemanticTurnDecision : Type 0 where
  pub detector : String
  pub ids : Ids
  pub end_sample : ℕ
  pub decision_sample : ℕ
  pub complete : Bool
  pub probability : Option ℕ
  pub threshold : Option ℕ
  pub timed_out : Bool
  pub available : Bool
  pub reason : String
  pub duration_ms : Option ℕ

pub record VadAcousticFallback : Type 0 where
  pub detector : String
  pub ids : Ids
  pub start_sample : ℕ
  pub end_sample : ℕ
  pub decision_sample : ℕ
  pub silence_samples : ℕ
  pub confidence : Option ℕ

pub data DetectorSignal : Type 0 where
  vad_segment_start : VadSegmentStart → DetectorSignal
  vad_segment_end : VadSegmentEnd → DetectorSignal
  vad_speech_presence : VadSpeechPresence → DetectorSignal
  transcript_token_committed : TranscriptTokenCommitted → DetectorSignal
  vad_low_silence : VadLowSilence → DetectorSignal
  model_eou : ModelEou → DetectorSignal
  semantic_turn_decision : SemanticTurnDecision → DetectorSignal
  vad_acoustic_fallback : VadAcousticFallback → DetectorSignal

pub data EouResetMode : Type 0 where
  stream decoder : EouResetMode

pub record ResetEouState : Type 0 where
  pub ids : Ids
  pub mode : EouResetMode
  pub anchor_sample : ℕ
  pub source : String
  pub reason : String
  pub decision_sample : ℕ

pub data DetectorAction : Type 0 where
  reset_eou_state : ResetEouState → DetectorAction

-- ===== src/Turn/Events.antt =====
-- The events that the turn manager writes (crates/speech-core-daemon/src/detectors/turn.rs). Each
-- has the constructor for its name; the `daemon_mono_ns` stamp of the moment is left out.
use speech_core.Base.{ℕ, Bool, true, false, String, Option}
use speech_core.Base.Int.{ℤ}
use speech_core.Turn.Signals.{Ids}

pub record TurnSessionStartEvent : Type 0 where
  pub ids : Ids
  pub model_eou_close_enabled : Bool
  pub vad_close_enabled : Bool
  pub min_vad_speech_ms : ℕ
  pub min_model_eou_speech_ms : ℕ
  pub model_eou_refractory_ms : ℕ
  pub semantic_gate_enabled : Bool
  pub semantic_gate_close_enabled : Bool
  pub human_hold_silence_ms : ℕ
  pub transcript_silence_close_ms : ℕ

pub record TurnAudioGapResetEvent : Type 0 where
  pub ids : Ids
  pub expected_sample_start : ℕ
  pub observed_sample_start : ℕ
  pub delta_samples : ℤ
  pub reason : String

pub record TurnSignalObservedEvent : Type 0 where
  pub ids : Ids
  pub detector : String
  pub signal : String
  pub sample : ℕ
  pub decision_sample : ℕ
  pub confidence : Option ℕ

pub record TurnStartedEvent : Type 0 where
  pub ids : Ids
  pub turn_id : String
  pub source : String
  pub start_sample : ℕ

pub record TurnEouCandidateEvent : Type 0 where
  pub ids : Ids
  pub turn_id : String
  pub source : String
  pub degraded : Bool
  pub detector : String
  pub confidence : Option ℕ
  pub start_sample : Option ℕ
  pub end_sample : ℕ
  pub decision_sample : ℕ
  pub text_delta : Option String
  pub vad_end_to_model_eou_ms : Option ℕ
  pub vad_decision_to_model_eou_ms : Option ℕ

pub record TurnEouSuppressedEvent : Type 0 where
  pub ids : Ids
  pub source : String
  pub detector : String
  pub reason : String
  pub end_sample : ℕ
  pub decision_sample : ℕ
  pub observed_speech_samples : ℕ
  pub min_required_samples : ℕ

pub record TurnSemanticDecisionEvent : Type 0 where
  pub ids : Ids
  pub detector : String
  pub end_sample : ℕ
  pub decision_sample : ℕ
  pub complete : Bool
  pub available : Bool
  pub timed_out : Bool
  pub probability : Option ℕ
  pub threshold : Option ℕ
  pub reason : String
  pub duration_ms : Option ℕ

-- What a close finds when it has waited for the model.
pub record CloseModelAlignment : Type 0 where
  pub effective_end_sample : ℕ
  pub effective_decision_sample : ℕ
  pub audio_target_sample : ℕ
  pub audio_committed_sample : Option ℕ
  pub last_token_end_sample : Option ℕ
  pub buffered_ms : Option ℤ
  pub buffer_drained : Bool
  pub buffer_wait_elapsed_ms : ℕ
  pub audio_caught_up : Bool
  pub token_quiescent : Bool
  pub token_quiescence_elapsed_ms : ℕ
  pub drain_attempted : Bool
  pub drain_succeeded : Bool
  pub drain_session_found : Option Bool
  pub drain_chunk_processed : Option Bool
  pub drain_until_sample : Option ℕ
  pub finalize_attempted : Bool
  pub finalize_ok : Bool
  pub finalize_timeout : Bool
  pub close_to_input_finished_ms : ℕ
  pub finalize_decode_ms : ℕ
  pub finalize_chunks : ℕ
  pub tokens_added_during_finalize : ℕ
  pub padding_ms : ℕ
  pub buffered_ms_at_close : Option ℤ
  pub elapsed_ms : ℕ
  pub budget_ms : ℕ

-- The event copies every field of the alignment.
pub record TurnCloseAlignmentEvent : Type 0 where
  pub ids : Ids
  pub alignment : CloseModelAlignment

pub record TurnHumanHoldEvent : Type 0 where
  pub ids : Ids
  pub turn_id : String
  pub detector : String
  pub reason : String
  pub start_sample : ℕ
  pub end_sample : ℕ
  pub decision_sample : ℕ
  pub last_token_end_sample : ℕ
  pub samples_without_tokens : ℕ
  pub ms_without_tokens : ℕ
  pub probability : Option ℕ
  pub threshold : Option ℕ

pub record TurnHoldProgressEvent : Type 0 where
  pub ids : Ids
  pub turn_id : String
  pub hold_progress_ms : ℕ
  pub hold_target_ms : ℕ

pub record TurnEouEvent : Type 0 where
  pub ids : Ids
  pub turn_id : String
  pub source : String
  pub degraded : Bool
  pub detector : String
  pub confidence : Option ℕ
  pub end_sample : ℕ
  pub decision_sample : ℕ
  pub sample_time_ms : ℕ
  pub reason : String

pub record TranscriptCommittedEvent : Type 0 where
  pub ids : Ids
  pub turn_id : String
  pub text : String
  pub revision : ℤ
  pub committed_token_count : ℕ
  pub end_sample : ℕ
  pub decision_sample : ℕ
  pub is_degraded : Bool
  pub close_source : String

pub record TurnClosedEvent : Type 0 where
  pub ids : Ids
  pub turn_id : String
  pub source : String
  pub degraded : Bool
  pub detector : String
  pub end_sample : ℕ
  pub decision_sample : ℕ
  pub reason : String

pub record TurnSessionEndEvent : Type 0 where
  pub ids : Ids
  pub reason : String
  pub turns_started : ℕ
  pub turns_closed : ℕ

pub data Event : Type 0 where
  turn_session_start : TurnSessionStartEvent → Event
  turn_audio_gap_reset : TurnAudioGapResetEvent → Event
  turn_signal_observed : TurnSignalObservedEvent → Event
  turn_started : TurnStartedEvent → Event
  turn_eou_candidate : TurnEouCandidateEvent → Event
  turn_eou_suppressed : TurnEouSuppressedEvent → Event
  turn_semantic_decision : TurnSemanticDecisionEvent → Event
  turn_close_alignment : TurnCloseAlignmentEvent → Event
  turn_human_hold : TurnHumanHoldEvent → Event
  turn_hold : TurnHoldProgressEvent → Event
  turn_eou : TurnEouEvent → Event
  transcript_committed : TranscriptCommittedEvent → Event
  turn_closed : TurnClosedEvent → Event
  turn_session_end : TurnSessionEndEvent → Event

-- `turn_hold` is filtered out of the log file and only broadcast (is_jsonl_filtered_event of
-- crates/speech-core-daemon/src/jsonl_logger.rs).
unfoldable pub is_durable : Event → Bool
is_durable (turn_hold e) = false
is_durable _ = true

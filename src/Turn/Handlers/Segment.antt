-- ===== src/Turn/Handlers/Segment.antt =====
-- The arms VadSegmentStart and VadSegmentEnd of TurnManager::handle_signal
-- (crates/speech-core-daemon/src/detectors/turn.rs).
use speech_core.Base.{
  ℕ, ◌-◌, Bool, true, false, ◌&&◌, not, String, Option, none, some, List, [], ◌∷◌, ltb, ◌==◌,
  if◌then◌else◌, is_some_and,
}
use speech_core.Turn.Config.{TurnManagerConfig, ms_to_samples, samples_to_ms}
use speech_core.Turn.Signals.{
  VadSegmentStart, VadSegmentEnd, ModelDrainHandle, DetectorAction, reset_eou_state, stream,
}
use speech_core.Turn.Events.{
  turn_signal_observed, turn_eou_candidate, turn_eou_suppressed, turn_human_hold,
}
use speech_core.Turn.Local.{Env, M, ◌>>=◌, ◌>>◌, return, get, modify, write, SemanticDecisionState}
use speech_core.Turn.Close.{CloseChoice, turn_start_or, aligned_close}
use speech_core.Turn.Handlers.Shared.{
  turn_id_or_next, is_stale, hold_anchor, hold_fires, ensure_turn,
}

module _ ⦃env : Env⦄ where
  unfoldable pub on_vad_segment_start : VadSegmentStart → M (List DetectorAction)
  on_vad_segment_start s = do
    started ← ensure_turn s.ids.stream_session_id s.start_sample "vad"
    modify λ t. record t {
      in_speech = true;
      saw_vad_signal = true;
      last_vad_start_sample = some s.start_sample;
    }
    write (
        turn_signal_observed (record {
          ids = s.ids;
          detector = s.detector;
          signal = "vad_speech_start";
          sample = s.start_sample;
          decision_sample = s.decision_sample;
          confidence = s.confidence;
        }))
    return (
        if started
        then reset_eou_state (record {
          ids = s.ids;
          mode = stream;
          anchor_sample = s.start_sample;
          source = "vad";
          reason = "vad_speech_start";
          decision_sample = s.decision_sample;
        })
          ∷ []
        else [])

  -- Put the hold on record, and choose to close by it.
  unfoldable pub segment_hold :
      VadSegmentEnd → String → SemanticDecisionState → ℕ → M (Option CloseChoice)
  segment_hold s turn_id d anchor = do
    modify λ t. record t { last_human_hold_token_anchor = some anchor }
    write (
        turn_human_hold (record {
          ids = s.ids;
          turn_id = turn_id;
          detector = d.detector;
          reason = "speech_like_audio_without_tokens";
          start_sample = s.start_sample;
          end_sample = s.end_sample;
          decision_sample = s.decision_sample;
          last_token_end_sample = anchor;
          samples_without_tokens = s.decision_sample - anchor;
          ms_without_tokens = samples_to_ms (s.decision_sample - anchor);
          probability = d.probability;
          threshold = none;
        }))
    return (
        some (record {
          source = "human_hold";
          degraded = true;
          detector = d.detector;
          confidence = d.probability;
          reason = "human_hold_speech_like_audio_without_tokens";
        }))

  -- A semantic decision that the turn is not complete keeps it open, but for a held turn.
  unfoldable pub semantic_incomplete :
      TurnManagerConfig → VadSegmentEnd → String → SemanticDecisionState → M (Option CloseChoice)
  semantic_incomplete config s turn_id d = do
    let threshold = ms_to_samples config.human_hold_silence_ms
    write (
        turn_eou_suppressed (record {
          ids = s.ids;
          source = "semantic";
          detector = d.detector;
          reason = "semantic_incomplete";
          end_sample = s.end_sample;
          decision_sample = s.decision_sample;
          observed_speech_samples = s.end_sample - s.start_sample;
          min_required_samples = ms_to_samples config.min_vad_speech_ms;
        }))
    l ← get
    let turn_start = turn_start_or l.session.open_turn s.start_sample
    let anchor = hold_anchor s.ids.stream_session_id turn_start l
    let fired = l.session.last_human_hold_token_anchor
    if ltb 0 threshold && hold_fires s.decision_sample anchor threshold fired
        then segment_hold s turn_id d anchor
        else return none

  abbrev pub vad_choice : VadSegmentEnd → String → CloseChoice
  vad_choice s reason = record {
    source = "vad";
    degraded = true;
    detector = s.detector;
    confidence = s.confidence;
    reason = reason;
  }

  -- The decision speaks of this very boundary.
  abbrev pub decides : VadSegmentEnd → SemanticDecisionState → Bool
  decides s d =
      d.end_sample == s.end_sample && d.decision_sample == s.decision_sample && d.available

  -- The semantic gate over a VAD end: `none` keeps the turn open.
  unfoldable pub semantic_gate :
      TurnManagerConfig
      → VadSegmentEnd
      → String
      → Option SemanticDecisionState
      → M (Option CloseChoice)
  semantic_gate config s turn_id none =
      return (some (vad_choice s "smart_turn_unavailable_vad_fallback"))
  semantic_gate config s turn_id (some d) =
      if decides s d && d.complete
      then return (
          some (record {
            source = "smart_turn";
            degraded = false;
            detector = d.detector;
            confidence = d.probability;
            reason = "smart_turn_complete_after_vad_speech_end";
          }))
      else if decides s d && not d.timed_out
      then semantic_incomplete config s turn_id d
      else if decides s d && d.timed_out
      then return (some (vad_choice s "smart_turn_timeout_vad_fallback"))
      else return (some (vad_choice s "smart_turn_unavailable_vad_fallback"))

  -- A segment too short to count: its turn, if it opened one, goes without a close.
  unfoldable pub vad_too_short : TurnManagerConfig → VadSegmentEnd → M (List DetectorAction)
  vad_too_short config s = do
    write (
        turn_eou_suppressed (record {
          ids = s.ids;
          source = "vad";
          detector = s.detector;
          reason = "vad_too_short";
          end_sample = s.end_sample;
          decision_sample = s.decision_sample;
          observed_speech_samples = s.end_sample - s.start_sample;
          min_required_samples = ms_to_samples config.min_vad_speech_ms;
        }))
    modify λ t. record t {
      open_turn =
          if is_some_and t.open_turn (λ o. o.start_sample == s.start_sample)
          then none
          else t.open_turn;
    }
    return []

  abbrev pub close_by_choice :
      TurnManagerConfig
      → Option ModelDrainHandle
      → VadSegmentEnd
      → String
      → Option CloseChoice
      → M (List DetectorAction)
  close_by_choice config drain s turn_id none = return []
  close_by_choice config drain s turn_id (some c) =
      if config.vad_close_enabled
      then aligned_close config drain s.ids turn_id c s.end_sample s.decision_sample s.start_sample
      else return []

  unfoldable pub vad_end_close :
      TurnManagerConfig → Option ModelDrainHandle → VadSegmentEnd → String → M (List DetectorAction)
  vad_end_close config drain s turn_id = do
    l ← get
    choice ←
        (if config.semantic_gate_enabled && config.semantic_gate_close_enabled
          then semantic_gate config s turn_id l.session.last_semantic_decision
          else return (some (vad_choice s "vad_speech_end")))
    close_by_choice config drain s turn_id choice

  -- The arm behind its guard.
  unfoldable pub live_segment_end :
      TurnManagerConfig → Option ModelDrainHandle → VadSegmentEnd → M (List DetectorAction)
  live_segment_end config drain s = do
    _started ← ensure_turn s.ids.stream_session_id s.start_sample "vad"
    modify λ t. record t {
      in_speech = false;
      saw_vad_signal = true;
      last_vad_end_sample = some s.end_sample;
      last_vad_end_decision_sample = some s.decision_sample;
    }
    l ← get
    let turn_id = turn_id_or_next l.session
    write (
        turn_eou_candidate (record {
          ids = s.ids;
          turn_id = turn_id;
          source = "vad";
          degraded = true;
          detector = s.detector;
          confidence = s.confidence;
          start_sample = some s.start_sample;
          end_sample = s.end_sample;
          decision_sample = s.decision_sample;
          text_delta = none;
          vad_end_to_model_eou_ms = none;
          vad_decision_to_model_eou_ms = none;
        }))
    if ltb (s.end_sample - s.start_sample) (ms_to_samples config.min_vad_speech_ms)
        then vad_too_short config s
        else vad_end_close config drain s turn_id

  unfoldable pub on_vad_segment_end :
      TurnManagerConfig → Option ModelDrainHandle → VadSegmentEnd → M (List DetectorAction)
  on_vad_segment_end config drain s = do
    l ← get
    if is_stale s.decision_sample l.session then return [] else live_segment_end config drain s

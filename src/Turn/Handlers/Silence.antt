-- ===== src/Turn/Handlers/Silence.antt =====
-- The arms VadLowSilence and VadAcousticFallback of TurnManager::handle_signal
-- (crates/speech-core-daemon/src/detectors/turn.rs).
use speech_core.Base.{
  ℕ, ◌-◌, max, Bool, true, ◌&&◌, ◌||◌, not, String, Option, none, some, List, [], ◌∷◌, ltb, leb,
  ◌==◌, if◌then◌else◌, is_none, unwrap_or,
}
use speech_core.Progress.State.{ModelProgressMap}
use speech_core.Turn.Config.{TurnManagerConfig, ms_to_samples, samples_to_ms}
use speech_core.Turn.Signals.{VadAcousticFallback, VadLowSilence, DetectorAction}
use speech_core.Turn.Events.{turn_eou_candidate, turn_eou_suppressed}
use speech_core.Turn.Local.{Env, Local, M, ok, ◌>>=◌, ◌>>◌, return, get, write, OpenTurn}
use speech_core.Turn.Align.Waits.{wait_for_model_progress, token_end}
use speech_core.Turn.Close.{close_turn, turn_start_or, decoder_reset}
use speech_core.Turn.Handlers.Shared.{turn_id_or_next, is_stale}

module _ ⦃env : Env⦄ where
  abbrev pub wait_choice : TurnManagerConfig → String → ℕ → Option ModelProgressMap → M (Unit {0})
  wait_choice config id target none l = (ok tt, l)
  wait_choice config id target (some _) l =
      (ok tt, wait_for_model_progress id target config.model_alignment_timeout_ms l)

  -- Wait for the audio up to the end, as far as the time allows; the outcome is not looked at.
  unfoldable pub wait_model : TurnManagerConfig → String → ℕ → M (Unit {0})
  wait_model config id target l = wait_choice config id target l.progress l

  -- The silence after the last token, or after the turn's start where there is none.
  unfoldable pub quiet_anchor : String → OpenTurn → Local → ℕ
  quiet_anchor id turn l = unwrap_or (token_end id l) turn.start_sample

  unfoldable pub quiet_close :
      TurnManagerConfig → VadLowSilence → OpenTurn → ℕ → M (List DetectorAction)
  quiet_close config s turn anchor = do
    let end_sample = max anchor turn.start_sample
    write (
        turn_eou_candidate (record {
          ids = s.ids;
          turn_id = turn.turn_id;
          source = "transcript_silence";
          degraded = true;
          detector = s.detector;
          confidence = s.confidence;
          start_sample = some (max turn.start_sample s.start_sample);
          end_sample = end_sample;
          decision_sample = s.decision_sample;
          text_delta = none;
          vad_end_to_model_eou_ms = none;
          vad_decision_to_model_eou_ms = none;
        }))
    wait_model config s.ids.stream_session_id end_sample
    close_turn (record {
      turn_id = turn.turn_id;
      source = "transcript_silence";
      degraded = true;
      detector = s.detector;
      confidence = s.confidence;
      end_sample = end_sample;
      decision_sample = s.decision_sample;
      reason = "transcript_backed_turn_low_vad_silence";
      turn_start_sample = turn.start_sample;
    })
    return (
        decoder_reset s.ids s.decision_sample "transcript_silence"
          "transcript_backed_turn_low_vad_silence"
        ∷ [])

  -- Both silences, of the VAD and of the transcript, are long enough.
  unfoldable pub is_quiet : TurnManagerConfig → VadLowSilence → ℕ → Bool
  is_quiet config s anchor =
      let needed = ms_to_samples config.transcript_silence_close_ms in
      leb needed s.silence_samples && leb needed (s.decision_sample - anchor)

  abbrev pub quiet_choice :
      TurnManagerConfig → VadLowSilence → Option OpenTurn → M (List DetectorAction)
  quiet_choice config s none l = return [] l
  quiet_choice config s (some turn) l =
      let anchor = quiet_anchor s.ids.stream_session_id turn l in
      (if ms_to_samples config.transcript_silence_close_ms == 0
            || l.session.saw_vad_signal
            || not (is_quiet config s anchor)
          then return []
          else quiet_close config s turn anchor)
        l

  unfoldable pub on_vad_low_silence : TurnManagerConfig → VadLowSilence → M (List DetectorAction)
  on_vad_low_silence config s l = quiet_choice config s l.session.open_turn l

  unfoldable pub fallback_close :
      TurnManagerConfig → VadAcousticFallback → String → M (List DetectorAction)
  fallback_close config s turn_id = do
    wait_model config s.ids.stream_session_id s.end_sample
    l ← get
    close_turn (record {
      turn_id = turn_id;
      source = "vad_acoustic_fallback";
      degraded = true;
      detector = s.detector;
      confidence = s.confidence;
      end_sample = s.end_sample;
      decision_sample = s.decision_sample;
      reason = "vad_acoustic_fallback_low_probability_silence";
      turn_start_sample = turn_start_or l.session.open_turn s.start_sample;
    })
    return (
        decoder_reset s.ids s.decision_sample "vad_acoustic_fallback"
          "vad_acoustic_fallback_low_probability_silence"
        ∷ [])

  unfoldable pub fallback_too_short :
      TurnManagerConfig → VadAcousticFallback → M (List DetectorAction)
  fallback_too_short config s = do
    write (
        turn_eou_suppressed (record {
          ids = s.ids;
          source = "vad";
          detector = s.detector;
          reason = "acoustic_fallback_vad_too_short";
          end_sample = s.end_sample;
          decision_sample = s.decision_sample;
          observed_speech_samples = s.end_sample - s.start_sample;
          min_required_samples = ms_to_samples config.min_vad_speech_ms;
        }))
    return []

  unfoldable pub fallback_candidate :
      TurnManagerConfig → VadAcousticFallback → String → M (List DetectorAction)
  fallback_candidate config s turn_id = do
    write (
        turn_eou_candidate (record {
          ids = s.ids;
          turn_id = turn_id;
          source = "vad_acoustic_fallback";
          degraded = true;
          detector = s.detector;
          confidence = s.confidence;
          start_sample = some s.start_sample;
          end_sample = s.end_sample;
          decision_sample = s.decision_sample;
          text_delta = none;
          vad_end_to_model_eou_ms = some (samples_to_ms s.silence_samples);
          vad_decision_to_model_eou_ms = none;
        }))
    if config.vad_close_enabled then fallback_close config s turn_id else return []

  unfoldable pub on_vad_acoustic_fallback :
      TurnManagerConfig → VadAcousticFallback → M (List DetectorAction)
  on_vad_acoustic_fallback config s = do
    l ← get
    if is_stale s.decision_sample l.session || is_none l.session.open_turn
        then return []
        else if ltb (s.end_sample - s.start_sample) (ms_to_samples config.min_vad_speech_ms)
        then fallback_too_short config s
        else fallback_candidate config s (turn_id_or_next l.session)

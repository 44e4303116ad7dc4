-- ===== src/Turn/Handlers/Hold.antt =====
-- The arm VadSpeechPresence of TurnManager::handle_signal
-- (crates/speech-core-daemon/src/detectors/turn.rs).
use speech_core.Base.{
  ℕ, ◌-◌, true, ◌||◌, String, Option, none, some, List, [], ◌==◌, if◌then◌else◌, is_none,
}
use speech_core.Turn.Config.{TurnManagerConfig, ms_to_samples, samples_to_ms}
use speech_core.Turn.Signals.{VadSpeechPresence, ModelDrainHandle, DetectorAction}
use speech_core.Turn.Events.{turn_human_hold, turn_hold}
use speech_core.Turn.Local.{Env, M, ◌>>=◌, ◌>>◌, return, get, modify, write}
use speech_core.Turn.Close.{turn_start_or, aligned_close}
use speech_core.Turn.Handlers.Shared.{turn_id_or_next, hold_anchor, hold_fires}

module _ ⦃env : Env⦄ where
  -- Too long without a token: the turn is closed.
  unfoldable pub presence_hold :
      TurnManagerConfig
      → Option ModelDrainHandle
      → VadSpeechPresence
      → String
      → ℕ
      → M (List DetectorAction)
  presence_hold config drain s turn_id anchor = do
    modify λ t. record t { last_human_hold_token_anchor = some anchor }
    write (
        turn_human_hold (record {
          ids = s.ids;
          turn_id = turn_id;
          detector = s.detector;
          reason = "speech_like_audio_without_tokens";
          start_sample = s.start_sample;
          end_sample = s.decision_sample;
          decision_sample = s.decision_sample;
          last_token_end_sample = anchor;
          samples_without_tokens = s.decision_sample - anchor;
          ms_without_tokens = samples_to_ms (s.decision_sample - anchor);
          probability = s.confidence;
          threshold = none;
        }))
    aligned_close config drain s.ids turn_id
        (record {
          source = "human_hold";
          degraded = true;
          detector = s.detector;
          confidence = s.confidence;
          reason = "human_hold_speech_like_audio_without_tokens";
        })
        s.decision_sample s.decision_sample s.start_sample

  -- How far the silence has come, in every frame.
  unfoldable pub hold_progress :
      TurnManagerConfig → VadSpeechPresence → String → ℕ → M (List DetectorAction)
  hold_progress config s turn_id anchor = do
    write (
        turn_hold (record {
          ids = s.ids;
          turn_id = turn_id;
          hold_progress_ms = samples_to_ms (s.decision_sample - anchor);
          hold_target_ms = config.human_hold_silence_ms;
        }))
    return []

  unfoldable pub live_presence :
      TurnManagerConfig → Option ModelDrainHandle → VadSpeechPresence → M (List DetectorAction)
  live_presence config drain s = do
    l ← get
    let turn_start = turn_start_or l.session.open_turn s.start_sample
    let anchor = hold_anchor s.ids.stream_session_id turn_start l
    let turn_id = turn_id_or_next l.session
    let threshold = ms_to_samples config.human_hold_silence_ms
    if hold_fires s.decision_sample anchor threshold l.session.last_human_hold_token_anchor
        then presence_hold config drain s turn_id anchor
        else hold_progress config s turn_id anchor

  unfoldable pub on_vad_speech_presence :
      TurnManagerConfig → Option ModelDrainHandle → VadSpeechPresence → M (List DetectorAction)
  on_vad_speech_presence config drain s = do
    l ← get
    if ms_to_samples config.human_hold_silence_ms == 0 || is_none l.session.open_turn
        then return []
        else live_presence config drain s

-- ===== src/Turn/Manager.antt =====
-- TurnManager of crates/speech-core-daemon/src/detectors/turn.rs: the sessions, the sessions that
-- have ended, and the handles that its configuration carries, with what they point at.
pub mod Sessions
use speech_core.Base.{
  ℕ, max, true, false, not, String, str_eq, Option, none, some, List, [], ◌∷◌, map, leb,
  if◌then◌else◌, unwrap_or, filter_some, or_else, retain, contains,
}
use speech_core.Base.Int.{ℤ}
use speech_core.Base.Maps.{lookup, insert, remove}
use speech_core.Protocol.Types.{
  other, pcm_f32le, uncalibrated_provenance, ClockDomain, TimestampQuality,
}
use speech_core.Progress.State.{ModelProgressMap}
use speech_core.Turn.Config.{TurnManagerConfig}
use speech_core.Turn.Signals.{
  Ids, TranscriptTokenCommitted, ModelDrainHandle, DetectorSignal, vad_segment_start,
  vad_segment_end, vad_speech_presence, transcript_token_committed, vad_low_silence, model_eou,
  semantic_turn_decision, vad_acoustic_fallback, DetectorAction,
}
use speech_core.Turn.Events.{Event, turn_session_start, turn_audio_gap_reset, turn_session_end}
use speech_core.Turn.Local.{
  Env, Local, M, Outcome, ok, err, ◌>>=◌, ◌>>◌, return, get, modify, written, write, HelloState,
  OpenTurn, TurnSession, new_session, hello_ids,
}
use speech_core.Turn.Align.Waits.{token_end}
use speech_core.Turn.Close.{close_specific_turn}
use speech_core.Turn.Handlers.Segment.{on_vad_segment_start, on_vad_segment_end}
use speech_core.Turn.Handlers.Hold.{on_vad_speech_presence}
use speech_core.Turn.Handlers.Silence.{on_vad_low_silence, on_vad_acoustic_fallback}
use speech_core.Turn.Handlers.Token.{on_transcript_token}
use speech_core.Turn.Handlers.Model.{on_model_eou, on_semantic_turn_decision}

pub record TurnManager : Type 0 where
  pub config : TurnManagerConfig
  pub model_progress : Option ModelProgressMap
  pub model_drain : Option ModelDrainHandle
  pub sessions : List (String × TurnSession)
  pub closed_sessions : List String
  pub sent : List Event
  pub now_ns : ℕ

-- The session that a signal makes where none was announced.
unfoldable pub unannounced : Ids → HelloState
unannounced ids = record {
  adapter_id = ids.adapter_id;
  stream_id = ids.stream_id;
  stream_session_id = ids.stream_session_id;
  source_kind = other;
  sample_rate_hz = 16000;
  channels = 1;
  format = pcm_f32le;
  timestamp_provenance =
      uncalibrated_provenance "unknown" ClockDomain.unknown TimestampQuality.unknown;
  generation = 0;
}

-- What a handler sees of the manager, and the manager after it.
unfoldable pub enter : TurnSession → TurnManager → Local
enter session w = record {
  session = session;
  progress = w.model_progress;
  sent = w.sent;
  now_ns = w.now_ns;
}

unfoldable pub leave : Local → TurnManager → TurnManager
leave l w = record w { model_progress = l.progress; sent = l.sent; now_ns = l.now_ns }

unfoldable pub session_or_new : Ids → TurnManager → TurnSession
session_or_new ids w =
    unwrap_or (lookup ids.stream_session_id w.sessions) (new_session (unannounced ids))

-- `session_mut`, and the work on the session that it lends: what has changed stays, also where
-- the work fails.
unfoldable pub with_session : {A : Type 0} → Ids → M A → TurnManager → Outcome A × TurnManager
with_session ids m w =
    let (outcome, l) = m (enter (session_or_new ids w) w) in
    (outcome, record (leave l w) { sessions = insert ids.stream_session_id l.session w.sessions })

abbrev with_drain : ModelDrainHandle → TurnManager → TurnManager
with_drain handle w = record w { model_drain = or_else w.model_drain (some handle) }

module _ ⦃env : Env⦄ where
  unfoldable pub handle_token :
      TranscriptTokenCommitted → TurnManager → Outcome (List DetectorAction) × TurnManager
  handle_token s w =
      let w' = with_drain s.drain_handle w in
      if contains s.ids.stream_session_id w.closed_sessions
      then (ok [], w')
      else with_session s.ids (on_transcript_token s) w'

  unfoldable pub handle_signal :
      DetectorSignal → TurnManager → Outcome (List DetectorAction) × TurnManager
  handle_signal (vad_segment_start s) w = with_session s.ids (on_vad_segment_start s) w
  handle_signal (vad_segment_end s) w =
      with_session s.ids (on_vad_segment_end w.config w.model_drain s) w
  handle_signal (vad_speech_presence s) w =
      with_session s.ids (on_vad_speech_presence w.config w.model_drain s) w
  handle_signal (transcript_token_committed s) w = handle_token s w
  handle_signal (vad_low_silence s) w = with_session s.ids (on_vad_low_silence w.config s) w
  handle_signal (model_eou s) w = with_session s.ids (on_model_eou w.config s) w
  handle_signal (semantic_turn_decision s) w =
      with_session s.ids (on_semantic_turn_decision w.config w.model_drain s) w
  handle_signal (vad_acoustic_fallback s) w =
      with_session s.ids (on_vad_acoustic_fallback w.config s) w

unfoldable pub new_manager :
    TurnManagerConfig → Option ModelProgressMap → Option ModelDrainHandle → TurnManager
new_manager config progress drain = record {
  config = config;
  model_progress = progress;
  model_drain = drain;
  sessions = [];
  closed_sessions = [];
  sent = [];
  now_ns = 0;
}

-- ===== src/Smart/Detector.antt =====
-- SmartTurnDetector of crates/speech-core-daemon/src/detectors/smart_turn.rs: its sessions and its
-- methods, and how they fill what the detector worker asks of it. Stamps of the daemon's clock and
-- durations of parts are left out of its events.
use speech_core.Base.{
  ℕ, ◌-◌, Bool, true, ◌||◌, not, String, str_eq, Option, none, some, List, ◌∷◌, ◌++◌, leb, ◌==◌,
  if◌then◌else◌, length, drop, replicate,
}
use Prim.Native.String
use speech_core.Base.Words.{saturating_add}
use speech_core.Base.Maps.{lookup, insert, remove}
use speech_core.Protocol.Types.{AudioFrame}
use speech_core.Turn.Signals.{Ids, DetectorAction, reset_eou_state}
use speech_core.Turn.Local.{HelloState, hello_ids, Outcome, ok, err}
use speech_core.Turn.Manager.Sessions.{AudioGapReset}
use speech_core.Vad.Detector.{is_supported, format_text}
use speech_core.Worker.Interfaces.{SmartTurnDecision, unavailable, SmartTurn}
use speech_core.Smart.Session.{
  SmartTurnConfig, SmartTurnSession, smart_sample_rate, window_samples, new_smart_session,
  effective_recheck_offsets_ms, recheck_offsets_samples, push_smart_samples, segment_for_prediction,
  clear_through, smart_gap_taken,
}
pub use speech_core.Base.Work.{Work, continue, ◌>>◌, bail, return}

pub record SmartTurnDecided : Type 0 where
  pub ids : Ids
  pub end_sample : ℕ
  pub decision_sample : ℕ
  pub probability : ℕ
  pub threshold : ℕ
  pub complete : Bool
  pub timed_out : Bool
  pub audio_samples : ℕ

pub data SmartEvent : Type 0 where
  smart_turn_error : Ids → String → SmartEvent
  smart_turn_session_start : Ids → SmartTurnConfig → List ℕ → SmartEvent
  smart_turn_session_end : Ids → String → SmartTurnSession → SmartEvent
  smart_turn_candidate : Ids → ℕ → ℕ → ℕ → SmartTurnConfig → SmartEvent
  smart_turn_decided : SmartTurnDecided → SmartEvent

-- `sent` has the newest first.
pub record SmartTurnDetector : Type 0 where
  pub config : SmartTurnConfig
  pub has_model : Bool
  pub sessions : List (String × SmartTurnSession)
  pub sent : List SmartEvent

-- What the detector uses: whether the log's worker has stopped when the newest event comes; the
-- operations on f32; the features of a window; the model, `none` where it fails, with its first
-- output if any; the milliseconds (f64) that a prediction takes, and whether they are over a budget;
-- and the failure of a dump of the audio for debugging.
pub record SmartEnv : Type 0 where
  pub logger_stopped : List SmartEvent → Bool
  pub zero_sample : ℕ
  pub above : ℕ → ℕ → Bool
  pub log_mel : List ℕ → List ℕ
  pub run : List ℕ → Option (Option ℕ)
  pub duration_ms : List SmartEvent → ℕ
  pub over_budget : ℕ → ℕ → Bool
  pub dump_failure : String → ℕ → ℕ → List ℕ → Option String

abbrev pub S : Type 0 → Type 0
S A = Work SmartTurnDetector A

unfoldable pub stored : String → SmartTurnSession → SmartTurnDetector → SmartTurnDetector
stored id s d = record d { sessions = insert id s d.sessions }

-- The session goes back into the map, and nothing was decided.
abbrev pub give_up : String → SmartTurnSession → String → S SmartTurnDecision
give_up id s reason d =
    (ok (unavailable reason), stored id (record s { errors = saturating_add s.errors 1 }) d)

-- `if let Some(session) = self.sessions.get_mut(id)`, where nothing can fail.
unfoldable pub change_smart :
    String → (SmartTurnSession → SmartTurnSession) → SmartTurnDetector → SmartTurnDetector
change_smart id f d = elim (lookup id d.sessions) as (λ _. SmartTurnDetector) [
  | none ↦ d
  | some s ↦ stored id (f s) d
]

unfoldable pub smart_handle_action : DetectorAction → SmartTurnDetector → SmartTurnDetector
smart_handle_action (reset_eou_state r) d =
    if str_eq r.reason "vad_speech_start"
    then d
    else change_smart r.ids.stream_session_id (clear_through r.decision_sample) d

unfoldable pub smart_gap_reset : AudioGapReset → SmartTurnDetector → SmartTurnDetector
smart_gap_reset gap d =
    change_smart gap.ids.stream_session_id (smart_gap_taken gap.observed_sample_start) d

-- The last samples of the audio, with silence before them where they are short of a window.
unfoldable pub model_window : ℕ → List ℕ → List ℕ
model_window zero_sample audio =
    if leb window_samples (length audio)
    then drop (length audio - window_samples) audio
    else replicate (window_samples - length audio) zero_sample ++ audio

module _ ⦃env : SmartEnv⦄ where
  unfoldable pub smart_write : SmartEvent → S (Unit {0})
  smart_write e d =
      (if env.logger_stopped (e ∷ d.sent) then err else ok tt, record d { sent = e ∷ d.sent })

  unfoldable pub smart_start_session : HelloState → S (Unit {0})
  smart_start_session hello d =
      if not (hello.sample_rate_hz == smart_sample_rate) || not (hello.channels == 1)
      then (smart_write
              (smart_turn_error (hello_ids hello) "Smart Turn v3 requires 16 kHz mono PCM")
            >> bail)
          d
      else if not (is_supported hello.format)
      then (smart_write (
              smart_turn_error (hello_ids hello) (
                String.◌++◌ "unsupported PCM format for Smart Turn v3: "
                  (format_text hello.format)))
            >> bail)
          d
      else smart_write
          (smart_turn_session_start (hello_ids hello) d.config
            (effective_recheck_offsets_ms d.config))
          (stored hello.stream_session_id
            (new_smart_session hello d.config.max_audio_secs d.config.pre_speech_ms) d)

  unfoldable pub smart_ingest_frame : AudioFrame → List ℕ → SmartTurnDetector → SmartTurnDetector
  smart_ingest_frame frame samples d =
      change_smart frame.header.stream_session_id (push_smart_samples env.zero_sample frame samples)
        d

  unfoldable pub smart_end_session : String → String → S (Unit {0})
  smart_end_session id reason d =
      elim (lookup id d.sessions) as (λ _. Outcome (Unit {0}) × SmartTurnDetector) [
        | none ↦ (ok tt, d)
        | some s ↦
            smart_write (smart_turn_session_end (hello_ids s.hello) reason s)
              (record d { sessions = remove id d.sessions })
      ]

  -- The model has answered with a probability.
  unfoldable pub decide : String → SmartTurnSession → ℕ → ℕ → List ℕ → ℕ → S SmartTurnDecision
  decide id s end_sample decision_sample audio probability d =
      let duration_ms = env.duration_ms d.sent in
      let complete = env.above probability d.config.threshold in
      let timed_out = env.over_budget duration_ms d.config.timeout_ms in
      let counted = record s {
        predictions = saturating_add s.predictions 1;
        timeouts = if timed_out then saturating_add s.timeouts 1 else s.timeouts;
      } in
      let decision : SmartTurnDecision = record {
        available = true;
        complete = complete;
        probability = some probability;
        threshold = some d.config.threshold;
        timed_out = timed_out;
        reason = if complete then "smart_turn_complete" else "smart_turn_incomplete";
        duration_ms = some duration_ms;
      } in
      (smart_write (
            smart_turn_decided (record {
              ids = hello_ids s.hello;
              end_sample = end_sample;
              decision_sample = decision_sample;
              probability = probability;
              threshold = d.config.threshold;
              complete = complete;
              timed_out = timed_out;
              audio_samples = length audio;
            }))
          >> λ d'. (ok decision, stored id counted d'))
        d

  unfoldable pub run_model : String → SmartTurnSession → ℕ → ℕ → List ℕ → S SmartTurnDecision
  run_model id s end_sample decision_sample audio d =
      if length audio == 0
      then give_up id s "empty_audio_segment" d
      else if not d.has_model
      then give_up id s "smart_turn_model_unavailable" d
      else elim (env.run (env.log_mel (model_window env.zero_sample audio)))
          as (λ _. Outcome SmartTurnDecision × SmartTurnDetector) [
            | none ↦ (err, d)
            | some none ↦ give_up id s "empty_model_output" d
            | some (some probability) ↦ decide id s end_sample decision_sample audio probability d
          ]

  unfoldable pub report_dump : Ids → Option String → S (Unit {0})
  report_dump ids none = return tt
  report_dump ids (some failure) =
      smart_write
        (smart_turn_error ids (String.◌++◌ "failed to dump Smart Turn debug audio: " failure))

  -- The session is taken out of the map for the while.
  unfoldable pub predict_session : String → SmartTurnSession → ℕ → ℕ → S SmartTurnDecision
  predict_session id s end_sample decision_sample d =
      let audio = segment_for_prediction decision_sample s in
      let ids = hello_ids s.hello in
      (report_dump ids (env.dump_failure s.hello.stream_session_id end_sample decision_sample audio)
          >> (smart_write
                (smart_turn_candidate ids end_sample decision_sample (length audio) d.config)
              >> run_model id s end_sample decision_sample audio))
        (record d { sessions = remove id d.sessions })

  unfoldable pub predict_for_vad_end : String → ℕ → ℕ → S SmartTurnDecision
  predict_for_vad_end id end_sample decision_sample d =
      elim (lookup id d.sessions) as (λ _. Outcome SmartTurnDecision × SmartTurnDetector) [
        | none ↦ (ok (unavailable "missing_smart_turn_session"), d)
        | some s ↦ predict_session id s end_sample decision_sample d
      ]

-- It is the semantic detector of the worker.
abbrev pub smart_turn : SmartEnv → SmartTurn SmartTurnDetector
smart_turn env = record {
  start = smart_start_session ⦃env = env⦄;
  ingest = λ frame samples ingress d. (ok tt, smart_ingest_frame ⦃env = env⦄ frame samples d);
  end = smart_end_session ⦃env = env⦄;
  predict = predict_for_vad_end ⦃env = env⦄;
  act = λ action d. (ok tt, smart_handle_action action d);
  skip = λ gap d. (ok tt, smart_gap_reset gap d);
  offsets = λ d. recheck_offsets_samples d.config;
}

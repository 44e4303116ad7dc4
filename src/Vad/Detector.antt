-- ===== src/Vad/Detector.antt =====
-- SileroVadDetector of crates/speech-core-daemon/src/detectors/vad.rs: its sessions, and its
-- methods as an AudioDetector.
use speech_core.Base.{
  ℕ, zero, suc, Bool, true, ◌||◌, not, String, str_eq, none, some, List, [], ◌∷◌, ◌++◌, ltb, ◌==◌,
  if◌then◌else◌, unwrap_or, or_else, length, take,
}
use Prim.Native.String
use speech_core.Base.Words.{as_u32}
use speech_core.Base.Maps.{lookup, insert, remove}
use speech_core.Protocol.Types.{AudioFrame, PcmFormat, pcm_f32le, pcm_s16le}
use speech_core.Turn.Signals.{DetectorSignal, vad_segment_end, DetectorAction, reset_eou_state}
use speech_core.Turn.Local.{HelloState, hello_ids}
use speech_core.Turn.Manager.Sessions.{AudioGapReset}
use speech_core.Vad.Config.{
  SileroVadConfig, sample_rate, frame_samples, frame_ms, speech_end_silence_ms,
}
use speech_core.Vad.Events.{VadEvent, vad_session_start, vad_speech_end, vad_session_end, vad_error}
use speech_core.Vad.Local.{
  VadEnv, VadSession, VadResult, done, failed, requires_16k_mono, unsupported_format, engine_failed,
  V, VadError, ◌>>=◌, ◌>>◌, return, session, modify, vad_written, vad_write, new_vad_session,
}
use speech_core.Vad.Levels.{detector_name}
use speech_core.Vad.Frame.{process_vad_frame}
use speech_core.Vad.Changes.{push_samples, resize, window_taken, action_taken, gap_taken}

pub record VadDetector : Type 0 where
  pub config : SileroVadConfig
  pub sessions : List (String × VadSession)
  pub sent : List VadEvent

-- `if let Some(session) = self.sessions.get_mut(id)`, where nothing can fail.
unfoldable pub change_session : String → (VadSession → VadSession) → VadDetector → VadDetector
change_session id f d = elim (lookup id d.sessions) as (λ _. VadDetector) [
  | none ↦ d
  | some s ↦ record d { sessions = insert id (f s) d.sessions }
]

unfoldable pub handle_action : DetectorAction → VadDetector → VadDetector
handle_action (reset_eou_state r) d =
    if str_eq r.reason "vad_speech_start"
    then d
    else change_session r.ids.stream_session_id (action_taken r.reason) d

unfoldable pub vad_gap_reset : AudioGapReset → VadDetector → VadDetector
vad_gap_reset gap d =
    change_session gap.ids.stream_session_id (gap_taken gap.observed_sample_start) d

-- Both formats that there are.
unfoldable pub is_supported : PcmFormat → Bool
is_supported pcm_f32le = true
is_supported pcm_s16le = true

unfoldable pub format_text : PcmFormat → String
format_text pcm_s16le = "pcm_s16le"
format_text pcm_f32le = "pcm_f32le"

module _ ⦃env : VadEnv⦄ where
  unfoldable pub next_window : ℕ → V (List DetectorSignal)
  next_window ingress_receive_mono_ns = do
    s ← session
    modify window_taken
    process_vad_frame (take frame_samples s.buffer) s.next_vad_frame_sample_start
        ingress_receive_mono_ns

  -- A window at a time, on fuel.
  unfoldable pub drain_windows : ℕ → ℕ → V (List DetectorSignal)
  drain_windows zero ingress_receive_mono_ns = return []
  drain_windows (suc fuel) ingress_receive_mono_ns =
      let rest = drain_windows fuel ingress_receive_mono_ns in
      do
        s ← session
        if ltb (length s.buffer) frame_samples then return [] else (do
          first ← next_window ingress_receive_mono_ns
          others ← rest
          return (first ++ others))

  unfoldable pub ingest_samples : AudioFrame → List ℕ → ℕ → V (List DetectorSignal)
  ingest_samples frame samples ingress_receive_mono_ns = do
    modify (push_samples frame samples)
    s ← session
    drain_windows (length s.buffer) ingress_receive_mono_ns

  -- The work on a session, which stays in the map also where the work fails.
  unfoldable pub on_session :
      String → V (List DetectorSignal) → VadDetector → VadResult (List DetectorSignal) × VadDetector
  on_session id m d =
      elim (lookup id d.sessions) as (λ _. VadResult (List DetectorSignal) × VadDetector) [
        | none ↦ (done [], d)
        | some s ↦
            let (result, l) = m (record { session = s; sent = d.sent }) in
            (result, record d { sessions = insert id l.session d.sessions; sent = l.sent })
      ]

  unfoldable pub ingest_frame :
      AudioFrame → List ℕ → ℕ → VadDetector → VadResult (List DetectorSignal) × VadDetector
  ingest_frame frame samples ingress_receive_mono_ns d =
      on_session frame.header.stream_session_id
        (ingest_samples frame samples ingress_receive_mono_ns) d

  -- The samples that are left make up a last window, with zeros after them.
  unfoldable pub flush_window : ℕ → V (List DetectorSignal)
  flush_window now_ns = do
    s ← session
    if length s.buffer == 0 then return [] else (do
      modify λ s. record s { buffer = [] }
      process_vad_frame (resize frame_samples (env.float.literal "0.0") s.buffer)
          s.next_vad_frame_sample_start now_ns)

  unfoldable pub last_segment : String → V (List DetectorSignal)
  last_segment reason = do
    s ← session
    let end_sample = unwrap_or s.last_voice_sample_end s.next_vad_frame_sample_start
    let start_sample = unwrap_or s.current_segment_start_sample end_sample
    let confidence = or_else s.smoothed_probability s.last_probability
    if s.in_speech
        then (do
          vad_write (
              vad_speech_end (record {
                ids = hello_ids s.hello;
                segment_index = s.segment_index;
                start_sample = start_sample;
                end_sample = end_sample;
                decision_sample = s.next_vad_frame_sample_start;
                reason = reason;
                confidence = confidence;
                raw_probability = unwrap_or s.last_probability (env.float.literal "0.0");
                smoothed_probability = unwrap_or s.smoothed_probability (env.float.literal "0.0");
              }))
          return (
              vad_segment_end (record {
                detector = detector_name;
                ids = hello_ids s.hello;
                start_sample = start_sample;
                end_sample = end_sample;
                decision_sample = s.next_vad_frame_sample_start;
                confidence = confidence;
              })
              ∷ []))
        else return []

  unfoldable pub finish_vad_session : String → ℕ → V (List DetectorSignal)
  finish_vad_session reason now_ns = do
    flushed ← flush_window now_ns
    ended ← last_segment reason
    s ← session
    vad_write (
        vad_session_end (record {
          ids = hello_ids s.hello;
          reason = reason;
          frames_processed = s.frames_processed;
          segments_detected = s.segment_index;
        }))
    return (flushed ++ ended)

  unfoldable pub end_vad_session :
      String → String → ℕ → VadDetector → VadResult (List DetectorSignal) × VadDetector
  end_vad_session id reason now_ns d =
      elim (lookup id d.sessions) as (λ _. VadResult (List DetectorSignal) × VadDetector) [
        | none ↦ (done [], d)
        | some s ↦
            let (result, l) =
              finish_vad_session reason now_ns (record { session = s; sent = d.sent }) in
            (result, record d { sessions = remove id d.sessions; sent = l.sent })
      ]

  abbrev pub log_to : VadEvent → VadDetector → VadResult (Unit {0}) × VadDetector
  log_to e d = (vad_written e d.sent, record d { sent = e ∷ d.sent })

  -- A refusal is written first; where that fails, the failure is the writer's.
  abbrev pub refuse :
      VadError → HelloState → String → VadDetector → VadResult (Unit {0}) × VadDetector
  refuse error hello message d =
      let e = vad_error (record { ids = hello_ids hello; message = message }) in
      (
        elim (vad_written e d.sent) as (λ _. VadResult (Unit {0})) [
          | done _ ↦ failed error
          | failed other ↦ failed other
        ],
        record d { sent = e ∷ d.sent },
      )

  unfoldable pub started_event : HelloState → SileroVadConfig → VadEvent
  started_event hello config = vad_session_start (record {
    ids = hello_ids hello;
    model_path = config.model_path;
    threshold = config.threshold;
    frame_ms = frame_ms;
    frame_samples = frame_samples;
    onset_frames = as_u32 config.onset_frames;
    hangover_frames = as_u32 config.hangover_frames;
    pre_speech_frames = as_u32 config.pre_speech_frames;
    speech_end_silence_ms = speech_end_silence_ms config;
    emit_frames = config.emit_frames;
    smoothing_alpha = config.smoothing_alpha;
    stop_threshold = config.stop_threshold;
    fallback_threshold = env.float.maximum config.fallback_threshold config.stop_threshold;
    configured_fallback_threshold = config.fallback_threshold;
    acoustic_fallback_silence_ms = config.acoustic_fallback_silence_ms;
  })

  unfoldable pub start_vad_session : HelloState → VadDetector → VadResult (Unit {0}) × VadDetector
  start_vad_session hello d =
      if not (hello.sample_rate_hz == sample_rate) || not (hello.channels == 1)
      then refuse requires_16k_mono hello "Silero VAD requires 16 kHz mono PCM" d
      else if not (is_supported hello.format)
      then refuse unsupported_format hello
          (String.◌++◌ "unsupported PCM format for Silero VAD: " (format_text hello.format)) d
      else if not (env.opens d.config.model_path)
      then (failed engine_failed, d)
      else log_to (started_event hello d.config) (record d {
        sessions = insert hello.stream_session_id (new_vad_session hello d.config) d.sessions;
      })

-- ===== src/Vad/Frame.antt =====
-- VadSession::process_vad_frame (crates/speech-core-daemon/src/detectors/vad.rs): a window's
-- speech step, its low silence and its acoustic fallback, then its events.
use speech_core.Base.{
  ℕ, ◌-◌, max, Bool, true, false, ◌&&◌, ◌||◌, not, Option, none, some, List, [], ◌∷◌, ◌++◌, ltb,
  leb, if◌then◌else◌, unwrap_or, or_else, is_some,
}
use speech_core.Base.Words.{as_u32}
use speech_core.Turn.Config.{ms_to_samples, samples_to_ms}
use speech_core.Turn.Signals.{DetectorSignal, vad_low_silence, vad_acoustic_fallback}
use speech_core.Turn.Local.{hello_ids}
use speech_core.Vad.Config.{Float, frame_samples}
use speech_core.Vad.Events.{
  VadEvent, VadWindow, vad_acoustic_fallback_event, vad_state, vad_meter, vad_frame,
}
use speech_core.Vad.Local.{
  VadEnv, VadSession, VadResult, done, failed, inference_failed, V, ◌>>=◌, ◌>>◌, return, session,
  modify, vad_write, onset_can_arm,
}
use speech_core.Vad.Levels.{
  detector_name, Levels, level_rms, is_gated, levels, note_levels, is_low, is_voiced, is_loud,
  release_if_low, voice_heard, silence_heard, segment_ended, onset_heard, segment_started,
  presence_signal, end_signal, end_event, start_signal, start_event,
}

-- The effective threshold of the fallback.
abbrev pub fallback_level : Float → VadSession → ℕ
fallback_level float s = float.maximum s.config.fallback_threshold s.config.stop_threshold

abbrev pub opt_bool_eq : Option Bool → Bool → Bool
opt_bool_eq none b = false
opt_bool_eq (some true) b = b
opt_bool_eq (some false) b = not b

module _ ⦃env : VadEnv⦄ where
  abbrev pub answer_of : Option ℕ → VadResult ℕ
  answer_of none = failed inference_failed
  answer_of (some p) = done p

  -- The network's probability, or 0 where the energy gate keeps the window from it.
  unfoldable pub infer : Option ℕ → List ℕ → V ℕ
  infer rms frame l =
      if is_gated env.float l.session.config rms then (done (env.float.literal "0.0"), l) else (
        answer_of (env.compute l.session.engine frame),
        record l { session = record (l.session) { engine = frame ∷ l.session.engine } },
      )

  unfoldable pub end_segment : Levels → V (List DetectorSignal)
  end_segment v = do
    modify λ s. record s { in_speech = false }
    s ← session
    vad_write (end_event v s)
    modify (segment_ended v)
    return (end_signal v s ∷ [])

  unfoldable pub hear_silence : Levels → V (List DetectorSignal)
  hear_silence v = do
    modify (silence_heard v)
    s ← session
    if leb (max s.config.hangover_frames 1) s.silence_counter then end_segment v else return []

  unfoldable pub hear_voice : Levels → V (List DetectorSignal)
  hear_voice v = do modify (voice_heard v); s ← session; return (presence_signal v s ∷ [])

  unfoldable pub start_segment : Levels → V (List DetectorSignal)
  start_segment v = do
    modify (segment_started v)
    s ← session
    vad_write (start_event v s)
    return (start_signal v s ∷ [])

  unfoldable pub hear_onset : Levels → V (List DetectorSignal)
  hear_onset v = do
    modify (onset_heard v)
    s ← session
    if leb (max s.config.onset_frames 1) s.onset_counter then start_segment v else return []

  unfoldable pub forget_onset : V (List DetectorSignal)
  forget_onset = do
    modify λ s. record s { onset_counter = 0; candidate_start_sample = none }
    return []

  unfoldable pub speech_step : Levels → V (List DetectorSignal)
  speech_step v = do
    s ← session
    if s.in_speech
        then (if is_voiced env.float v then hear_voice v else hear_silence v)
        else if onset_can_arm s && is_loud env.float v s
        then hear_onset v
        else forget_onset

  unfoldable pub low_silence : Levels → V (List DetectorSignal)
  low_silence v = do
    s ← session
    let low_start = unwrap_or s.low_silence_start_sample v.frame_start
    let low = not s.in_speech && is_low env.float v
    modify λ s. record s {
      low_silence_start_sample =
          if low
          then some low_start
          else if not s.in_speech
          then none
          else s.low_silence_start_sample;
    }
    return (
        if low
        then vad_low_silence (record {
          detector = detector_name;
          ids = hello_ids s.hello;
          start_sample = low_start;
          decision_sample = v.frame_end;
          silence_samples = v.frame_end - low_start;
          confidence = some v.smoothed;
        })
          ∷ []
        else [])

  unfoldable pub fall_back : Levels → ℕ → ℕ → V (List DetectorSignal)
  fall_back v start_sample end_sample = do
    modify λ s. record s { acoustic_fallback_emitted = true }
    s ← session
    vad_write (
        vad_acoustic_fallback_event (record {
          ids = hello_ids s.hello;
          segment_index = s.segment_index;
          start_sample = start_sample;
          end_sample = end_sample;
          decision_sample = v.frame_end;
          silence_samples = v.frame_end - end_sample;
          confidence = some v.smoothed;
          raw_probability = v.probability;
          smoothed_probability = v.smoothed;
          fallback_threshold = fallback_level env.float s;
          configured_fallback_threshold = s.config.fallback_threshold;
          acoustic_fallback_silence_ms = s.config.acoustic_fallback_silence_ms;
        }))
    return (
        vad_acoustic_fallback (record {
          detector = detector_name;
          ids = hello_ids s.hello;
          start_sample = start_sample;
          end_sample = end_sample;
          decision_sample = v.frame_end;
          silence_samples = v.frame_end - end_sample;
          confidence = or_else s.last_segment_end_confidence (some v.smoothed);
        })
        ∷ [])

  abbrev pub fallback_after : Levels → VadSession → Option ℕ → Option ℕ → V (List DetectorSignal)
  fallback_after v s (some start_sample) (some end_sample) =
      if leb (ms_to_samples s.config.acoustic_fallback_silence_ms) (v.frame_end - end_sample)
      then fall_back v start_sample end_sample
      else return []
  fallback_after v s _ _ = return []

  unfoldable pub acoustic_fallback : Levels → V (List DetectorSignal)
  acoustic_fallback v = do
    s ← session
    if not s.in_speech
          && not s.acoustic_fallback_emitted
          && env.float.le v.smoothed (fallback_level env.float s)
        then fallback_after v s s.last_segment_start_sample s.last_segment_end_sample
        else return []

  -- The fields that the three events of a window share.
  unfoldable pub window_of : Levels → VadSession → VadWindow
  window_of v s = record {
    ids = hello_ids s.hello;
    frame_index = s.frames_processed - 1;
    sample_start = v.frame_start;
    sample_count = frame_samples;
    sample_time_ms = samples_to_ms v.frame_start;
    probability = v.probability;
    smoothed_probability = v.smoothed;
    threshold = s.config.threshold;
    stop_threshold = v.stop_threshold;
    fallback_threshold = s.config.fallback_threshold;
    raw_is_speech = v.raw_is_speech;
    smoothed_in_speech = s.in_speech;
    ingress_receive_mono_ns = v.ingress_receive_mono_ns;
  }

  unfoldable pub write_if : Bool → VadEvent → V (Unit {0})
  write_if news e = if news then vad_write e else return tt

  unfoldable pub report_state : Levels → V (Unit {0})
  report_state v = do
    modify λ s. record s {
      last_raw_is_speech = some v.raw_is_speech;
      last_smoothed_in_speech = some s.in_speech;
    }
    s ← session
    let raw_changed = not (opt_bool_eq v.previous_raw v.raw_is_speech)
    let state_changed = not (opt_bool_eq v.previous_smoothed s.in_speech)
    let hangover_progress = s.in_speech && is_low env.float v && ltb 0 s.silence_counter
    write_if (raw_changed || state_changed || hangover_progress) (
        vad_state (record {
          window = window_of v s;
          raw_changed = raw_changed;
          state_changed = state_changed;
          hangover_progress = hangover_progress;
          silence_counter = as_u32 s.silence_counter;
          hangover_frames = as_u32 s.config.hangover_frames;
        }))

  unfoldable pub fallback_progress_ms : Levels → VadSession → ℕ
  fallback_progress_ms v s =
      if not s.in_speech
        && env.float.le v.smoothed (fallback_level env.float s)
        && is_some s.last_segment_end_sample
      then as_u32 (samples_to_ms (v.frame_end - unwrap_or s.last_segment_end_sample v.frame_end))
      else 0

  unfoldable pub report_meter : Levels → V (Unit {0})
  report_meter v = do
    s ← session
    vad_write (
        vad_meter (record {
          window = window_of v s;
          silence_counter = as_u32 s.silence_counter;
          hangover_frames = as_u32 s.config.hangover_frames;
          fallback_progress_ms = fallback_progress_ms v s;
          fallback_target_ms = s.config.acoustic_fallback_silence_ms;
          energy_rms = v.energy_rms;
          energy_threshold = s.config.energy_threshold;
          energy_gated = v.energy_gated;
        }))

  unfoldable pub report_frame : Levels → V (Unit {0})
  report_frame v = do
    s ← session
    write_if s.config.emit_frames (vad_frame (record { window = window_of v s }))

  -- The window's events, after which its signals are the result.
  unfoldable pub reported : Levels → List DetectorSignal → V (List DetectorSignal)
  reported v signals = do report_state v; report_meter v; report_frame v; return signals

  -- What follows from the window's probability.
  unfoldable pub follow_levels : Levels → V (List DetectorSignal)
  follow_levels v = do
    modify λ s. release_if_low env.float v (note_levels v s)
    speech ← speech_step v
    low ← low_silence v
    fallback ← acoustic_fallback v
    reported v (speech ++ low ++ fallback)

  unfoldable pub process_vad_frame : List ℕ → ℕ → ℕ → V (List DetectorSignal)
  process_vad_frame frame frame_start ingress_receive_mono_ns = do
    s ← session
    let rms = level_rms env.float s.config frame
    probability ← infer rms frame
    follow_levels (levels env.float frame_start ingress_receive_mono_ns rms probability s)

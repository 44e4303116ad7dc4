-- ===== src/Vad/Levels.antt =====
-- What VadSession::process_vad_frame (crates/speech-core-daemon/src/detectors/vad.rs) takes a window
-- for, the changes that follow from it in the session, and the signals and events on its segments.
use speech_core.Base.{
  ℕ, ◌*◌, ◌-◌, ◌%◌, Bool, true, false, ◌&&◌, ◌||◌, String, Option, none, some, List, [], ◌∷◌, ◌==◌,
  if◌then◌else◌, unwrap_or, or_else, is_some_and, length,
}
use speech_core.Base.Words.{saturating_add, saturating_add_u32}
use speech_core.Turn.Signals.{
  DetectorSignal, vad_segment_start, vad_segment_end, vad_speech_presence,
}
use speech_core.Turn.Local.{hello_ids}
use speech_core.Vad.Config.{Float, SileroVadConfig, frame_samples}
use speech_core.Vad.Events.{VadEvent, vad_speech_start, vad_speech_end}
use speech_core.Vad.Local.{VadSession, release_forced_close_rearm}

abbrev pub detector_name : String
detector_name = "silero_vad"

-- What the window is: its samples, and the probabilities with what they are compared to.
pub record Levels : Type 0 where
  pub frame_start : ℕ
  pub frame_end : ℕ
  pub ingress_receive_mono_ns : ℕ
  pub energy_rms : Option ℕ
  pub energy_gated : Bool
  pub probability : ℕ
  pub smoothed : ℕ
  pub stop_threshold : ℕ
  pub raw_is_speech : Bool
  pub previous_raw : Option Bool
  pub previous_smoothed : Option Bool

abbrev pub sum_of_squares : Float → ℕ → List ℕ → ℕ
sum_of_squares float total [] = total
sum_of_squares float total (x ∷ xs) = sum_of_squares float (float.add total (float.times x x)) xs

-- The normalized level; `none` where the gate is off.
unfoldable pub level_rms : Float → SileroVadConfig → List ℕ → Option ℕ
level_rms float config frame =
    if config.energy_enabled
    then some (
        float.sqrt (
          float.over (sum_of_squares float (float.literal "0.0") frame)
            (float.of_usize (length frame))))
    else none

unfoldable pub is_gated : Float → SileroVadConfig → Option ℕ → Bool
is_gated float config rms =
    config.energy_enabled && is_some_and rms (λ r. float.lt r config.energy_threshold)

unfoldable pub smooth : Float → SileroVadConfig → ℕ → ℕ → ℕ
smooth float config probability previous =
    let alpha =
      float.clamp config.smoothing_alpha (float.literal "0.000001") (float.literal "1.0") in
    float.mul_add alpha probability (float.times (float.minus (float.literal "1.0") alpha) previous)

-- What is known of the window before anything follows from it.
unfoldable pub levels : Float → ℕ → ℕ → Option ℕ → ℕ → VadSession → Levels
levels float start ingress rms probability s = record {
  frame_start = start;
  frame_end = saturating_add start frame_samples;
  ingress_receive_mono_ns = ingress;
  energy_rms = rms;
  energy_gated = is_gated float s.config rms;
  probability = probability;
  smoothed = smooth float s.config probability (unwrap_or s.smoothed_probability probability);
  stop_threshold = float.minimum s.config.stop_threshold s.config.threshold;
  raw_is_speech = float.lt s.config.threshold probability;
  previous_raw = s.last_raw_is_speech;
  previous_smoothed = s.last_smoothed_in_speech;
}

unfoldable pub note_levels : Levels → VadSession → VadSession
note_levels v s = record s {
  last_probability = some v.probability;
  smoothed_probability = some v.smoothed;
  frames_processed = saturating_add s.frames_processed 1;
}

-- `smoothed_probability < stop_threshold` and `smoothed_probability >= stop_threshold`.
abbrev pub is_low : Float → Levels → Bool
is_low float v = float.lt v.smoothed v.stop_threshold

abbrev pub is_voiced : Float → Levels → Bool
is_voiced float v = float.le v.stop_threshold v.smoothed

abbrev pub is_loud : Float → Levels → VadSession → Bool
is_loud float v s = v.raw_is_speech || float.le s.config.threshold v.smoothed

unfoldable pub release_if_low : Float → Levels → VadSession → VadSession
release_if_low float v s =
    if s.forced_close_rearm_required && is_low float v then release_forced_close_rearm s else s

unfoldable pub voice_heard : Levels → VadSession → VadSession
voice_heard v s = record s {
  last_voice_sample_end = some v.frame_end;
  low_silence_start_sample = none;
  silence_counter = 0;
  silence_start_sample = none;
}

unfoldable pub silence_heard : Levels → VadSession → VadSession
silence_heard v s = record s {
  silence_start_sample =
      if s.silence_counter == 0 then some v.frame_start else s.silence_start_sample;
  silence_counter = saturating_add s.silence_counter 1;
}

unfoldable pub segment_end_of : Levels → VadSession → ℕ
segment_end_of v s =
    unwrap_or (or_else s.silence_start_sample s.last_voice_sample_end) v.frame_start

unfoldable pub segment_start_of : Levels → VadSession → ℕ
segment_start_of v s = unwrap_or s.current_segment_start_sample (segment_end_of v s)

unfoldable pub segment_ended : Levels → VadSession → VadSession
segment_ended v s = record s {
  last_segment_start_sample = some (segment_start_of v s);
  last_segment_end_sample = some (segment_end_of v s);
  last_segment_end_confidence = some v.smoothed;
  acoustic_fallback_emitted = false;
  current_segment_start_sample = none;
  silence_counter = 0;
  silence_start_sample = none;
}

-- The multiplication of usize values wraps around.
unfoldable pub onset_heard : Levels → VadSession → VadSession
onset_heard v s =
    let pre_roll = (s.config.pre_speech_frames * frame_samples) % 18446744073709551616 in
    record s {
      candidate_start_sample =
          if s.onset_counter == 0
          then some (v.frame_start - pre_roll)
          else s.candidate_start_sample;
      onset_counter = saturating_add s.onset_counter 1;
    }

unfoldable pub segment_started : Levels → VadSession → VadSession
segment_started v s = record s {
  in_speech = true;
  segment_index = saturating_add_u32 s.segment_index 1;
  current_segment_start_sample = some (unwrap_or s.candidate_start_sample v.frame_start);
  last_voice_sample_end = some v.frame_end;
  low_silence_start_sample = none;
  acoustic_fallback_emitted = true;
  onset_counter = 0;
}

unfoldable pub presence_signal : Levels → VadSession → DetectorSignal
presence_signal v s = vad_speech_presence (record {
  detector = detector_name;
  ids = hello_ids s.hello;
  start_sample = unwrap_or s.current_segment_start_sample v.frame_start;
  decision_sample = v.frame_end;
  confidence = some v.smoothed;
})

unfoldable pub end_signal : Levels → VadSession → DetectorSignal
end_signal v s = vad_segment_end (record {
  detector = detector_name;
  ids = hello_ids s.hello;
  start_sample = segment_start_of v s;
  end_sample = segment_end_of v s;
  decision_sample = v.frame_end;
  confidence = some v.smoothed;
})

unfoldable pub end_event : Levels → VadSession → VadEvent
end_event v s = vad_speech_end (record {
  ids = hello_ids s.hello;
  segment_index = s.segment_index;
  start_sample = segment_start_of v s;
  end_sample = segment_end_of v s;
  decision_sample = v.frame_end;
  reason = "smoothed_hangover_elapsed";
  confidence = some v.smoothed;
  raw_probability = v.probability;
  smoothed_probability = v.smoothed;
})

unfoldable pub start_signal : Levels → VadSession → DetectorSignal
start_signal v s = vad_segment_start (record {
  detector = detector_name;
  ids = hello_ids s.hello;
  start_sample = unwrap_or s.current_segment_start_sample v.frame_start;
  decision_sample = v.frame_end;
  confidence = some v.smoothed;
})

unfoldable pub start_event : Levels → VadSession → VadEvent
start_event v s = vad_speech_start (record {
  ids = hello_ids s.hello;
  segment_index = s.segment_index;
  start_sample = unwrap_or s.current_segment_start_sample v.frame_start;
  decision_sample = v.frame_end;
  confidence = v.smoothed;
  raw_probability = v.probability;
  smoothed_probability = v.smoothed;
})

-- ===== src/Examples/Predictions.antt =====
-- Runs of the semantic turn detector (crates/speech-core-daemon/src/detectors/smart_turn.rs).
use speech_core.Base.{◌-◌, ◌≤◌, max, false, true, none, [], ◌∷◌, ◌≡◌, length, take, arith, ltb}
use speech_core.Protocol.Types.{AudioFrame}
use speech_core.Smart.Session.{
  SmartTurnConfig, SmartTurnSession, new_smart_session, limit, placed, trim_to_limit, joined_audio,
  audio_end, push_smart_samples, segment_for_prediction,
}
use speech_core.Smart.Detector.{SmartTurnDetector, SmartEnv, predict_for_vad_end}
use speech_core.Smart.Samples.{heard, sample_at}
use speech_core.Smart.Timeline.{end_of, push_smart_samples-sample_at}
use speech_core.Smart.Segment.{segment_for_prediction-push_smart_samples}
use speech_core.Smart.Predicted.{PredictEnd, predict_for_vad_end-PredictEnd}
use speech_core.Examples.Data.{hello, header, frame}

-- The samples 10 and 11 of the stream.
abbrev holding : SmartTurnSession
holding = record (new_smart_session hello 8 500) { audio = 1 ∷ 2 ∷ []; first_sample = 10 }

-- The next frame starts at sample 14.
abbrev later_frame : AudioFrame
later_frame = record frame { header = record header { source_sample_start = 14 } }

abbrev pushed : SmartTurnSession
pushed = push_smart_samples 0 later_frame (5 ∷ 6 ∷ []) holding

held : end_of (placed 14 holding) ≤ 18446744073709551615
unfolding placed
held = omega arith

from_first : pushed.first_sample ≤ 12
unfolding push_smart_samples trim_to_limit placed new_smart_session joined_audio audio_end
from_first = omega arith

push_smart_samples-sample_at_example :
    (end_of pushed ≡ max (end_of (placed 14 holding)) 16)
    × (length pushed.audio ≤ limit holding)
    × (sample_at 12 pushed
        ≡ heard 0 14 (5 ∷ 6 ∷ []) (end_of (placed 14 holding)) 12 (sample_at 12 holding))
push_smart_samples-sample_at_example =
    push_smart_samples-sample_at 0 later_frame (5 ∷ 6 ∷ []) holding 12 held (omega arith) from_first

segment_for_prediction-push_smart_samples_example :
    segment_for_prediction 15 pushed ≡ take (15 - pushed.first_sample) pushed.audio
segment_for_prediction-push_smart_samples_example =
    segment_for_prediction-push_smart_samples 0 later_frame (5 ∷ 6 ∷ []) holding 15 held
      (omega arith)

-- A model that fails.
abbrev failing : SmartEnv
failing = record {
  logger_stopped = λ sent. false;
  zero_sample = 0;
  above = λ a b. ltb b a;
  log_mel = λ window. window;
  run = λ features. none;
  duration_ms = λ sent. 10;
  over_budget = λ taken budget. ltb budget taken;
  dump_failure = λ id end_sample decision_sample audio. none;
}

abbrev smart_config : SmartTurnConfig
smart_config = record {
  model_path = "smart-turn.onnx";
  threshold = 500;
  timeout_ms = 250;
  cpu_count = 1;
  max_audio_secs = 8;
  pre_speech_ms = 500;
  recheck_interval_ms = 0;
  recheck_max_attempts = 0;
  recheck_offsets_ms = 96 ∷ 192 ∷ [];
}

abbrev detector : SmartTurnDetector
detector = record {
  config = smart_config;
  has_model = true;
  sessions = ("s", holding) ∷ [];
  sent = [];
}

predict_for_vad_end-PredictEnd_example :
    PredictEnd "s" detector (predict_for_vad_end ⦃env = failing⦄ "s" 11 12 detector)
predict_for_vad_end-PredictEnd_example =
    predict_for_vad_end-PredictEnd ⦃env = failing⦄ "s" 11 12 detector

-- ===== src/Examples/Vads.antt =====
-- Runs of the voice activity detector (crates/speech-core-daemon/src/detectors/vad.rs), with f32
-- values as thousandths.
use speech_core.Base.{
  ℕ, ◌+◌, ◌-◌, ◌*◌, ◌/◌, min, max, true, false, if◌then◌else◌, str_eq, some, List, [], ◌∷◌, ltb,
  leb, refl, replicate, arith,
}
use speech_core.Base.Maps.{lookup}
use speech_core.Base.Int.{pos, negsuc}
use speech_core.Turn.Signals.{ResetEouState, decoder, reset_eou_state}
use speech_core.Turn.Manager.{unannounced}
use speech_core.Vad.Config.{Float, SileroVadConfig}
use speech_core.Vad.Local.{VadEnv, VadSession, new_vad_session}
use speech_core.Vad.Frame.{process_vad_frame}
use speech_core.Vad.Tracked.{IsSized}
use speech_core.Vad.Window.{FrameEnd, process_vad_frame-FrameEnd}
use speech_core.Vad.Windows.{DrainEnd, ingest_samples-DrainEnd}
use speech_core.Vad.Changes.{action_taken, push_samples, reset_requires_low_release}
use speech_core.Vad.Detector.{
  VadDetector, ingest_samples, ingest_frame, start_vad_session, handle_action,
}
use speech_core.Vad.History.{made, announced, fed, new_detector}
use speech_core.Vad.Reset.{new_vad_session-IsTracked}
use speech_core.Vad.Reach.{IsWatched, VadReachable-IsWatched}
use speech_core.Vad.Held.{HeldEnd, frame_come, handle_action-ingest_frame}
use speech_core.Examples.Data.{ids, frame}

abbrev pub thousandths : Float
thousandths = record {
  literal = λ text. if str_eq text "1.0" then 1000 else if str_eq text "0.5" then 500 else 0;
  of_usize = λ n. n * 1000;
  of_i16 = λ z. elim z as (λ _. ℕ) [ pos n ↦ n * 1000 | negsuc n ↦ 0 ];
  lt = ltb;
  le = leb;
  minimum = min;
  maximum = max;
  clamp = λ x low high. max low (min x high);
  add = λ a b. a + b;
  minus = λ a b. a - b;
  times = λ a b. a * b / 1000;
  over = λ a b. a * 1000 / b;
  sqrt = λ a. a;
  mul_add = λ a b c. a * b / 1000 + c;
}

abbrev first_sample : List ℕ → ℕ
first_sample [] = 0
first_sample (x ∷ _) = x

-- A window's probability is its first sample; the log's worker runs.
abbrev pub vad_env : VadEnv
vad_env = record {
  float = thousandths;
  opens = λ path. true;
  compute = λ before window. some (first_sample window);
  logger_stopped = λ _. false;
}

abbrev vad_config : SileroVadConfig
vad_config = record {
  model_path = "silero";
  threshold = 500;
  onset_frames = 2;
  hangover_frames = 3;
  pre_speech_frames = 1;
  emit_frames = true;
  smoothing_alpha = 1000;
  stop_threshold = 200;
  fallback_threshold = 100;
  acoustic_fallback_silence_ms = 64;
  energy_enabled = false;
  energy_threshold = 0;
}

abbrev pub fresh : VadSession
fresh = new_vad_session (unannounced ids) vad_config

sized : IsSized vad_config
sized = record { onset = omega arith; hangover = omega arith }

process_vad_frame-FrameEnd_example :
    FrameEnd ⦃env = vad_env⦄
      (800 ∷ [])
      0
      7
      fresh
      (process_vad_frame ⦃env = vad_env⦄ (800 ∷ []) 0 7 (record { session = fresh; sent = [] }))
unfolding new_vad_session
process_vad_frame-FrameEnd_example =
    process_vad_frame-FrameEnd ⦃env = vad_env⦄ (λ _. refl) (800 ∷ []) 0 7
      (record { session = fresh; sent = [] })
      (new_vad_session-IsTracked (unannounced ids) vad_config) sized

ingest_samples-DrainEnd_example :
    DrainEnd ⦃env = vad_env⦄ 7
      (record { session = push_samples frame (replicate 1200 800) fresh; sent = [] })
      (ingest_samples ⦃env = vad_env⦄ frame
        (replicate 1200 800)
        7
        (record { session = fresh; sent = [] }))
unfolding new_vad_session
ingest_samples-DrainEnd_example =
    ingest_samples-DrainEnd ⦃env = vad_env⦄ (λ _. refl) frame (replicate 1200 800) 7
      (record { session = fresh; sent = [] })
      (new_vad_session-IsTracked (unannounced ids) vad_config) sized

VadReachable-IsWatched_example :
    IsWatched vad_config
      (ingest_frame ⦃env = vad_env⦄ frame
        (replicate 1200 800)
        7
        (start_vad_session ⦃env = vad_env⦄ (unannounced ids) (new_detector vad_config)).1).1
VadReachable-IsWatched_example =
    VadReachable-IsWatched ⦃env = vad_env⦄ (λ _. refl) vad_config sized _
      (fed frame (replicate 1200 800) 7 (announced (unannounced ids) made))

abbrev pub one_session : VadDetector
one_session = record { config = vad_config; sessions = ("s", fresh) ∷ []; sent = [] }

abbrev hold_reset : ResetEouState
hold_reset = record {
  ids = ids;
  mode = decoder;
  anchor_sample = 9000;
  source = "human_hold";
  reason = "human_hold_speech_like_audio_without_tokens";
  decision_sample = 9000;
}

handle_action-ingest_frame_example :
    HeldEnd ⦃env = vad_env⦄ 7
      (frame_come frame (replicate 1200 800) one_session (action_taken hold_reset.reason fresh))
      frame.header.stream_session_id
      (ingest_frame ⦃env = vad_env⦄ frame
        (replicate 1200 800)
        7
        (handle_action (reset_eou_state hold_reset) one_session))
unfolding new_vad_session lookup reset_requires_low_release
handle_action-ingest_frame_example =
    handle_action-ingest_frame ⦃env = vad_env⦄ (λ _. refl) hold_reset frame (replicate 1200 800) 7
      one_session fresh refl refl (new_vad_session-IsTracked (unannounced ids) vad_config) sized
      refl

-- ===== src/Examples/Workers.antt =====
-- Runs of the detector worker (crates/speech-core-daemon/src/detectors/mod.rs) with a voice
-- activity detector and a semantic detector for which no turn is ever complete.
use speech_core.Base.{arith, ℕ, suc, true, false, some, none, [], ◌∷◌, refl, All}
use speech_core.Turn.Config.{default_config}
use speech_core.Turn.Signals.{vad_low_silence, vad_segment_start}
use speech_core.Turn.Local.{ok}
use speech_core.Turn.Manager.{TurnManager}
use speech_core.Vad.Detector.{VadDetector}
use speech_core.Worker.Interfaces.{SmartTurn, vad_detector}
use speech_core.Worker.State.{DetectorWorker, WorkerEnv, SemanticRecheckState}
use speech_core.Worker.Signals.{handle_one_signal}
use speech_core.Worker.Commands.{audio_frame, handle, reset_for_gap}
use speech_core.Worker.Leaves.{Rechecks}
use speech_core.Worker.Scheduled.{
  IsScheduled, IsOther, handle-IsScheduled, handle_one_signal-IsOther,
}
use speech_core.Worker.Forced.{ForcedEnd, handle_one_signal-ForcedEnd}
use speech_core.Examples.Data.{
  env, ids, manager, gap, frame, speech_start, low_silence, transcript_local,
}
use speech_core.Examples.Vads.{vad_env, thousandths, one_session}

abbrev pub never_complete : SmartTurn ℕ
never_complete = record {
  start = λ hello s. (ok tt, s);
  ingest = λ frame samples ingress s. (ok tt, s);
  end = λ id reason s. (ok tt, s);
  predict = λ id end_sample decision_sample s. (
    ok (record {
      available = true;
      complete = false;
      probability = some 300;
      threshold = some 500;
      timed_out = false;
      reason = "smart_turn_incomplete";
      duration_ms = none;
    }),
    suc s,
  );
  act = λ action s. (ok tt, s);
  skip = λ gap s. (ok tt, s);
  offsets = λ s. 1600 ∷ 3200 ∷ [];
}

abbrev pub worker_env : WorkerEnv
worker_env = record { turns = env; float = thousandths; logger_stopped = λ _. false }

abbrev recheck : SemanticRecheckState
recheck = record {
  ids = ids;
  start_sample = 100;
  end_sample = 6000;
  initial_decision_sample = 7000;
  pending_decision_samples = 9200 ∷ [];
  confidence = none;
}

-- The session's turn was begun by a token, and a recheck is scheduled.
abbrev quiet_manager : TurnManager
quiet_manager = record manager {
  config = default_config;
  sessions = ("s", transcript_local.session) ∷ [];
}

abbrev pub busy : DetectorWorker VadDetector ℕ
busy = record {
  detectors = one_session ∷ [];
  smart_turn = some 0;
  turn_manager = quiet_manager;
  semantic_rechecks = recheck ∷ [];
  min_vad_speech_samples = 4800;
  sent = [];
}

recheck-IsScheduled : IsScheduled 4800 recheck
recheck-IsScheduled = record { long_enough = omega arith; later = (omega arith, tt) }

handle-IsScheduled_example :
    Rechecks VadDetector ℕ
      (IsScheduled 4800)
      4800
      (handle ⦃detector = vad_detector vad_env⦄ ⦃smart = never_complete⦄ ⦃env = worker_env⦄
        (audio_frame frame 7)
        busy).1
handle-IsScheduled_example =
    handle-IsScheduled ⦃detector = vad_detector vad_env⦄ ⦃smart = never_complete⦄ ⦃env = worker_env⦄
      (audio_frame frame 7) busy (recheck-IsScheduled, tt)

handle_one_signal-IsOther_example :
    All
      (IsOther "s")
      (handle_one_signal ⦃detector = vad_detector vad_env⦄ ⦃smart = never_complete⦄
        ⦃env = worker_env⦄
        (vad_segment_start speech_start)
        busy).1.semantic_rechecks
    × All
        (IsOther "s")
        (reset_for_gap ⦃detector = vad_detector vad_env⦄ ⦃smart = never_complete⦄ ⦃env = worker_env⦄
          gap busy).1.semantic_rechecks
handle_one_signal-IsOther_example =
    handle_one_signal-IsOther ⦃detector = vad_detector vad_env⦄ ⦃smart = never_complete⦄
      ⦃env = worker_env⦄ speech_start gap busy

handle_one_signal-ForcedEnd_example : ForcedEnd ids busy (
    handle_one_signal ⦃detector = vad_detector vad_env⦄ ⦃smart = never_complete⦄ ⦃env = worker_env⦄
      (vad_low_silence low_silence)
      busy)
handle_one_signal-ForcedEnd_example =
    handle_one_signal-ForcedEnd vad_env ⦃smart = never_complete⦄ ⦃env = worker_env⦄
      (vad_low_silence low_silence) ids busy refl

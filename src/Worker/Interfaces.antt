-- ===== src/Worker/Interfaces.antt =====
-- What the detector worker asks of its detectors: the trait AudioDetector of
-- crates/speech-core-daemon/src/detectors/mod.rs, and the methods of SmartTurnDetector
-- (crates/speech-core-daemon/src/detectors/smart_turn.rs) that it calls. An operation answers with
-- the detector after it; the text of an error is left out.
use speech_core.Base.{ℕ, Bool, true, false, String, Option, none, List}
use speech_core.Protocol.Types.{AudioFrame}
use speech_core.Turn.Signals.{DetectorSignal, DetectorAction}
use speech_core.Turn.Local.{HelloState, Outcome, ok, err}
use speech_core.Turn.Manager.Sessions.{AudioGapReset}
use speech_core.Vad.Local.{VadEnv, VadResult, done, failed}
use speech_core.Vad.Detector.{
  VadDetector, start_vad_session, ingest_frame, end_vad_session, handle_action, vad_gap_reset,
}

-- `end` is also given the time of its call.
pub record AudioDetector (D : Type 0) : Type 0 where
  pub start : HelloState → D → Outcome (Unit {0}) × D
  pub ingest : AudioFrame → List ℕ → ℕ → D → Outcome (List DetectorSignal) × D
  pub end : String → String → ℕ → D → Outcome (List DetectorSignal) × D
  pub act : DetectorAction → D → Outcome (Unit {0}) × D
  pub skip : AudioGapReset → D → Outcome (Unit {0}) × D

pub record SmartTurnDecision : Type 0 where
  pub available : Bool
  pub complete : Bool
  pub probability : Option ℕ  -- f32
  pub threshold : Option ℕ  -- f32
  pub timed_out : Bool
  pub reason : String
  pub duration_ms : Option ℕ  -- f64

unfoldable pub unavailable : String → SmartTurnDecision
unavailable reason = record {
  available = false;
  complete = true;
  probability = none;
  threshold = none;
  timed_out = false;
  reason = reason;
  duration_ms = none;
}

-- `predict` is predict_for_vad_end, `offsets` is recheck_offsets_samples.
pub record SmartTurn (S : Type 0) : Type 0 where
  pub start : HelloState → S → Outcome (Unit {0}) × S
  pub ingest : AudioFrame → List ℕ → ℕ → S → Outcome (Unit {0}) × S
  pub end : String → String → S → Outcome (Unit {0}) × S
  pub predict : String → ℕ → ℕ → S → Outcome SmartTurnDecision × S
  pub act : DetectorAction → S → Outcome (Unit {0}) × S
  pub skip : AudioGapReset → S → Outcome (Unit {0}) × S
  pub offsets : S → List ℕ

abbrev outcome_of : {A : Type 0} → VadResult A → Outcome A
outcome_of (done a) = ok a
outcome_of (failed e) = err

-- The voice activity detector is one of them.
abbrev pub vad_detector : VadEnv → AudioDetector VadDetector
vad_detector env = record {
  start = λ hello d. let r = start_vad_session ⦃env = env⦄ hello d in (outcome_of r.0, r.1);
  ingest = λ frame samples ingress d.
      let r = ingest_frame ⦃env = env⦄ frame samples ingress d in (outcome_of r.0, r.1);
  end = λ id reason now d.
      let r = end_vad_session ⦃env = env⦄ id reason now d in (outcome_of r.0, r.1);
  act = λ action d. (ok tt, handle_action action d);
  skip = λ gap d. (ok tt, vad_gap_reset gap d);
}

-- ===== src/Vad/History.antt =====
-- The histories of a voice activity detector: the calls that the detector worker makes of it
-- (crates/speech-core-daemon/src/detectors/mod.rs), which goes on after a call that failed.
use speech_core.Base.{ℕ, String, List, []}
use speech_core.Protocol.Types.{AudioFrame}
use speech_core.Turn.Signals.{DetectorAction}
use speech_core.Turn.Local.{HelloState}
use speech_core.Turn.Manager.Sessions.{AudioGapReset}
use speech_core.Vad.Config.{SileroVadConfig}
use speech_core.Vad.Local.{VadEnv}
use speech_core.Vad.Detector.{
  VadDetector, start_vad_session, ingest_frame, end_vad_session, handle_action, vad_gap_reset,
}

unfoldable pub new_detector : SileroVadConfig → VadDetector
new_detector config = record { config = config; sessions = []; sent = [] }

pub data VadReachable ⦃env : VadEnv⦄ (config : SileroVadConfig) : VadDetector → Type 0 where
  made : VadReachable config (new_detector config)
  announced :
      {d : VadDetector} (hello : HelloState)
      → VadReachable config d
      → VadReachable config (start_vad_session hello d).1
  fed :
      {d : VadDetector} (frame : AudioFrame) (samples : List ℕ) (ingress_receive_mono_ns : ℕ)
      → VadReachable config d
      → VadReachable config (ingest_frame frame samples ingress_receive_mono_ns d).1
  finished :
      {d : VadDetector} (id reason : String) (now_ns : ℕ)
      → VadReachable config d
      → VadReachable config (end_vad_session id reason now_ns d).1
  acted :
      {d : VadDetector} (action : DetectorAction)
      → VadReachable config d
      → VadReachable config (handle_action action d)
  skipped :
      {d : VadDetector} (gap : AudioGapReset)
      → VadReachable config d
      → VadReachable config (vad_gap_reset gap d)

-- ===== src/Turn/History.antt =====
-- The histories of a turn manager: the calls that the detector worker makes of it
-- (crates/speech-core-daemon/src/detectors/mod.rs), with what other threads do between them. A call
-- that failed is logged there, and the worker goes on with the state that the call left.
use speech_core.Base.{◌+◌, ℕ, String, Option}
use speech_core.Progress.State.{ModelProgressMap}
use speech_core.Turn.Config.{TurnManagerConfig}
use speech_core.Turn.Signals.{ModelDrainHandle, DetectorSignal}
use speech_core.Turn.Local.{Env, HelloState}
use speech_core.Turn.Manager.{TurnManager, new_manager, handle_signal}
use speech_core.Turn.Manager.Sessions.{
  AudioGapReset, start_session, audio_gap_reset, end_session, finalize_all,
}

pub data Reachable ⦃env : Env⦄ : TurnManager → Type 0 where
  created :
      (config : TurnManagerConfig) (progress : Option ModelProgressMap)
      (drain : Option ModelDrainHandle)
      → Reachable (new_manager config progress drain)
  started :
      {w : TurnManager} (hello : HelloState) → Reachable w → Reachable (start_session hello w).1
  signalled :
      {w : TurnManager} (signal : DetectorSignal)
      → Reachable w
      → Reachable (handle_signal signal w).1
  gap :
      {w : TurnManager} (reset : AudioGapReset)
      → Reachable w
      → Reachable (audio_gap_reset reset w).1
  ended :
      {w : TurnManager} (id reason : String) → Reachable w → Reachable (end_session id reason w).1
  finalized :
      {w : TurnManager} (reason : String) → Reachable w → Reachable (finalize_all reason w).1
  -- The model's thread has moved the shared progress on, and time has passed.
  elsewhere :
      {w : TurnManager} (progress : Option ModelProgressMap) (elapsed_ns : ℕ)
      → Reachable w
      → Reachable (record w { model_progress = progress; now_ns = w.now_ns + elapsed_ns })

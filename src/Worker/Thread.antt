-- ===== src/Worker/Thread.antt =====
-- The worker behind its channels (the thread of DetectorIngress::start of
-- crates/speech-core-daemon/src/detectors/mod.rs): what the commands handled make of it, and what
-- happens when the loop has ended.
use speech_core.Base.{List, [], ◌∷◌, if◌then◌else◌}
use speech_core.Worker.Interfaces.{AudioDetector, SmartTurn}
use speech_core.Worker.State.{DetectorWorker, WorkerEnv}
use speech_core.Worker.Commands.{DetectorCommand, handle, finalize_worker}
use speech_core.Worker.Queue.{QueueState}

module _ {D S : Type 0} ⦃detector : AudioDetector D⦄ ⦃smart : SmartTurn S⦄ ⦃env : WorkerEnv⦄ where
  -- The newest command is first.
  unfoldable pub worker_after : List DetectorCommand → DetectorWorker D S → DetectorWorker D S
  worker_after [] w = w
  worker_after (c ∷ before) w = (handle c (worker_after before w)).1

  unfoldable pub end_thread : QueueState → DetectorWorker D S → DetectorWorker D S
  end_thread q w =
      let last = worker_after q.handled w in
      if q.graceful_shutdown
      then last
      else (finalize_worker "detector worker channel closed" last).1

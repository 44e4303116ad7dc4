-- ===== src/Lib.antt =====
-- Speech Core: the daemon's stream sessions, its detectors and their worker, and its turn manager.
--
-- The daemon (crates/speech-core-daemon) takes audio frames of streaming sessions, runs voice
-- activity detection, end-of-utterance and semantic turn detectors and a speech model over them, and
-- writes a log of events. The detectors' signals go to one TurnManager
-- (crates/speech-core-daemon/src/detectors/turn.rs), which decides where turns of speech begin and
-- end. The model worker records tokens in a shared ModelProgressMap
-- (crates/speech-core-daemon/src/model.rs), from which a close cuts the turn's committed text.
--
-- Files and code:
--   Base           shared names, tests and lists; Base/Maps a HashMap with String keys as an
--                  association list; Base/Words the saturating and wrapping arithmetic; Base/Int the
--                  values of type i64; Base/Decimal the text of a number; Base/Work code that works on
--                  a state and can fail, with postconditions for both ends
--   Protocol/Types data types of crates/speech-core-protocol/src/lib.rs; Protocol/Codec the binary
--                  frames, AudioFrame::encode and AudioFrame::decode; Protocol/RoundTrip proofs;
--                  Protocol/Latency the latencies of a frame
--   Progress/State CommittedTokenSnapshot, ModelProgressState, ModelProgressMap (model.rs)
--   Progress/Ops   the methods of ModelProgressMap, one function each
--   Progress/PerTurn per_turn_committed_snapshot, a function for each of its loops
--   Progress/Selection, Progress/Recording, Progress/Freeze, Progress/Generations  proofs on these
--   Turn/Config, Turn/Signals, Turn/Events  the configuration, DetectorSignal and DetectorAction
--                  (detectors/mod.rs), and the events that turn.rs writes
--   Turn/Local     TurnSession, the state that a handler works on, and writing to the log
--   Turn/Align     align_model_for_close; Turn/Align/Waits the two waiting loops
--   Turn/Close     close_turn and close_specific_turn
--   Turn/Handlers  the arms of TurnManager::handle_signal: Segment (VadSegmentStart, VadSegmentEnd),
--                  Hold (VadSpeechPresence), Token (TranscriptTokenCommitted), Silence
--                  (VadLowSilence, VadAcousticFallback), Model (ModelEou, SemanticTurnDecision)
--   Turn/Manager   TurnManager with handle_signal; Turn/Manager/Sessions its start_session,
--                  audio_gap_reset, end_session and finalize_all
--   Turn/History   the histories of a turn manager as a data type
--   Turn/Post      postconditions of handlers; Turn/Invariant the invariant and its proofs, by handler
--   Turn/Live, Turn/Gate, Turn/AfterClose, Turn/Sessions, Turn/Finalize, Turn/Gap, Turn/Times,
--   Turn/Held, Turn/Quiet, Turn/Accepted, Turn/Short, Turn/Align/Loops, Turn/Align/Bounds
--                  proofs about the operations
--   Vad/Config, Vad/Events, Vad/Local  SileroVadConfig, the events and VadSession of
--                  crates/speech-core-daemon/src/detectors/vad.rs
--   Vad/Levels, Vad/Frame  process_vad_frame: what a window is taken for and what follows from it
--   Vad/Changes, Vad/Detector  SileroVadDetector: start_session, ingest_frame, end_session,
--                  handle_action and audio_gap_reset; Vad/History its histories
--   Vad/Machine    the machine of three phases (quiet, speaking, held) that a session refines
--   Vad/Yields, Vad/Tracked, Vad/Moves, Vad/Refines, Vad/Marks, Vad/Rest, Vad/Follow, Vad/Window,
--   Vad/Windows, Vad/Reset, Vad/Reach, Vad/Held
--                  postconditions, and proofs on a window, on the windows of a frame, on histories
--                  and on forced closes
--   Worker/Interfaces  the trait AudioDetector (crates/speech-core-daemon/src/detectors/mod.rs),
--                  filled by the voice activity detector, and the methods of SmartTurnDetector
--                  (detectors/smart_turn.rs) that the worker calls
--   Worker/State, Worker/Events, Worker/Signals, Worker/Commands  DetectorWorker (detectors/mod.rs):
--                  handle_signals, the semantic rechecks, and handle with its commands
--   Worker/Queue   DetectorIngress (detectors/mod.rs): the two channels and the thread's loop;
--                  Worker/Thread the worker behind them, and the thread's end
--   Worker/Histories, Worker/Fifo, Worker/Order, Worker/Stopped  the histories of the channels, and
--                  proofs on them
--   Turn/Answers, Turn/Forced, Worker/Leaves, Worker/Rechecks, Worker/Due, Worker/Scheduled, Worker/Forced,
--   Worker/Decode  postconditions, and proofs on the rechecks, on forced closes from the turn manager
--                  to the detectors, and on the samples of a frame
--   Daemon/Streams, Daemon/Ingest, Daemon/Sessions  the streams of DaemonState
--                  (crates/speech-core-daemon/src/main.rs): gaps, ingest, start_session and
--                  end_session; Daemon/Continuity, Daemon/Owners proofs on gaps and on generations
--   Smart/Session, Smart/Detector  SmartTurnSession and SmartTurnDetector (detectors/smart_turn.rs),
--                  which fills the worker's interface; Smart/Samples, Smart/Joined,
--                  Smart/Timeline, Smart/Segment, Smart/Predicted proofs on the samples held, on
--                  the model's audio, and on predictions
--   Log/Files, Log/Writer  LoggerWorker (crates/speech-core-daemon/src/jsonl_logger.rs): rotate_files,
--                  and the worker's methods and commands
--   Log/Kept, Log/Turned, Log/Grown, Log/Steps, Log/Order  proofs on which lines the files keep
--   Log/Size, Log/Bounded, Log/Written, Log/Limits  proofs on the size of the file that is written to
--   Examples       concrete sessions, and runs of them
--
-- How the code is modelled. A handler is a function from the state that it sees (its session, the
-- shared progress, the events sent so far with the newest first, the clock) to a result and that
-- state after it; `?` after a write ends it, and what was changed stays changed. A write is seen by
-- subscribers also where it fails, so the list of events is what was sent, in order. The log's
-- worker, the table of alphanumeric characters, the model worker's progress during a sleep, the time
-- by which a sleep runs over, and what a drain answers are parameters (Env, ModelDrainHandle). Events
-- carry no daemon_mono_ns, and confidences are numbers that are passed on and never looked at.
-- Samples and counters are natural numbers; the source's saturating and wrapping operations are
-- written out, and its subtractions stop at 0 as they do here.
--
-- The voice activity detector works on f32 values by their bit patterns, with the operations on them
-- and the network's answers as parameters (Float, VadEnv); the network is known by the windows that
-- it has had. The stamps of the clock are left out of its events too.
--
-- The parts of the detector worker keep a list of events each, so that the order between the events
-- of different parts is not told. The text of a failure of the semantic detector is left out.
--
-- What the daemon's streams pass on to the two workers is a list of deliveries, the newest first;
-- whether a worker's queue takes one is a parameter (IngressEnv). The latencies of a frame are in
-- nanoseconds, before the division to milliseconds in f64.
--
-- The event log's files are lists of lines under their numbers. Which calls on files fail is a
-- parameter (LogEnv); a call that fails to open, remove or rename changes no file, and whether a file
-- is there to be renamed is always known. Lines wait in a buffer, of which a part can reach the file
-- with any write; a write or a flush that fails can also lose lines of it, and how many is a parameter
-- too. Lines reach a file whole. What still waits when the worker ends is lost. The interval between
-- flushes is a command (tick) that can come at any time.
--
-- The semantic turn detector's features of a window and its model, the durations of predictions and
-- the dump of audio for debugging are parameters (SmartEnv); whether it has a model is a Boolean.
--
-- The two waiting loops run on fuel, one round for each nanosecond up to the deadline and one more:
-- a round that does not end sleeps for a nanosecond at least, so the fuel is never used up.
-- The loop over the windows of a frame has a fuel of one round for each sample that waits.
--
-- Not modelled: the model worker and the drain's other side (model.rs), the end-of-utterance
-- detector (detectors/parakeet_eou.rs), the spectrogram and the model of detectors/smart_turn.rs,
-- the loading of the models, the arguments and sockets of main.rs,
-- the adapters, the watcher and speech-out: they are input and output, threads, or models of sound.
-- serde_json's text of a frame's header is a
-- parameter (HeaderJson). The control messages of crates/speech-core-protocol are not modelled: they
-- are data types for JSON.
pub mod Base
pub mod Protocol
pub mod Progress
pub mod Turn
pub mod Vad
pub mod Worker
pub mod Daemon
pub mod Smart
pub mod Log
pub mod Examples

-- ===== src/Daemon/Sessions.antt =====
-- The start and the end of a stream's session (DaemonState::start_session and
-- DaemonState::end_session of crates/speech-core-daemon/src/main.rs).
use speech_core.Base.{
  ◌+◌, ◌%◌, Bool, true, false, String, Option, [], ◌==◌, if◌then◌else◌, is_some, is_some_and,
}
use speech_core.Base.Maps.{lookup, insert, remove}
use speech_core.Turn.Local.{HelloState, Outcome, ok, err}
use speech_core.Daemon.Streams.{StreamState, new_stream}
use speech_core.Daemon.Ingest.{
  Delivery, to_model, to_detector, starts, ends, DaemonState, IngressEnv, deliver,
}

unfoldable pub new_daemon : Bool → Bool → DaemonState
new_daemon has_model has_detector = record {
  sessions = [];
  next_generation = 1;
  has_model = has_model;
  has_detector = has_detector;
  delivered = [];
}

abbrev pub forget_stream : String → DaemonState → DaemonState
forget_stream id w = record w { sessions = remove id w.sessions }

abbrev pub both_of : Outcome (Unit {0}) → Outcome (Unit {0}) → Outcome (Unit {0})
both_of (ok _) r = r
both_of err r = err

abbrev pub owns : HelloState → Option StreamState → Bool
owns hello o = is_some_and o (λ stream. stream.hello.generation == hello.generation)

module _ ⦃env : IngressEnv⦄ where
  -- To a worker that is there.
  abbrev pub deliver_if : Bool → Delivery → DaemonState → Outcome (Unit {0}) × DaemonState
  deliver_if true d w = deliver d w
  deliver_if false d w = (ok tt, w)

  -- The failure of the detectors ends the model's session too, as far as that goes.
  abbrev pub detector_started :
      HelloState → Outcome (Unit {0}) × DaemonState → Outcome HelloState × DaemonState
  detector_started hello (ok _, w) = (ok hello, w)
  detector_started hello (err, w) = (
    err,
    forget_stream hello.stream_session_id
        (deliver_if w.has_model (to_model (ends hello "detector session start failed")) w).1,
  )

  abbrev pub model_started :
      HelloState → Outcome (Unit {0}) × DaemonState → Outcome HelloState × DaemonState
  model_started hello (ok _, w) =
      detector_started hello (deliver_if w.has_detector (to_detector (starts hello)) w)
  model_started hello (err, w) = (err, forget_stream hello.stream_session_id w)

  -- Each attempt takes a generation, whose counter wraps around.
  unfoldable pub start_stream : HelloState → DaemonState → Outcome HelloState × DaemonState
  start_stream offered w =
      let hello = record offered { generation = w.next_generation } in
      let id = hello.stream_session_id in
      let counted = record w { next_generation = (w.next_generation + 1) % 18446744073709551616 } in
      let w' = record counted { sessions = insert id (new_stream hello) w.sessions } in
      if is_some (lookup id w.sessions)
      then (err, counted)
      else model_started hello (deliver_if w.has_model (to_model (starts hello)) w')

  -- Both workers are told, and the session goes if it is still of the same generation.
  unfoldable pub end_stream : HelloState → String → DaemonState → Outcome (Unit {0}) × DaemonState
  end_stream hello reason w =
      let id = hello.stream_session_id in
      let m = deliver_if w.has_model (to_model (ends hello reason)) w in
      let d = deliver_if w.has_detector (to_detector (ends hello reason)) m.1 in
      (both_of m.0 d.0, if owns hello (lookup id d.1.sessions) then forget_stream id d.1 else d.1)

-- ===== src/Daemon/Ingest.antt =====
-- The state of the daemon's streams, and the way of a frame into it (DaemonState::ingest of
-- crates/speech-core-daemon/src/main.rs). The text of a failure is left out.
use speech_core.Base.{
  ℕ, Bool, String, Option, none, some, List, [], ◌∷◌, ◌++◌, if◌then◌else◌, and_then,
}
use speech_core.Base.Int.{ℤ}
use speech_core.Base.Maps.{lookup, insert}
use speech_core.Protocol.Types.{AudioFrame}
use speech_core.Protocol.Latency.{
  LatencyMeasurement, capture_to_ingress_latency, adapter_send_to_ingress_latency,
}
use speech_core.Turn.Local.{HelloState, Outcome, ok, err}
use speech_core.Turn.Manager.Sessions.{AudioGapReset}
use speech_core.Daemon.Streams.{
  AudioGap, AudioSampleGap, StreamState, sequence_gap, seq_gap, sample_gap, advanced,
  from_sample_gap, validate_frame_against_hello,
}

-- What the model worker and the detector worker are told, each over its queue.
pub data Notice : Type 0 where
  starts : HelloState → Notice
  resets : AudioGapReset → Notice
  feeds : AudioFrame → Notice
  ends : HelloState → String → Notice

pub data Delivery : Type 0 where
  to_model to_detector : Notice → Delivery

-- `delivered` has the newest first; the two tests say whether there is such a worker.
pub record DaemonState : Type 0 where
  pub sessions : List (String × StreamState)
  pub next_generation : ℕ  -- u64
  pub has_model : Bool
  pub has_detector : Bool
  pub delivered : List Delivery

-- Whether the queue of a worker takes the newest delivery, or answers with an error.
pub record IngressEnv : Type 0 where
  pub accepts : List Delivery → Bool

-- Of the event, the stamps of the queue's clock and what it copies from the frame are left out.
pub record IngestOutcome : Type 0 where
  pub frames_seen_in_session : ℕ
  pub capture_to_ingress : LatencyMeasurement
  pub adapter_send_to_ingress : LatencyMeasurement
  pub observed_sequence_gap : Option ℤ
  pub observed_seq_gap : Option AudioGap
  pub observed_sample_gap : Option AudioSampleGap

-- `ingress` is the time of the frame's arrival, in nanoseconds.
unfoldable pub outcome_for : StreamState → AudioFrame → ℕ → IngestOutcome
outcome_for stream frame ingress = record {
  frames_seen_in_session = (advanced frame stream).frames_seen;
  capture_to_ingress =
      capture_to_ingress_latency ingress frame.header.source_capture_mono_ns
        frame.header.timestamp_provenance;
  adapter_send_to_ingress =
      adapter_send_to_ingress_latency ingress frame.header.adapter_send_mono_ns
        frame.header.timestamp_provenance;
  observed_sequence_gap = sequence_gap stream frame;
  observed_seq_gap = seq_gap stream frame;
  observed_sample_gap = sample_gap stream frame;
}

-- To the model first, then to the detectors.
abbrev pub to_both : Notice → DaemonState → List Delivery
to_both notice w =
    (if w.has_model then to_model notice ∷ [] else [])
    ++ (if w.has_detector then to_detector notice ∷ [] else [])

abbrev pub reset_deliveries : Option AudioGapReset → DaemonState → List Delivery
reset_deliveries none w = []
reset_deliveries (some reset) w = to_both (resets reset) w

module _ ⦃env : IngressEnv⦄ where
  unfoldable pub deliver : Delivery → DaemonState → Outcome (Unit {0}) × DaemonState
  deliver d w = (
    if env.accepts (d ∷ w.delivered) then ok tt else err,
    record w { delivered = d ∷ w.delivered },
  )

  abbrev pub after_delivery :
      {A : Type 0}
      → (DaemonState → Outcome A × DaemonState)
      → Outcome (Unit {0}) × DaemonState
      → Outcome A × DaemonState
  after_delivery f (ok _, w) = f w
  after_delivery f (err, w) = (err, w)

  -- The first that fails ends it.
  unfoldable pub deliver_all : List Delivery → DaemonState → Outcome (Unit {0}) × DaemonState
  deliver_all [] w = (ok tt, w)
  deliver_all (d ∷ rest) w = after_delivery (deliver_all rest) (deliver d w)

  abbrev pub ingest_stream :
      AudioFrame → ℕ → Option StreamState → DaemonState → Outcome IngestOutcome × DaemonState
  ingest_stream frame ingress none w = (err, w)
  ingest_stream frame ingress (some stream) w =
      let id = frame.header.stream_session_id in
      let w' = record w { sessions = insert id (advanced frame stream) w.sessions } in
      let reset = and_then (sample_gap stream frame) from_sample_gap in
      after_delivery (λ last. (ok (outcome_for stream frame ingress), last))
        (deliver_all (reset_deliveries reset w' ++ to_both (feeds frame) w') w')

  unfoldable pub ingest :
      HelloState → AudioFrame → ℕ → DaemonState → Outcome IngestOutcome × DaemonState
  ingest hello frame ingress w =
      if validate_frame_against_hello hello frame
      then ingest_stream frame ingress (lookup frame.header.stream_session_id w.sessions) w
      else (err, w)

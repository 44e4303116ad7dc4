-- ===== src/Worker/Queue.antt =====
-- The channels to the detector worker and the loop of its thread (DetectorIngress of
-- crates/speech-core-daemon/src/detectors/mod.rs): control commands on a channel without a limit,
-- frames on one that is limited. Replies are left out.
use speech_core.Base.{
  ℕ, max, Bool, true, false, ◌&&◌, ◌||◌, String, List, [], ◌∷◌, ◌++◌, ltb, if◌then◌else◌, length,
}
use speech_core.Protocol.Types.{AudioFrame}
use speech_core.Turn.Local.{HelloState, hello_ids}
use speech_core.Turn.Manager.Sessions.{AudioGapReset}
use speech_core.Daemon.Streams.{from_dropped_frame}
use speech_core.Worker.Commands.{
  TranscriptTokenSignal, DetectorCommand, start_detection, audio_frame, token_committed,
  end_detection, gap_reset_command, shutdown, should_stop,
}

-- Where the loop is: it takes control commands until there are none, then one frame.
pub data LoopPhase : Type 0 where
  taking_controls taking_audio finished : LoopPhase

-- `handled` has the newest command first; `disconnected` says whether the senders are gone.
pub record QueueState : Type 0 where
  pub control : List DetectorCommand
  pub audio : List DetectorCommand
  pub handled : List DetectorCommand
  pub phase : LoopPhase
  pub control_closed : Bool
  pub audio_closed : Bool
  pub graceful_shutdown : Bool
  pub disconnected : Bool

unfoldable pub new_queue : QueueState
new_queue = record {
  control = [];
  audio = [];
  handled = [];
  phase = taking_controls;
  control_closed = false;
  audio_closed = false;
  graceful_shutdown = false;
  disconnected = false;
}

unfoldable pub is_end_session : DetectorCommand → Bool
is_end_session (end_detection ids reason) = true
is_end_session _ = false

-- The worker handles a command, which may end the loop.
unfoldable pub handle_next : DetectorCommand → QueueState → QueueState
handle_next c q = record q {
  handled = c ∷ q.handled;
  graceful_shutdown = q.graceful_shutdown || should_stop c;
}

-- The frames, the oldest first, before those handled.
abbrev pub after_all : List DetectorCommand → List DetectorCommand → List DetectorCommand
after_all [] handled = handled
after_all (c ∷ rest) handled = after_all rest (c ∷ handled)

-- All waiting frames; that one of them may end the loop is not looked at.
unfoldable pub drain_audio : QueueState → QueueState
drain_audio q = record q {
  audio = [];
  handled = after_all q.audio q.handled;
  audio_closed = q.audio_closed || q.disconnected;
}

unfoldable pub take_control : QueueState → QueueState
take_control q = elim q.control as (λ _. QueueState) [
  | [] ↦ record q {
    control_closed = q.control_closed || q.disconnected;
    phase = if q.graceful_shutdown then finished else taking_audio;
  }
  | c ∷ rest ↦
      let taken = record q { control = rest } in
      handle_next c (if is_end_session c then drain_audio taken else taken)
]

unfoldable pub take_audio : QueueState → QueueState
take_audio q = elim q.audio as (λ _. QueueState) [
  | [] ↦
      let closed = q.audio_closed || q.disconnected in
      record q {
        audio_closed = closed;
        phase = if q.control_closed && closed then finished else taking_controls;
      }
  | c ∷ rest ↦
      let heard = handle_next c (record q { audio = rest }) in
      record heard {
        phase =
            if heard.graceful_shutdown || (q.control_closed && q.audio_closed)
            then finished
            else taking_controls;
      }
]

unfoldable pub loop_step : QueueState → QueueState
loop_step q = elim q.phase as (λ _. QueueState) [
  | taking_controls ↦ take_control q
  | taking_audio ↦ take_audio q
  | finished ↦ q
]

-- `ingest_frame`: where the queue is full the frame is dropped, and a reset past it is sent if that
-- could be logged.
unfoldable pub offer_frame : ℕ → Bool → AudioFrame → ℕ → QueueState → QueueState
offer_frame queue_frames logged frame ingress_receive_mono_ns q =
    if ltb (length q.audio) (max queue_frames 1)
    then record q { audio = q.audio ++ audio_frame frame ingress_receive_mono_ns ∷ [] }
    else if logged
    then record q {
      control =
          q.control
          ++ gap_reset_command (from_dropped_frame frame "detector_worker_audio_queue_full") ∷ [];
    }
    else q

-- The other methods each send one control command.
pub data Request : Type 0 where
  start_request : HelloState → Request
  token_request : TranscriptTokenSignal → Request
  end_request : HelloState → String → Request
  reset_request : AudioGapReset → Request
  shutdown_request : Request

unfoldable pub command_of : Request → DetectorCommand
command_of (start_request hello) = start_detection hello
command_of (token_request token) = token_committed token
command_of (end_request hello reason) = end_detection (hello_ids hello) reason
command_of (reset_request gap) = gap_reset_command gap
command_of shutdown_request = shutdown

unfoldable pub send_request : Request → QueueState → QueueState
send_request r q = record q { control = q.control ++ command_of r ∷ [] }

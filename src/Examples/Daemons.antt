-- ===== src/Examples/Daemons.antt =====
-- Runs of the daemon's sessions (crates/speech-core-daemon/src/main.rs).
use speech_core.Base.{true, none, some, [], ◌∷◌, ◌≡◌, ◌≢◌, refl, arith}
use speech_core.Base.Maps.{lookup, insert}
use speech_core.Protocol.Types.{AudioFrame, uncalibrated_provenance}
use speech_core.Turn.Local.{HelloState, ok}
use speech_core.Daemon.Streams.{
  StreamState, new_stream, same_clock_provenance, validate_frame_against_hello,
}
use speech_core.Daemon.Ingest.{DaemonState, IngressEnv, ingest, deliver}
use speech_core.Daemon.Sessions.{new_daemon, start_stream, end_stream}
use speech_core.Daemon.Continuity.{Passage, ingest-Passage}
use speech_core.Daemon.Owners.{end_stream-start_stream}
use speech_core.Examples.Data.{hello, header, frame}

-- Queues that take everything.
abbrev open_env : IngressEnv
open_env = record { accepts = λ deliveries. true }

-- A frame that goes with the hello.
abbrev fitting : AudioFrame
fitting = record frame {
  header = record header {
    source_sample_start = 9000;
    adapter_id = hello.adapter_id;
    stream_id = hello.stream_id;
    stream_session_id = hello.stream_session_id;
    source_kind = hello.source_kind;
    format = hello.format;
    sample_rate_hz = hello.sample_rate_hz;
    channels = hello.channels;
    timestamp_provenance = hello.timestamp_provenance;
  };
}

fitting-IsValid : validate_frame_against_hello hello fitting ≡ true
unfolding validate_frame_against_hello same_clock_provenance uncalibrated_provenance
fitting-IsValid = refl

-- The session has begun, in its generation 1.
abbrev running : DaemonState
running = (start_stream ⦃env = open_env⦄ hello (new_daemon true true)).1

first_generation : start_stream ⦃env = open_env⦄ hello (new_daemon true true) ≡ (ok hello, running)
unfolding start_stream new_daemon deliver lookup insert
first_generation = refl

-- The stream's next sample is its sample 8000.
abbrev interrupted : StreamState
interrupted = record (new_stream hello) { next_seq = some 0; next_sample_start = some 8000 }

abbrev mid_stream : DaemonState
mid_stream = record (new_daemon true true) { sessions = ("s", interrupted) ∷ [] }

-- The first run of this session had another generation.
abbrev earlier : HelloState
earlier = record hello { generation = 7 }

found : lookup "s" mid_stream.sessions ≡ some interrupted
unfolding lookup new_daemon
found = refl

newer : earlier.generation ≢ (new_daemon true true).next_generation
unfolding new_daemon
newer e = ground arith

ingest-Passage_example :
    Passage interrupted fitting 5000000 mid_stream
      (ingest ⦃env = open_env⦄ hello fitting 5000000 mid_stream)
ingest-Passage_example =
    ingest-Passage ⦃env = open_env⦄ (λ deliveries. refl) hello fitting 5000000 interrupted
      mid_stream fitting-IsValid found

end_stream-start_stream_example :
    (lookup "s" (end_stream ⦃env = open_env⦄ earlier "disconnected" running).1.sessions
      ≡ some (new_stream hello))
    × (lookup "s" (end_stream ⦃env = open_env⦄ hello "disconnected" running).1.sessions ≡ none)
end_stream-start_stream_example =
    end_stream-start_stream ⦃env = open_env⦄ hello earlier hello "disconnected"
      (new_daemon true true) running first_generation newer

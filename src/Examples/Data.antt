-- ===== src/Examples/Data.antt =====
-- An environment, a configuration and the signals of one short turn.
use Prim.Native.Char.{code}
use speech_core.Base.{
  Bool, true, false, ◌&&◌, none, some, [], leb, ◌∷◌, String, ◌≡◌, ◌≢◌, str_eq_iff,
}
use speech_core.Base.Int.{pos}
use speech_core.Protocol.Types.{
  AudioFrameHeader, AudioFrame, pcm_s16le, other, pcm_f32le, uncalibrated_provenance, ClockDomain,
  TimestampQuality,
}
use speech_core.Protocol.Codec.{HeaderJson}
use speech_core.Progress.State.{CommittedTokenSnapshot, ModelProgressMap}
use speech_core.Progress.Ops.{start_session, update_audio}
use speech_core.Turn.Config.{TurnManagerConfig, default_config}
use speech_core.Turn.Signals.{
  Ids, ModelDrainHandle, VadSegmentStart, VadSegmentEnd, VadSpeechPresence, VadLowSilence,
  TranscriptTokenCommitted, ModelEou, SemanticTurnDecision, VadAcousticFallback,
}
use speech_core.Turn.Local.{Env, Local, HelloState, new_session}
use speech_core.Turn.Close.{CloseRequest}
use speech_core.Turn.Manager.{TurnManager, new_manager}
use speech_core.Turn.Manager.Sessions.{AudioGapReset}

-- The letters a to z; the log's worker runs; the model commits audio up to sample 8000.
abbrev pub env_with : Bool → Env
env_with stopped = record {
  unicode = record { is_alphanumeric = λ c. leb 97 (code c) && leb (code c) 122 };
  logger_stopped = λ _. stopped;
  worker = λ now p. update_audio "s" 8000 p;
  overshoot_ns = λ now. 0;
}

abbrev pub env : Env
env = env_with false

abbrev pub ids : Ids
ids = record { stream_id = "mic"; stream_session_id = "s"; adapter_id = "a" }

abbrev pub config : TurnManagerConfig
config = record default_config {
  model_eou_close_enabled = true;
  vad_close_enabled = true;
  semantic_gate_enabled = true;
  semantic_gate_close_enabled = true;
  human_hold_silence_ms = 0;
}

abbrev pub progress : ModelProgressMap
progress = start_session "s" 1 []

abbrev pub speech_start : VadSegmentStart
speech_start = record {
  detector = "vad";
  ids = ids;
  start_sample = 100;
  decision_sample = 200;
  confidence = none;
}

abbrev pub speech_end : VadSegmentEnd
speech_end = record {
  detector = "vad";
  ids = ids;
  start_sample = 100;
  end_sample = 6000;
  decision_sample = 7000;
  confidence = none;
}

-- Nothing answers.
abbrev pub silent_drain : ModelDrainHandle
silent_drain = record {
  drain_session =
      λ request now p. record { result = none; elapsed_ns = 800000000; progress = progress };
}

abbrev pub token : TranscriptTokenCommitted
token = record {
  detector = "asr";
  ids = ids;
  token_index = 0;
  text = " hi";
  start_sample = 3000;
  end_sample = 4000;
  decision_sample = 4100;
  confidence = none;
  drain_handle = silent_drain;
}

abbrev pub eou : ModelEou
eou = record {
  detector = "eou";
  ids = ids;
  end_sample = 7000;
  decision_sample = 7500;
  text_delta = "";
  confidence = none;
}

abbrev pub late_eou : ModelEou
late_eou = record eou { end_sample = 8500; decision_sample = 9000 }

abbrev pub incomplete : SemanticTurnDecision
incomplete = record {
  detector = "smart";
  ids = ids;
  end_sample = 6000;
  decision_sample = 7000;
  complete = false;
  probability = none;
  threshold = none;
  timed_out = false;
  available = true;
  reason = "incomplete";
  duration_ms = none;
}

abbrev pub fallback : VadAcousticFallback
fallback = record {
  detector = "vad";
  ids = ids;
  start_sample = 100;
  end_sample = 6000;
  decision_sample = 6900;
  silence_samples = 900;
  confidence = none;
}

abbrev pub hello : HelloState
hello = record {
  adapter_id = "a";
  stream_id = "mic";
  stream_session_id = "s";
  source_kind = other;
  sample_rate_hz = 16000;
  channels = 1;
  format = pcm_f32le;
  timestamp_provenance =
      uncalibrated_provenance "unknown" ClockDomain.unknown TimestampQuality.unknown;
  generation = 1;
}

abbrev pub gap : AudioGapReset
gap = record {
  ids = ids;
  expected_sample_start = 5000;
  observed_sample_start = 9000;
  delta_samples = pos 4000;
  reason = "gap";
}

abbrev pub manager : TurnManager
manager = new_manager config (some progress) (some silent_drain)

-- A turn is open, after the VAD's start.
abbrev pub open_local : Local
open_local = record {
  session = record (new_session hello) {
    open_turn = some (record { turn_id = "s:turn:0"; start_sample = 100 });
    next_turn_index = 1;
    turns_started = 1;
    in_speech = true;
    saw_vad_signal = true;
    last_vad_start_sample = some 100;
  };
  progress = some progress;
  sent = [];
  now_ns = 0;
}

abbrev pub close_request : CloseRequest
close_request = record {
  turn_id = "s:turn:0";
  source = "vad";
  degraded = true;
  detector = "vad";
  confidence = none;
  end_sample = 6000;
  decision_sample = 7000;
  reason = "vad_speech_end";
  turn_start_sample = 100;
}

abbrev pub word : CommittedTokenSnapshot
word = record { index = 0; text = " hi"; start_sample = 3000; end_sample = 4000 }

abbrev pub comma : CommittedTokenSnapshot
comma = record { index = 1; text = ","; start_sample = 4000; end_sample = 4100 }

abbrev pub presence : VadSpeechPresence
presence = record {
  detector = "vad";
  ids = ids;
  start_sample = 100;
  decision_sample = 200000;
  confidence = none;
}

-- The session before any signal.
abbrev pub quiet_local : Local
quiet_local = record {
  session = new_session hello;
  progress = some progress;
  sent = [];
  now_ns = 0;
}

-- A turn is open that a token began.
abbrev pub transcript_local : Local
transcript_local = record quiet_local {
  session = record (new_session hello) {
    open_turn = some (record { turn_id = "s:turn:0"; start_sample = 100 });
    next_turn_index = 1;
    turns_started = 1;
  };
}

abbrev pub low_silence : VadLowSilence
low_silence = record {
  detector = "vad";
  ids = ids;
  start_sample = 5000;
  decision_sample = 30000;
  silence_samples = 25000;
  confidence = none;
}

abbrev pub short_end : VadSegmentEnd
short_end = record {
  detector = "vad";
  ids = ids;
  start_sample = 100;
  end_sample = 600;
  decision_sample = 900;
  confidence = none;
}

-- A frame of two samples, and a JSON codec that knows its header alone, as the text "{}".
abbrev pub header : AudioFrameHeader
header = record {
  stream_id = "mic";
  stream_session_id = "s";
  adapter_id = "a";
  source_kind = other;
  seq = 0;
  format = pcm_s16le;
  sample_rate_hz = 16000;
  channels = 1;
  source_sample_start = 0;
  sample_count = 2;
  source_capture_mono_ns = 5;
  adapter_send_mono_ns = 6;
  timestamp_provenance =
      uncalibrated_provenance "unknown" ClockDomain.unknown TimestampQuality.unknown;
  preceding_source_gap = none;
}

abbrev pub frame : AudioFrame
frame = record { header = header; payload = 1 ∷ 2 ∷ 3 ∷ 4 ∷ [] }

abbrev pub header_json : HeaderJson
header_json = record { to_vec = λ _. some (123 ∷ 125 ∷ []); from_slice = λ _. some header }

pub session_ids_differ : ◌≢◌ {A = String} "t" "s"
session_ids_differ e = never ((str_eq_iff "t" "s").1 e)
  where
    never : false ≡ true → ⊥
    never h = cc

-- The same frame with its last byte missing.
abbrev pub short_frame : AudioFrame
short_frame = record { header = header; payload = 1 ∷ 2 ∷ 3 ∷ [] }

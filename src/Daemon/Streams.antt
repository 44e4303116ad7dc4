-- ===== src/Daemon/Streams.antt =====
-- Streams, their gaps and what is passed on of them (crates/speech-core-daemon/src/main.rs, and the
-- gap events of crates/speech-core-protocol/src/lib.rs).
use speech_core.Base.{
  ℕ, ◌-◌, Bool, true, false, ◌&&◌, String, str_eq, Option, none, some, ltb, leb, ◌==◌, opt_eq,
  if◌then◌else◌, is_some, is_none,
}
use speech_core.Base.Int.{ℤ, pos, negsuc}
use speech_core.Base.Words.{saturating_add}
use speech_core.Protocol.Types.{
  SourceKind, mic, discord, browser, file, synthetic, other, PcmFormat, pcm_s16le, pcm_f32le,
  ClockDomain, TimestampSemantics, ClockComparability, TimestampProvenance, SourceSampleGap,
  AudioFrame,
}
use speech_core.Turn.Signals.{Ids}
use speech_core.Turn.Local.{HelloState}
use speech_core.Turn.Manager.Sessions.{AudioGapReset}

pub record AudioGap : Type 0 where
  pub ids : Ids
  pub expected_seq : ℕ  -- u64
  pub observed_seq : ℕ  -- u64
  pub missing_frames : ℕ  -- u64

pub record AudioSampleGap : Type 0 where
  pub ids : Ids
  pub expected_sample_start : ℕ  -- u64
  pub observed_sample_start : ℕ  -- u64
  pub delta_samples : ℤ  -- i64
  pub declared_source_gap : Option SourceSampleGap

pub record StreamState : Type 0 where
  pub hello : HelloState
  pub next_seq : Option ℕ
  pub next_sample_start : Option ℕ
  pub frames_seen : ℕ  -- u64

unfoldable pub new_stream : HelloState → StreamState
new_stream hello = record {
  hello = hello;
  next_seq = none;
  next_sample_start = none;
  frames_seen = 0;
}

-- The difference is clamped to i64: at most 2^63 - 1, at least -2^63.
unfoldable pub signed_u64_delta : ℕ → ℕ → ℤ
signed_u64_delta observed expected =
    if leb expected observed
    then (if ltb 9223372036854775807 (observed - expected)
        then pos 9223372036854775807
        else pos (observed - expected))
    else if ltb 9223372036854775808 (expected - observed)
    then negsuc 9223372036854775807
    else negsuc (expected - observed - 1)

abbrev pub frame_ids : AudioFrame → Ids
frame_ids frame = record {
  stream_id = frame.header.stream_id;
  stream_session_id = frame.header.stream_session_id;
  adapter_id = frame.header.adapter_id;
}

unfoldable pub sequence_gap : StreamState → AudioFrame → Option ℤ
sequence_gap stream frame = elim stream.next_seq [
  | none ↦ none
  | some expected ↦
      if frame.header.seq == expected
      then none
      else some (signed_u64_delta frame.header.seq expected)
]

unfoldable pub seq_gap : StreamState → AudioFrame → Option AudioGap
seq_gap stream frame = elim stream.next_seq [
  | none ↦ none
  | some expected ↦
      if ltb expected frame.header.seq
      then some (record {
        ids = frame_ids frame;
        expected_seq = expected;
        observed_seq = frame.header.seq;
        missing_frames = frame.header.seq - expected;
      })
      else none
]

unfoldable pub gap_from : AudioFrame → ℕ → ℤ → AudioSampleGap
gap_from frame expected delta = record {
  ids = frame_ids frame;
  expected_sample_start = expected;
  observed_sample_start = frame.header.source_sample_start;
  delta_samples = delta;
  declared_source_gap = frame.header.preceding_source_gap;
}

-- A frame that declares a gap has one, also where its samples go on.
abbrev pub declared_gap : AudioFrame → ℕ → Option AudioSampleGap
declared_gap frame expected =
    if is_some frame.header.preceding_source_gap
    then some (gap_from frame expected (pos 0))
    else none

unfoldable pub sample_gap : StreamState → AudioFrame → Option AudioSampleGap
sample_gap stream frame = elim stream.next_sample_start [
  | none ↦ declared_gap frame frame.header.source_sample_start
  | some expected ↦
      if frame.header.source_sample_start == expected
      then declared_gap frame expected
      else some
          (gap_from frame expected (signed_u64_delta frame.header.source_sample_start expected))
]

unfoldable pub advanced : AudioFrame → StreamState → StreamState
advanced frame stream = record stream {
  next_seq = some (saturating_add frame.header.seq 1);
  next_sample_start =
      some (saturating_add frame.header.source_sample_start frame.header.sample_count);
  frames_seen = saturating_add stream.frames_seen 1;
}

abbrev pub is_zero : ℤ → Bool
is_zero (pos n) = n == 0
is_zero (negsuc n) = false

abbrev pub gap_reason : Option SourceSampleGap → String
gap_reason none = "sample_clock_discontinuity"
gap_reason (some source_gap) = source_gap.reason

unfoldable pub from_sample_gap : AudioSampleGap → Option AudioGapReset
from_sample_gap gap =
    if is_zero gap.delta_samples && is_none gap.declared_source_gap
    then none
    else some (record {
      ids = gap.ids;
      expected_sample_start = gap.expected_sample_start;
      observed_sample_start = gap.observed_sample_start;
      delta_samples = gap.delta_samples;
      reason = gap_reason gap.declared_source_gap;
    })

unfoldable pub from_dropped_frame : AudioFrame → String → AudioGapReset
from_dropped_frame frame reason =
    let observed = saturating_add frame.header.source_sample_start frame.header.sample_count in
    record {
      ids = frame_ids frame;
      expected_sample_start = frame.header.source_sample_start;
      observed_sample_start = observed;
      delta_samples = signed_u64_delta observed frame.header.source_sample_start;
      reason = reason;
    }

-- The derived equality of the data types of a header.
abbrev pub kind_index : SourceKind → ℕ
kind_index mic = 0
kind_index discord = 1
kind_index browser = 2
kind_index file = 3
kind_index synthetic = 4
kind_index other = 5

abbrev pub format_index : PcmFormat → ℕ
format_index pcm_s16le = 0
format_index pcm_f32le = 1

abbrev pub domain_index : ClockDomain → ℕ
domain_index ClockDomain.host_monotonic = 0
domain_index ClockDomain.cpal_input_stream = 1
domain_index ClockDomain.synthetic_adapter = 2
domain_index ClockDomain.unknown = 3

abbrev pub semantics_index : TimestampSemantics → ℕ
semantics_index TimestampSemantics.first_sample = 0
semantics_index TimestampSemantics.frame_end = 1
semantics_index TimestampSemantics.unknown = 2

abbrev pub comparability_index : ClockComparability → ℕ
comparability_index ClockComparability.same_clock = 0
comparability_index ClockComparability.estimated_offset = 1
comparability_index ClockComparability.uncalibrated = 2

abbrev pub int_eq : ℤ → ℤ → Bool
int_eq (pos m) (pos n) = m == n
int_eq (negsuc m) (negsuc n) = m == n
int_eq _ _ = false

abbrev pub opt_int_eq : Option ℤ → Option ℤ → Bool
opt_int_eq none none = true
opt_int_eq (some a) (some b) = int_eq a b
opt_int_eq _ _ = false

-- The quality of the timestamps may change within a stream.
unfoldable pub same_clock_provenance : TimestampProvenance → TimestampProvenance → Bool
same_clock_provenance p q =
    str_eq p.adapter_clock_id q.adapter_clock_id
    && domain_index p.adapter_clock_domain == domain_index q.adapter_clock_domain
    && semantics_index p.timestamp_semantics == semantics_index q.timestamp_semantics
    && comparability_index p.clock_comparability == comparability_index q.clock_comparability
    && opt_int_eq p.estimated_daemon_offset_ns q.estimated_daemon_offset_ns
    && opt_eq p.estimated_offset_uncertainty_ns q.estimated_offset_uncertainty_ns

unfoldable pub validate_frame_against_hello : HelloState → AudioFrame → Bool
validate_frame_against_hello hello frame =
    let h = frame.header in
    str_eq h.adapter_id hello.adapter_id
    && str_eq h.stream_id hello.stream_id
    && str_eq h.stream_session_id hello.stream_session_id
    && kind_index h.source_kind == kind_index hello.source_kind
    && format_index h.format == format_index hello.format
    && h.sample_rate_hz == hello.sample_rate_hz
    && h.channels == hello.channels
    && same_clock_provenance h.timestamp_provenance hello.timestamp_provenance

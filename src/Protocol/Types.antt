-- ===== src/Protocol/Types.antt =====
-- The data types of crates/speech-core-protocol/src/lib.rs that travel with the audio.
use speech_core.Base.{ℕ, String, Option, none, List}
use speech_core.Base.Int.{ℤ}

pub data SourceKind : Type 0 where
  mic discord browser file synthetic other : SourceKind

pub data PcmFormat : Type 0 where
  pcm_s16le pcm_f32le : PcmFormat

unfoldable pub bytes_per_sample : PcmFormat → ℕ
bytes_per_sample pcm_s16le = 2
bytes_per_sample pcm_f32le = 4

pub data ClockDomain : Type 0 where
  host_monotonic cpal_input_stream synthetic_adapter unknown : ClockDomain

pub data TimestampQuality : Type 0 where
  source_capture callback_receive synthetic_scheduled unknown : TimestampQuality

pub data TimestampSemantics : Type 0 where
  first_sample frame_end unknown : TimestampSemantics

pub data ClockComparability : Type 0 where
  same_clock estimated_offset uncalibrated : ClockComparability

pub record TimestampProvenance : Type 0 where
  pub adapter_clock_id : String
  pub adapter_clock_domain : ClockDomain
  pub timestamp_quality : TimestampQuality
  pub timestamp_semantics : TimestampSemantics
  pub clock_comparability : ClockComparability
  pub estimated_daemon_offset_ns : Option ℤ  -- i64
  pub estimated_offset_uncertainty_ns : Option ℕ  -- u64

unfoldable pub uncalibrated_provenance :
    String → ClockDomain → TimestampQuality → TimestampProvenance
uncalibrated_provenance clock_id domain quality = record {
  adapter_clock_id = clock_id;
  adapter_clock_domain = domain;
  timestamp_quality = quality;
  timestamp_semantics = TimestampSemantics.first_sample;
  clock_comparability = ClockComparability.uncalibrated;
  estimated_daemon_offset_ns = none;
  estimated_offset_uncertainty_ns = none;
}

pub record SourceSampleGap : Type 0 where
  pub dropped_samples : ℕ  -- u64
  pub dropped_frames_estimate : ℕ  -- u64
  pub adapter_total_dropped_samples : ℕ  -- u64
  pub adapter_total_dropped_buffers : ℕ  -- u64
  pub reason : String

pub record AudioFrameHeader : Type 0 where
  pub stream_id : String
  pub stream_session_id : String
  pub adapter_id : String
  pub source_kind : SourceKind
  pub seq : ℕ  -- u64
  pub format : PcmFormat
  pub sample_rate_hz : ℕ  -- u32
  pub channels : ℕ  -- u16
  pub source_sample_start : ℕ  -- u64
  pub sample_count : ℕ  -- u32
  pub source_capture_mono_ns : ℕ  -- u64
  pub adapter_send_mono_ns : ℕ  -- u64
  pub timestamp_provenance : TimestampProvenance
  pub preceding_source_gap : Option SourceSampleGap

pub record AudioFrame : Type 0 where
  pub header : AudioFrameHeader
  pub payload : List ℕ  -- bytes

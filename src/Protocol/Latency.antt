-- ===== src/Protocol/Latency.antt =====
-- The latencies of a frame (capture_to_ingress_latency, adapter_send_to_ingress_latency and
-- cross_clock_latency of crates/speech-core-protocol/src/lib.rs). The source divides nanoseconds by
-- 1000000.0 to milliseconds, as f64; here they stay nanoseconds.
use speech_core.Base.{ℕ, ◌+◌, ◌-◌, Option, none, some}
use speech_core.Base.Int.{ℤ, pos, negsuc}
use speech_core.Base.Words.{saturating_add}
use speech_core.Protocol.Types.{
  ClockComparability, TimestampQuality, TimestampSemantics, TimestampProvenance,
}

pub data LatencyStatus : Type 0 where
  same_clock estimated_offset uncalibrated timestamp_quality_insufficient
        timestamp_semantics_unsupported :
      LatencyStatus

pub record LatencyMeasurement : Type 0 where
  pub value_ns : Option ℕ
  pub status : LatencyStatus
  pub uncertainty_ns : Option ℕ

abbrev pub unknown_latency : LatencyStatus → LatencyMeasurement
unknown_latency status = record { value_ns = none; status = status; uncertainty_ns = none }

-- The adapter's time on the daemon's clock, by an offset that is an i64.
unfoldable pub adjusted_adapter_ns : ℕ → ℤ → ℕ
adjusted_adapter_ns adapter_ns (pos offset) = saturating_add adapter_ns offset
adjusted_adapter_ns adapter_ns (negsuc n) = adapter_ns - (n + 1)

abbrev pub offset_latency : ℕ → ℕ → Option ℕ → Option ℤ → LatencyMeasurement
offset_latency daemon_ns adapter_ns uncertainty none = unknown_latency uncalibrated
offset_latency daemon_ns adapter_ns uncertainty (some offset) = record {
  value_ns = some (daemon_ns - adjusted_adapter_ns adapter_ns offset);
  status = estimated_offset;
  uncertainty_ns = uncertainty;
}

unfoldable pub cross_clock_latency : ℕ → ℕ → TimestampProvenance → LatencyMeasurement
cross_clock_latency daemon_ns adapter_ns p = elim p.clock_comparability [
  | ClockComparability.same_clock ↦ record {
    value_ns = some (daemon_ns - adapter_ns);
    status = same_clock;
    uncertainty_ns = none;
  }
  | ClockComparability.estimated_offset ↦
      offset_latency daemon_ns adapter_ns p.estimated_offset_uncertainty_ns
        p.estimated_daemon_offset_ns
  | ClockComparability.uncalibrated ↦ unknown_latency uncalibrated
]

-- Only a capture time of the source, of the first sample, can be compared.
abbrev pub checked_semantics : TimestampSemantics → LatencyMeasurement → LatencyMeasurement
checked_semantics TimestampSemantics.first_sample latency = latency
checked_semantics _ latency = unknown_latency timestamp_semantics_unsupported

abbrev pub checked_quality : TimestampQuality → LatencyMeasurement → LatencyMeasurement
checked_quality TimestampQuality.source_capture latency = latency
checked_quality _ latency = unknown_latency timestamp_quality_insufficient

unfoldable pub capture_to_ingress_latency : ℕ → ℕ → TimestampProvenance → LatencyMeasurement
capture_to_ingress_latency daemon_ns source_capture_ns p =
    let checked = checked_quality p.timestamp_quality (
      checked_semantics p.timestamp_semantics
        (cross_clock_latency daemon_ns source_capture_ns p)) in
    elim p.clock_comparability [
      | ClockComparability.uncalibrated ↦ unknown_latency uncalibrated
      | _ ↦ checked
    ]

unfoldable pub adapter_send_to_ingress_latency : ℕ → ℕ → TimestampProvenance → LatencyMeasurement
adapter_send_to_ingress_latency daemon_ns adapter_send_ns p =
    cross_clock_latency daemon_ns adapter_send_ns p

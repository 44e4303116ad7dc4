-- ===== src/Vad/Changes.antt =====
-- What a frame, an action and a gap do to one session of the voice activity detector (VadSession
-- and SileroVadDetector of crates/speech-core-daemon/src/detectors/vad.rs).
use speech_core.Base.{
  ℕ, ◌-◌, Bool, true, false, ◌||◌, String, str_eq, none, List, [], ◌++◌, ◌==◌, if◌then◌else◌,
  length, take, drop, replicate,
}
use speech_core.Base.Words.{saturating_add}
use speech_core.Protocol.Types.{AudioFrame}
use speech_core.Vad.Config.{frame_samples}
use speech_core.Vad.Local.{VadSession, reset_after_forced_close}

unfoldable pub push_samples : AudioFrame → List ℕ → VadSession → VadSession
push_samples frame samples s = record s {
  next_vad_frame_sample_start =
      if length s.buffer == 0
      then frame.header.source_sample_start
      else s.next_vad_frame_sample_start;
  buffer = s.buffer ++ samples;
}

-- `Vec::resize`.
unfoldable pub resize : ℕ → ℕ → List ℕ → List ℕ
resize n x xs = take n xs ++ replicate (n - length xs) x

unfoldable pub window_taken : VadSession → VadSession
window_taken s = record s {
  buffer = drop frame_samples s.buffer;
  next_vad_frame_sample_start = saturating_add s.next_vad_frame_sample_start frame_samples;
}

unfoldable pub reset_requires_low_release : String → Bool
reset_requires_low_release reason =
    str_eq reason "smart_turn_complete_direct"
    || str_eq reason "human_hold_speech_like_audio_without_tokens"
    || str_eq reason "vad_acoustic_fallback_low_probability_silence"
    || str_eq reason "transcript_backed_turn_low_vad_silence"

abbrev pub forget_segment : VadSession → VadSession
forget_segment s = record s {
  acoustic_fallback_emitted = true;
  last_segment_start_sample = none;
  last_segment_end_sample = none;
  last_segment_end_confidence = none;
}

-- What an action does to its session.
unfoldable pub action_taken : String → VadSession → VadSession
action_taken reason s =
    if reset_requires_low_release reason
    then reset_after_forced_close (forget_segment s)
    else forget_segment s

-- What a gap does to its session.
unfoldable pub gap_taken : ℕ → VadSession → VadSession
gap_taken observed_sample_start s = record s {
  buffer = [];
  next_vad_frame_sample_start = observed_sample_start;
  in_speech = false;
  onset_counter = 0;
  candidate_start_sample = none;
  silence_start_sample = none;
  silence_counter = 0;
  current_segment_start_sample = none;
  last_voice_sample_end = none;
  last_raw_is_speech = none;
  last_smoothed_in_speech = none;
  low_silence_start_sample = none;
  acoustic_fallback_emitted = true;
}

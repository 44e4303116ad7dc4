-- ===== src/Vad/Tracked.antt =====
-- Proofs on what the counters of a voice activity session mean, and on the changes that a window
-- makes in them (VadSession of crates/speech-core-daemon/src/detectors/vad.rs).
use speech_core.Base.{
  ℕ, ◌<◌, ◌≤◌, max, true, false, ◌&&◌, ◌||◌, none, List, ◌≡◌, refl, ◌==◌, is_some, is_none, arith,
  if_cases,
}
use speech_core.Base.Words.{u64_max, saturating_add}
use speech_core.Vad.Config.{Float, SileroVadConfig}
use speech_core.Vad.Local.{VadSession, release_forced_close_rearm}
use speech_core.Vad.Levels.{
  Levels, is_low, release_if_low, voice_heard, silence_heard, segment_ended, onset_heard,
  segment_started,
}
use speech_core.Vad.Machine.{Control, control_of}

-- The counts of windows are values of type usize.
pub record IsSized (config : SileroVadConfig) : Type 0 where
  pub onset : config.onset_frames ≤ u64_max
  pub hangover : config.hangover_frames ≤ u64_max

-- A session in speech has a segment and no onset; one that is quiet has neither a segment nor a
-- silence; a counter is short of its limit, and stands with its sample; a fallback can only come
-- for a segment that is known.
pub record IsTracked (c : Control) : Type 0 where
  pub speech_onset : c.in_speech ≡ true → c.onset_counter ≡ 0
  pub speech_armed : c.in_speech ≡ true → c.forced_close_rearm_required ≡ false
  pub speech_segment : c.in_speech ≡ is_some c.current_segment_start_sample
  pub speech_emitted : c.in_speech ≡ true → c.acoustic_fallback_emitted ≡ true
  pub quiet_silence : c.in_speech ≡ false → c.silence_counter ≡ 0
  pub below_hangover : c.silence_counter < max c.kept.config.hangover_frames 1
  pub below_onset : c.onset_counter < max c.kept.config.onset_frames 1
  pub silence_start : (c.silence_counter == 0) ≡ is_none c.silence_start_sample
  pub candidate : (c.onset_counter == 0 || is_some c.candidate_start_sample) ≡ true
  pub fallback_segment :
      c.acoustic_fallback_emitted ≡ false
      → (is_some c.last_segment_start_sample && is_some c.last_segment_end_sample) ≡ true

module _ (s : VadSession) (t : IsTracked (control_of s)) where
  pub release_if_low-IsTracked :
      (float : Float) (v : Levels) → IsTracked (control_of (release_if_low float v s))
  unfolding release_if_low release_forced_close_rearm
  release_if_low-IsTracked float v =
      if_cases (λ r. IsTracked (control_of r)) (s.forced_close_rearm_required && is_low float v)
        (λ h. record {
          speech_onset = λ _. refl;
          speech_armed = λ _. refl;
          speech_segment = t.speech_segment;
          speech_emitted = t.speech_emitted;
          quiet_silence = t.quiet_silence;
          below_hangover = t.below_hangover;
          below_onset = omega arith;
          silence_start = t.silence_start;
          candidate = refl;
          fallback_segment = t.fallback_segment;
        })
        λ h. t

  -- The counters of a session in speech.
  pub voice_heard-IsTracked : (v : Levels) → IsTracked (control_of (voice_heard v s))
  unfolding voice_heard
  voice_heard-IsTracked v = record {
    speech_onset = t.speech_onset;
    speech_armed = t.speech_armed;
    speech_segment = t.speech_segment;
    speech_emitted = t.speech_emitted;
    quiet_silence = λ _. refl;
    below_hangover = omega arith;
    below_onset = t.below_onset;
    silence_start = refl;
    candidate = t.candidate;
    fallback_segment = t.fallback_segment;
  }

  pub silence_heard-IsTracked :
      (v : Levels)
      → s.in_speech ≡ true
      → saturating_add s.silence_counter 1 < max s.config.hangover_frames 1
      → IsTracked (control_of (silence_heard v s))
  unfolding silence_heard
  silence_heard-IsTracked v e below = record {
    speech_onset = t.speech_onset;
    speech_armed = t.speech_armed;
    speech_segment = t.speech_segment;
    speech_emitted = t.speech_emitted;
    quiet_silence = λ f. cc;
    below_hangover = below;
    below_onset = t.below_onset;
    silence_start = ground (arith, t.silence_start);
    candidate = t.candidate;
    fallback_segment = t.fallback_segment;
  }

  pub segment_ended-IsTracked :
      (v : Levels)
      → s.in_speech ≡ true
      → IsTracked (control_of (segment_ended v (record (silence_heard v s) { in_speech = false })))
  unfolding segment_ended silence_heard
  segment_ended-IsTracked v e = record {
    speech_onset = λ h. cc;
    speech_armed = λ h. cc;
    speech_segment = refl;
    speech_emitted = λ h. cc;
    quiet_silence = λ _. refl;
    below_hangover = omega arith;
    below_onset = t.below_onset;
    silence_start = refl;
    candidate = t.candidate;
    fallback_segment = λ _. refl;
  }

  pub forgotten-IsTracked :
      s.in_speech ≡ false
      → IsTracked (control_of (record s { onset_counter = 0; candidate_start_sample = none }))
  forgotten-IsTracked e = record {
    speech_onset = λ _. refl;
    speech_armed = t.speech_armed;
    speech_segment = t.speech_segment;
    speech_emitted = t.speech_emitted;
    quiet_silence = t.quiet_silence;
    below_hangover = t.below_hangover;
    below_onset = omega arith;
    silence_start = t.silence_start;
    candidate = refl;
    fallback_segment = t.fallback_segment;
  }

  pub onset_heard-IsTracked :
      (v : Levels)
      → s.in_speech ≡ false
      → saturating_add s.onset_counter 1 < max s.config.onset_frames 1
      → IsTracked (control_of (onset_heard v s))
  unfolding onset_heard
  onset_heard-IsTracked v e below = record {
    speech_onset = λ h. cc;
    speech_armed = t.speech_armed;
    speech_segment = t.speech_segment;
    speech_emitted = t.speech_emitted;
    quiet_silence = t.quiet_silence;
    below_hangover = t.below_hangover;
    below_onset = below;
    silence_start = t.silence_start;
    candidate = ground (arith, t.candidate);
    fallback_segment = t.fallback_segment;
  }

  pub segment_started-IsTracked :
      (v : Levels)
      → s.in_speech ≡ false
      → s.forced_close_rearm_required ≡ false
      → IsTracked (control_of (segment_started v (onset_heard v s)))
  unfolding segment_started onset_heard
  segment_started-IsTracked v e armed = record {
    speech_onset = λ _. refl;
    speech_armed = λ _. armed;
    speech_segment = refl;
    speech_emitted = λ _. refl;
    quiet_silence = λ h. t.quiet_silence e;
    below_hangover = t.below_hangover;
    below_onset = omega arith;
    silence_start = t.silence_start;
    candidate = refl;
    fallback_segment = λ h. cc;
  }

-- The audio that waits has no part in it.
pub rebuffered-IsTracked :
    (buffer : List ℕ) (next_start : ℕ) (s : VadSession)
    → IsTracked (control_of s)
    → IsTracked
        (control_of (record s { buffer = buffer; next_vad_frame_sample_start = next_start }))
rebuffered-IsTracked buffer next_start s t = record {
  speech_onset = t.speech_onset;
  speech_armed = t.speech_armed;
  speech_segment = t.speech_segment;
  speech_emitted = t.speech_emitted;
  quiet_silence = t.quiet_silence;
  below_hangover = t.below_hangover;
  below_onset = t.below_onset;
  silence_start = t.silence_start;
  candidate = t.candidate;
  fallback_segment = t.fallback_segment;
}

-- ===== src/Vad/Rest.antt =====
-- Proofs on what a window's low silence, its fallback and its events leave alone (process_vad_frame
-- of crates/speech-core-daemon/src/detectors/vad.rs).
use speech_core.Base.{
  ℕ, ◌-◌, Bool, true, false, ◌&&◌, not, Option, none, some, List, [], ◌≡◌, refl, ◌∙◌, ap, leb,
  if◌then◌else◌, arith, if_both,
}
use speech_core.Turn.Config.{ms_to_samples}
use speech_core.Vad.Events.{VadEvent}
use speech_core.Turn.Signals.{DetectorSignal}
use speech_core.Vad.Local.{VadEnv, VadSession, VadLocal, VadResult, done, V}
use speech_core.Vad.Levels.{Levels}
use speech_core.Vad.Frame.{
  low_silence, acoustic_fallback, fallback_after, fall_back, report_state, report_meter,
  report_frame, write_if, reported, fallback_level,
}
use speech_core.Vad.Machine.{control_of, lull_if, phase_of, hearing_of, marks_of}
use speech_core.Vad.Yields.{
  Yields, yields, IsLogging, Yields-proceed, Yields-weaken, Yields-write, Yields-after_write,
}
use speech_core.Vad.Tracked.{IsTracked}

-- No window's fallback is a segment's: at most it is noted as sent.
pub record FallbackEnd (s : VadSession) (signals : List DetectorSignal) (after : VadSession)
    : Type 0 where
  pub unmarked : marks_of signals ≡ []
  pub same_phase : phase_of (control_of after) ≡ phase_of (control_of s)
  pub same_kept : (control_of after).kept ≡ (control_of s).kept
  pub tracked : IsTracked (control_of s) → IsTracked (control_of after)

module _ ⦃env : VadEnv⦄ (live : IsLogging env) (v : Levels) where
  abbrev pub LowEnd : VadSession → List DetectorSignal → VadSession → Type 0
  LowEnd s signals after =
      (control_of after ≡ control_of s)
      × (marks_of signals ≡ (if s.in_speech then [] else lull_if (hearing_of env.float v s)))

  pub low_silence-LowEnd : (l : VadLocal) → Yields (LowEnd l.session) (low_silence v l)
  unfolding low_silence marks_of
  low_silence-LowEnd l = yields _ _ (refl, ground arith)

  fall_back-FallbackEnd :
      (start_sample end_sample : ℕ) (l : VadLocal)
      → Yields (FallbackEnd l.session) (fall_back v start_sample end_sample l)
  unfolding fall_back marks_of phase_of
  fall_back-FallbackEnd start_sample end_sample l = Yields-after_write live _ _ _ (
      yields _ _ (record {
        unmarked = refl;
        same_phase = refl;
        same_kept = refl;
        tracked = λ t. record {
          speech_onset = t.speech_onset;
          speech_armed = t.speech_armed;
          speech_segment = t.speech_segment;
          speech_emitted = λ _. refl;
          quiet_silence = t.quiet_silence;
          below_hangover = t.below_hangover;
          below_onset = t.below_onset;
          silence_start = t.silence_start;
          candidate = t.candidate;
          fallback_segment = λ h. cc;
        };
      }))

  nothing-FallbackEnd : (l : VadLocal) → Yields (FallbackEnd l.session) (done [], l)
  unfolding marks_of
  nothing-FallbackEnd l =
      yields _ _ (record { unmarked = refl; same_phase = refl; same_kept = refl; tracked = λ t. t })

  fallback_after-FallbackEnd :
      (start end_ : Option ℕ) (l : VadLocal)
      → Yields (FallbackEnd l.session) (fallback_after v l.session start end_ l)
  fallback_after-FallbackEnd none end_ l = nothing-FallbackEnd l
  fallback_after-FallbackEnd (some start) none l = nothing-FallbackEnd l
  fallback_after-FallbackEnd (some start) (some end_) l =
      if_both (λ (m : V (List DetectorSignal)). Yields (FallbackEnd l.session) (m l))
        (leb (ms_to_samples l.session.config.acoustic_fallback_silence_ms) (v.frame_end - end_))
        (fall_back-FallbackEnd start end_ l) (nothing-FallbackEnd l)

  pub acoustic_fallback-FallbackEnd :
      (l : VadLocal) → Yields (FallbackEnd l.session) (acoustic_fallback v l)
  unfolding acoustic_fallback
  acoustic_fallback-FallbackEnd l =
      if_both (λ (m : V (List DetectorSignal)). Yields (FallbackEnd l.session) (m l))
        (not l.session.in_speech
          && not l.session.acoustic_fallback_emitted
          && env.float.le v.smoothed (fallback_level env.float l.session))
        (fallback_after-FallbackEnd _ _ l) (nothing-FallbackEnd l)

  -- The work leaves the segments alone.
  Keeps : VadLocal → VadResult (Unit {0}) × VadLocal → Type 0
  Keeps l r = Yields (λ _ s. control_of s ≡ control_of l.session) r

  write_if-Keeps : (news : Bool) (e : VadEvent) (l : VadLocal) → Keeps l (write_if news e l)
  unfolding write_if Keeps
  write_if-Keeps true e l = Yields-weaken (λ _ s same. ap control_of same) (Yields-write live e l)
  write_if-Keeps false e l = yields _ _ refl

  report_state-Keeps : (l : VadLocal) → Keeps l (report_state v l)
  unfolding report_state Keeps
  report_state-Keeps l = write_if-Keeps _ _ _

  report_meter-Keeps : (l : VadLocal) → Keeps l (report_meter v l)
  unfolding report_meter Keeps
  report_meter-Keeps l = Yields-weaken (λ _ s same. ap control_of same) (Yields-write live _ l)

  report_frame-Keeps : (l : VadLocal) → Keeps l (report_frame v l)
  unfolding report_frame Keeps
  report_frame-Keeps l = write_if-Keeps _ _ _

  pub reported-Keeps :
      (signals : List DetectorSignal) (l : VadLocal)
      → Yields (λ a s. (a ≡ signals) × (control_of s ≡ control_of l.session)) (reported v signals l)
  unfolding reported Keeps
  reported-Keeps signals l = Yields-proceed (report_state-Keeps l) λ _ l1 same1.
      Yields-proceed (report_meter-Keeps l1) λ _ l2 same2.
        Yields-proceed (report_frame-Keeps l2)
          λ _ l3 same3. yields _ _ (refl, same3 ∙ same2 ∙ same1)

-- ===== src/Vad/Follow.antt =====
-- Proofs on how a session moves by the levels of a window (process_vad_frame of
-- crates/speech-core-daemon/src/detectors/vad.rs).
use speech_core.Base.{List, ◌++◌, ◌≡◌, sym, ◌∙◌, ap, subst}
use speech_core.Turn.Signals.{DetectorSignal}
use speech_core.Vad.Config.{Float}
use speech_core.Vad.Local.{VadEnv, VadSession, VadLocal}
use speech_core.Vad.Levels.{Levels, release_if_low, note_levels}
use speech_core.Vad.Frame.{follow_levels}
use speech_core.Vad.Machine.{control_of, machine_step, phase_of, windows_of, hearing_of, marks_of}
use speech_core.Vad.Yields.{Yields, IsLogging, Yields-proceed, Yields-weaken}
use speech_core.Vad.Tracked.{IsSized, IsTracked, release_if_low-IsTracked}
use speech_core.Vad.Moves.{release_if_low-machine_step, release_if_low-kept, release_if_low-held}
use speech_core.Vad.Refines.{speech_step-SpeechEnd}
use speech_core.Vad.Marks.{same_pair, marks_of-three}
use speech_core.Vad.Rest.{low_silence-LowEnd, acoustic_fallback-FallbackEnd, reported-Keeps}

-- A window moves the session as the machine does, and it stays tracked.
pub record WindowEnd (float : Float) (v : Levels) (s : VadSession) (signals : List DetectorSignal)
    (after : VadSession) : Type 0 where
  pub moved :
      (phase_of (control_of after), marks_of signals)
      ≡ machine_step (windows_of s.config) (hearing_of float v s) (phase_of (control_of s))
  pub tracked : IsTracked (control_of after)
  pub same_kept : (control_of after).kept ≡ (control_of s).kept

module _ ⦃env : VadEnv⦄ (live : IsLogging env) (v : Levels) where
  -- The release, the speech step and what comes after it are one move of the machine.
  pub follow_levels-WindowEnd :
      (l : VadLocal)
      → IsTracked (control_of l.session)
      → IsSized l.session.config
      → Yields (WindowEnd env.float v l.session) (follow_levels v l)
  unfolding follow_levels note_levels
  follow_levels-WindowEnd l t sized =
      let s = note_levels v l.session in
      let l1 : VadLocal = record l { session = release_if_low env.float v s } in
      let t1 = release_if_low-IsTracked s t env.float v in
      let same = release_if_low-kept env.float v s t in
      Yields-proceed
        (speech_step-SpeechEnd live v l1 t1 (subst (λ k. IsSized k.config) (sym same) sized)
          (release_if_low-held env.float v s t))
        λ a l2 speech. Yields-proceed (low_silence-LowEnd live v l2) λ b l3 low.
          Yields-proceed (acoustic_fallback-FallbackEnd live v l3) λ c l4 fallback.
            Yields-weaken
              (λ d s5 kept. record {
                moved =
                    same_pair (ap phase_of kept.1 ∙ fallback.same_phase ∙ ap phase_of low.0)
                      (ap marks_of kept.0 ∙ marks_of-three a b c _ low.1 fallback.unmarked)
                    ∙ speech.moved
                    ∙ release_if_low-machine_step env.float v s t;
                tracked =
                    subst IsTracked (sym kept.1)
                      (fallback.tracked (subst IsTracked (sym low.0) speech.tracked));
                same_kept =
                    ap (λ k. k.kept) kept.1
                    ∙ fallback.same_kept
                    ∙ ap (λ k. k.kept) low.0
                    ∙ speech.same_kept
                    ∙ same;
              })
              (reported-Keeps live v (a ++ b ++ c) l4)

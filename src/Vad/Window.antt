-- ===== src/Vad/Window.antt =====
-- Proofs on a whole window, with the network's answer (process_vad_frame of
-- crates/speech-core-daemon/src/detectors/vad.rs).
use speech_core.Base.{
  ℕ, Bool, true, false, ◌||◌, Option, none, some, List, ◌∷◌, ◌≡◌, refl, sym, ◌∙◌, ap, subst,
  if◌then◌else◌,
}
use speech_core.Turn.Signals.{DetectorSignal}
use speech_core.Vad.Local.{
  VadEnv, VadSession, VadLocal, VadResult, done, failed, inference_failed, proceed,
}
use speech_core.Vad.Levels.{Levels, is_low, is_voiced, levels, level_rms, is_gated}
use speech_core.Vad.Frame.{infer, answer_of, follow_levels, process_vad_frame}
use speech_core.Vad.Machine.{Control, control_of, Phase, Mark, machine_step, phase_of, windows_of}
use speech_core.Vad.Yields.{Yields, yields, IsLogging}
use speech_core.Vad.Tracked.{IsSized, IsTracked}
use speech_core.Vad.Follow.{WindowEnd, follow_levels-WindowEnd}

module _ ⦃env : VadEnv⦄ where
  -- What the network, or the energy gate, answers to a window.
  unfoldable pub probability_of : List ℕ → VadSession → Option ℕ
  probability_of frame s =
      if is_gated env.float s.config (level_rms env.float s.config frame)
      then some (env.float.literal "0.0")
      else env.compute s.engine frame

  -- What a window came to: the machine's move by its levels, or an error of the network, which
  -- leaves the segments alone.
  pub data FrameEnd (frame : List ℕ) (frame_start ingress : ℕ) (s : VadSession)
      : VadResult (List DetectorSignal) × VadLocal → Type 0 where
    heard :
        (p : ℕ) (signals : List DetectorSignal) (l : VadLocal)
        → probability_of frame s ≡ some p
        → WindowEnd env.float
            (levels env.float frame_start ingress (level_rms env.float s.config frame) p s)
            s
            signals
            l.session
        → FrameEnd frame frame_start ingress s (done signals, l)
    unheard :
        (l : VadLocal)
        → probability_of frame s ≡ none
        → control_of l.session ≡ control_of s
        → FrameEnd frame frame_start ingress s (failed inference_failed, l)

module _ ⦃env : VadEnv⦄ (live : IsLogging env) where
  data Inferred (frame : List ℕ) (s : VadSession) : VadResult ℕ × VadLocal → Type 0 where
    answered :
        (p : ℕ) (l : VadLocal)
        → probability_of frame s ≡ some p
        → control_of l.session ≡ control_of s
        → Inferred frame s (done p, l)
    broken :
        (l : VadLocal)
        → probability_of frame s ≡ none
        → control_of l.session ≡ control_of s
        → Inferred frame s (failed inference_failed, l)

  infer-Inferred :
      (frame : List ℕ) (l : VadLocal)
      → Inferred frame l.session (infer (level_rms env.float l.session.config frame) frame l)
  unfolding infer probability_of
  infer-Inferred frame l =
      go (is_gated env.float l.session.config (level_rms env.float l.session.config frame))
        (env.compute l.session.engine frame) refl
    where
      zero_level : ℕ
      zero_level = env.float.literal "0.0"

      asked : VadLocal
      asked = record l { session = record (l.session) { engine = frame ∷ l.session.engine } }

      go :
          (gate : Bool) (answer : Option ℕ)
          → probability_of frame l.session ≡ (if gate then some zero_level else answer)
          → Inferred frame l.session
              (if gate then (done zero_level, l) else (answer_of answer, asked))
      go true answer e = answered zero_level l e refl
      go false none e = broken asked e refl
      go false (some p) e = answered p asked e refl

  -- The window's move is that of the session before the network was asked.
  heard_after :
      (frame : List ℕ) (frame_start ingress : ℕ) (s : VadSession) (r : VadResult ℕ × VadLocal)
      → Inferred frame s r
      → IsTracked (control_of s)
      → IsSized s.config
      → FrameEnd frame frame_start ingress s (
          proceed
            (λ p.
              follow_levels
                (levels env.float frame_start ingress (level_rms env.float s.config frame) p s))
            r)
  heard_after frame frame_start ingress s _ (answered p l e same) t sized = heard_of (
      follow_levels-WindowEnd live _ l (subst IsTracked (sym same) t)
        (subst (λ c. IsSized c.kept.config) (sym same) sized))
    where
      v : Levels
      v = levels env.float frame_start ingress (level_rms env.float s.config frame) p s

      move_of : Control → Phase × List Mark
      move_of c =
          machine_step (windows_of c.kept.config)
            (record {
              low = is_low env.float v;
              voiced = is_voiced env.float v;
              loud = v.raw_is_speech || env.float.le c.kept.config.threshold v.smoothed;
            })
            (phase_of c)

      heard_of :
          {r : VadResult (List DetectorSignal) × VadLocal}
          → Yields (WindowEnd env.float v l.session) r
          → FrameEnd frame frame_start ingress s r
      heard_of (yields signals l' w) = heard p signals l' e (record {
        moved = w.moved ∙ ap move_of same;
        tracked = w.tracked;
        same_kept = w.same_kept ∙ ap (λ c. c.kept) same;
      })
  heard_after frame frame_start ingress s _ (broken l e same) t sized = unheard l e same

  -- While the log's worker runs, a window moves a tracked session exactly as the machine moves its
  -- phase, by the window's own levels, with the machine's marks for signals, and the session stays
  -- tracked; or the network fails, and the segments are left alone.
  pub process_vad_frame-FrameEnd :
      (frame : List ℕ) (frame_start ingress : ℕ) (l : VadLocal)
      → IsTracked (control_of l.session)
      → IsSized l.session.config
      → FrameEnd frame frame_start ingress l.session (process_vad_frame frame frame_start ingress l)
  unfolding process_vad_frame
  process_vad_frame-FrameEnd frame frame_start ingress l t sized =
      heard_after frame frame_start ingress l.session _ (infer-Inferred frame l) t sized

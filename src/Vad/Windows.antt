-- ===== src/Vad/Windows.antt =====
-- Proofs on the loop over the windows of a frame (ingest_frame of
-- crates/speech-core-daemon/src/detectors/vad.rs).
use speech_core.Base.{
  ℕ, zero, suc, ◌<◌, ◌≤◌, false, List, [], ◌∷◌, ◌++◌, ◌≡◌, refl, sym, ◌∙◌, ap, subst, if_cases, ltb,
  ltb→lt, length, length-drop, take, drop, some, none, arith,
}
use speech_core.Turn.Signals.{DetectorSignal}
use speech_core.Protocol.Types.{AudioFrame}
use speech_core.Vad.Config.{frame_samples}
use speech_core.Vad.Local.{
  VadEnv, VadSession, VadLocal, VadResult, done, failed, inference_failed, V, proceed,
}
use speech_core.Vad.Levels.{levels, level_rms}
use speech_core.Vad.Machine.{
  control_of, Hearing, machine_step, machine_run, then_marks, phase_of, windows_of, hearing_of,
  marks_of,
}
use speech_core.Vad.Yields.{IsLogging}
use speech_core.Vad.Tracked.{IsSized, IsTracked, rebuffered-IsTracked}
use speech_core.Vad.Marks.{marks_of-append, same_pair}
use speech_core.Vad.Window.{probability_of, FrameEnd, heard, unheard, process_vad_frame-FrameEnd}
use speech_core.Vad.Changes.{window_taken, push_samples}
use speech_core.Vad.Detector.{next_window, drain_windows, ingest_samples}

module _ ⦃env : VadEnv⦄ (ingress : ℕ) where
  -- What a session hears in its next window: the first samples of its buffer, with the probability
  -- that the network, or the energy gate, answers for them.
  abbrev pub next_hearing : VadSession → ℕ → Hearing
  next_hearing s p =
      let window = take frame_samples s.buffer in
      let waiting = window_taken s in
      hearing_of env.float
        (levels env.float s.next_vad_frame_sample_start ingress
          (level_rms env.float s.config window) p waiting)
        waiting

  -- A session has heard its windows one after the other, up to the samples that make up none.
  pub data Heard : VadLocal → List Hearing → VadLocal → Type 0 where
    all_heard : (l : VadLocal) → length l.session.buffer < frame_samples → Heard l [] l
    window_heard :
        (p : ℕ) (hs : List Hearing) (l last : VadLocal)
        → frame_samples ≤ length l.session.buffer
        → probability_of (take frame_samples l.session.buffer) (window_taken l.session) ≡ some p
        → Heard (next_window ingress l).1 hs last
        → Heard l (next_hearing l.session p ∷ hs) last

  -- The network fails at one of a session's windows.
  pub data Stuck : VadLocal → Type 0 where
    stuck_now :
        (l : VadLocal)
        → frame_samples ≤ length l.session.buffer
        → probability_of (take frame_samples l.session.buffer) (window_taken l.session) ≡ none
        → Stuck l
    stuck_later :
        (p : ℕ) (l : VadLocal)
        → frame_samples ≤ length l.session.buffer
        → probability_of (take frame_samples l.session.buffer) (window_taken l.session) ≡ some p
        → Stuck (next_window ingress l).1
        → Stuck l

-- What a run over windows leaves of a session in any case.
pub record Remains (s after : VadSession) : Type 0 where
  pub tracked : IsTracked (control_of after)
  pub same_hello : after.hello ≡ s.hello
  pub same_config : after.config ≡ s.config

-- The samples after as many windows.
abbrev pub after_windows : List Hearing → List ℕ → List ℕ
after_windows [] samples = samples
after_windows (h ∷ hs) samples = after_windows hs (drop frame_samples samples)

-- The machine's run over what the session heard in all the windows of its buffer, where the last
-- samples are left; or an error of the network at one of them, after which the session goes on from
-- where it is.
pub data DrainEnd ⦃env : VadEnv⦄ (ingress : ℕ) (l0 : VadLocal)
    : VadResult (List DetectorSignal) × VadLocal → Type 0 where
  drained :
      (hs : List Hearing) (signals : List DetectorSignal) (l : VadLocal)
      → Heard ingress l0 hs l
      → (phase_of (control_of l.session), marks_of signals)
        ≡ machine_run (windows_of l0.session.config) hs (phase_of (control_of l0.session))
      → l.session.buffer ≡ after_windows hs l0.session.buffer
      → Remains l0.session l.session
      → DrainEnd ingress l0 (done signals, l)
  interrupted :
      (l : VadLocal)
      → Stuck ingress l0
      → Remains l0.session l.session
      → DrainEnd ingress l0 (failed inference_failed, l)

pub Remains-trans : {s t u : VadSession} → Remains s t → Remains t u → Remains s u
Remains-trans a b = record {
  tracked = b.tracked;
  same_hello = b.same_hello ∙ a.same_hello;
  same_config = b.same_config ∙ a.same_config;
}

-- What comes before a run is added to it.
abbrev joined :
    List DetectorSignal
    → VadResult (List DetectorSignal) × VadLocal
    → VadResult (List DetectorSignal) × VadLocal
joined first r = proceed (λ others l. (done (first ++ others), l)) r

joined-DrainEnd :
    ⦃env : VadEnv⦄ (ingress p : ℕ) (first : List DetectorSignal) (l0 l1 : VadLocal)
    (r : VadResult (List DetectorSignal) × VadLocal)
    → frame_samples ≤ length l0.session.buffer
    → probability_of (take frame_samples l0.session.buffer) (window_taken l0.session) ≡ some p
    → l1 ≡ (next_window ingress l0).1
    → (phase_of (control_of l1.session), marks_of first)
      ≡ machine_step
          (windows_of l0.session.config)
          (next_hearing ingress l0.session p)
          (phase_of (control_of l0.session))
    → l1.session.buffer ≡ drop frame_samples l0.session.buffer
    → Remains l0.session l1.session
    → DrainEnd ingress l1 r
    → DrainEnd ingress l0 (joined first r)
joined-DrainEnd ingress p first l0 l1 _ long e is moved taken rem (interrupted l stuck rest) =
    interrupted l (stuck_later p l0 long e (subst (Stuck ingress) is stuck))
      (Remains-trans rem rest)
joined-DrainEnd ingress p first l0 l1 _ long e is moved taken rem
      (drained hs signals l heard_rest run left rest) =
    drained (next_hearing ingress l0.session p ∷ hs) (first ++ signals) l
      (window_heard p hs l0 l long e (subst (λ k. Heard ingress k hs l) is heard_rest))
      (same_pair refl (marks_of-append first signals)
        ∙ ap (then_marks (marks_of first)) (
            run
            ∙ ap (λ c. machine_run (windows_of c) hs (phase_of (control_of l1.session)))
                rem.same_config)
        ∙ ap (λ x. then_marks x.1 (machine_run (windows_of l0.session.config) hs x.0)) moved)
      (left ∙ ap (after_windows hs) taken) (Remains-trans rem rest)

long_of : (a b : ℕ) → ltb a b ≡ false → b ≤ a
long_of a b h = ground arith

nothing_left :
    ⦃env : VadEnv⦄ (ingress : ℕ) (l : VadLocal)
    → IsTracked (control_of l.session)
    → length l.session.buffer < frame_samples
    → DrainEnd ingress l (done [], l)
unfolding marks_of
nothing_left ingress l t short =
    drained [] [] l (all_heard l short) refl refl
      (record { tracked = t; same_hello = refl; same_config = refl })

module _ ⦃env : VadEnv⦄ where
  -- A window that went well, and the run over the rest.
  after_window :
      (fuel ingress : ℕ) (l0 : VadLocal) (r : VadResult (List DetectorSignal) × VadLocal)
      → FrameEnd
          (take frame_samples l0.session.buffer)
          l0.session.next_vad_frame_sample_start
          ingress
          (window_taken l0.session)
          r
      → r ≡ next_window ingress l0
      → frame_samples ≤ length l0.session.buffer
      → IsTracked (control_of l0.session)
      → ((l : VadLocal)
          → l.session.buffer ≡ drop frame_samples l0.session.buffer
          → Remains l0.session l.session
          → DrainEnd ingress l (drain_windows fuel ingress l))
      → DrainEnd ingress l0 (proceed (λ first l. joined first (drain_windows fuel ingress l)) r)
  unfolding window_taken phase_of
  after_window fuel ingress l0 _ (heard p signals l e w) is long t rest =
      joined-DrainEnd ingress p signals l0 l (drain_windows fuel ingress l) long e
        (ap (λ x. x.1) is) w.moved left remains (rest l left remains)
    where
      left : l.session.buffer ≡ drop frame_samples l0.session.buffer
      left = ap (λ k. k.buffer) w.same_kept

      remains : Remains l0.session l.session
      remains = record {
        tracked = w.tracked;
        same_hello = ap (λ k. k.hello) w.same_kept;
        same_config = ap (λ k. k.config) w.same_kept;
      }
  after_window fuel ingress l0 _ (unheard l e same) is long t rest =
      interrupted l (stuck_now l0 long e) (record {
        tracked = subst IsTracked (sym same) (rebuffered-IsTracked _ _ l0.session t);
        same_hello = ap (λ c. c.kept.hello) same;
        same_config = ap (λ c. c.kept.config) same;
      })

module _ ⦃env : VadEnv⦄ (live : IsLogging env) where
  -- A fuel of the buffer's length is enough.
  pub drain_windows-DrainEnd :
      (fuel ingress : ℕ) (l : VadLocal)
      → length l.session.buffer ≤ fuel
      → IsTracked (control_of l.session)
      → IsSized l.session.config
      → DrainEnd ingress l (drain_windows fuel ingress l)
  unfolding drain_windows next_window window_taken
  drain_windows-DrainEnd zero ingress l enough t sized = nothing_left ingress l t (omega arith)
  drain_windows-DrainEnd (suc fuel) ingress l enough t sized =
      if_cases (λ (m : V (List DetectorSignal)). DrainEnd ingress l (m l))
        (ltb (length l.session.buffer) frame_samples)
        (λ short. nothing_left ingress l t (ltb→lt _ _ short))
        λ long.
          after_window fuel ingress l _
            (process_vad_frame-FrameEnd live _ _ ingress
              (record l { session = window_taken l.session }) (rebuffered-IsTracked _ _ l.session t)
              sized)
            refl (long_of _ _ long) t
            λ l1 left rem.
              drain_windows-DrainEnd fuel ingress l1
                (omega (
                  arith,
                  ap length left ∙ length-drop frame_samples l.session.buffer,
                  long_of _ _ long,
                  enough,
                ))
                rem.tracked (subst IsSized (sym rem.same_config) sized)

  -- While the log's worker runs, the samples of a frame, with those that waited, are cut into the
  -- windows that they make up, in order, each of which the network, or the energy gate, answers and
  -- moves the machine by its own hearing, and the samples left make up none; or the network fails
  -- at one of the windows.
  pub ingest_samples-DrainEnd :
      (frame : AudioFrame) (samples : List ℕ) (ingress : ℕ) (l : VadLocal)
      → IsTracked (control_of l.session)
      → IsSized l.session.config
      → DrainEnd ingress
          (record l { session = push_samples frame samples l.session })
          (ingest_samples frame samples ingress l)
  unfolding ingest_samples push_samples
  ingest_samples-DrainEnd frame samples ingress l t sized =
      drain_windows-DrainEnd _ ingress (record l { session = push_samples frame samples l.session })
        (omega arith) (rebuffered-IsTracked _ _ l.session t) sized

pub DrainEnd-Remains :
    ⦃env : VadEnv⦄ {ingress : ℕ} {l0 : VadLocal} {r : VadResult (List DetectorSignal) × VadLocal}
    → DrainEnd ingress l0 r
    → Remains l0.session r.1.session
DrainEnd-Remains (drained hs signals l heard_all run left rest) = rest
DrainEnd-Remains (interrupted l stuck rest) = rest

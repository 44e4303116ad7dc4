-- ===== src/Vad/Held.antt =====
-- Proofs on what follows a forced close of a segment
-- (handle_action and ingest_frame of crates/speech-core-daemon/src/detectors/vad.rs).
use speech_core.Base.{
  ℕ, Bool, true, false, String, str_eq, str_eq_iff, none, some, List, [], ◌≡◌, refl, sym, ◌∙◌, ap,
  subst, if◌then◌else◌, any, arith, ◌∷◌,
}
use speech_core.Base.Maps.{lookup, insert, lookup-insert_self}
use mathlib.Core.Option.{some-injective}
use speech_core.Protocol.Types.{AudioFrame}
use speech_core.Turn.Signals.{DetectorSignal, ResetEouState, reset_eou_state}
use speech_core.Vad.Local.{
  VadEnv, VadSession, VadLocal, VadResult, done, failed, inference_failed, reset_after_forced_close,
}
use speech_core.Vad.Machine.{
  control_of, held, Hearing, marks_of, phase_of, machine_run, machine_run-held, machine_step,
  windows_of, Phase, Windows,
}
use speech_core.Vad.Yields.{IsLogging}
use speech_core.Vad.Tracked.{IsSized, IsTracked}
use speech_core.Vad.Windows.{Heard, Stuck, DrainEnd, drained, interrupted, ingest_samples-DrainEnd}
use speech_core.Vad.Changes.{action_taken, reset_requires_low_release, push_samples}
use speech_core.Vad.Detector.{
  VadDetector, change_session, handle_action, ingest_samples, on_session, ingest_frame,
}
use speech_core.Vad.Reset.{action_taken-IsTracked, action_taken-config}

-- The phase of a session, if there is one.
abbrev pub HasPhase : Phase → String → VadDetector → Type 0
HasPhase p id d = (s : VadSession) → lookup id d.sessions ≡ some s → phase_of (control_of s) ≡ p

-- The hearings from the first low one on.
abbrev pub from_low : List Hearing → List Hearing
from_low [] = []
from_low (h ∷ hs) = if h.low then h ∷ hs else from_low hs

-- No segment starts or ends and the session is still held; or one of the windows that it heard was
-- low, up to which nothing starts or ends either; or the network failed at one of them.
pub data HeldEnd ⦃env : VadEnv⦄ (ingress : ℕ) (l0 : VadLocal) (id : String)
    : VadResult (List DetectorSignal) × VadDetector → Type 0 where
  still_held :
      (hs : List Hearing) (signals : List DetectorSignal) (l : VadLocal) (d : VadDetector)
      → Heard ingress l0 hs l
      → any (λ h. h.low) hs ≡ false
      → marks_of signals ≡ []
      → HasPhase held id d
      → HeldEnd ingress l0 id (done signals, d)
  let_go :
      (hs : List Hearing) (signals : List DetectorSignal) (l : VadLocal) (d : VadDetector)
      → Heard ingress l0 hs l
      → any (λ h. h.low) hs ≡ true
      → marks_of signals ≡ (machine_run (windows_of l0.session.config) (from_low hs) held).1
      → HasPhase (machine_run (windows_of l0.session.config) (from_low hs) held).0 id d
      → HeldEnd ingress l0 id (done signals, d)
  broken_off :
      (d : VadDetector) → Stuck ingress l0 → HeldEnd ingress l0 id (failed inference_failed, d)

pub reset_requires_low_release-start :
    (reason : String)
    → reset_requires_low_release reason ≡ true
    → str_eq reason "vad_speech_start" ≡ false
unfolding reset_requires_low_release
reset_requires_low_release-start reason forced = go (str_eq reason "vad_speech_start") refl
  where
    go : (b : Bool) → str_eq reason "vad_speech_start" ≡ b → b ≡ false
    go false e = refl
    go true e =
        let start = (str_eq_iff reason "vad_speech_start").0 e in
        sym (subst (λ r. reset_requires_low_release r ≡ true) start forced)

-- A forced close leaves the session held.
pub action_taken-held :
    (reason : String) (s : VadSession)
    → reset_requires_low_release reason ≡ true
    → phase_of (control_of (action_taken reason s)) ≡ held
unfolding action_taken reset_after_forced_close phase_of
action_taken-held reason s forced = simp (forced)

change_session-found :
    (id : String) (f : VadSession → VadSession) (d : VadDetector) (s : VadSession)
    → lookup id d.sessions ≡ some s
    → change_session id f d ≡ record d { sessions = insert id (f s) d.sessions }
unfolding change_session
change_session-found id f d s found =
    subst
      (λ o.
        elim o as (λ _. VadDetector) [
          | none ↦ d
          | some u ↦ record d { sessions = insert id (f u) d.sessions }
        ]
        ≡ record d { sessions = insert id (f s) d.sessions })
      (sym found) refl

forced_action :
    (r : ResetEouState) (d : VadDetector) (s : VadSession)
    → lookup r.ids.stream_session_id d.sessions ≡ some s
    → reset_requires_low_release r.reason ≡ true
    → handle_action (reset_eou_state r) d
      ≡ record d { sessions = insert r.ids.stream_session_id (action_taken r.reason s) d.sessions }
unfolding handle_action
forced_action r d s found forced =
    subst
      (λ b.
        (if b then d else change_session r.ids.stream_session_id (action_taken r.reason) d)
        ≡ record d {
          sessions = insert r.ids.stream_session_id (action_taken r.reason s) d.sessions;
        })
      (sym (reset_requires_low_release-start r.reason forced))
      (change_session-found r.ids.stream_session_id (action_taken r.reason) d s found)

-- Nothing happens before the first low window.
machine_run-from_low :
    (w : Windows) (hs : List Hearing) → machine_run w hs held ≡ machine_run w (from_low hs) held
unfolding machine_step
machine_run-from_low w [] = refl
machine_run-from_low w (h ∷ hs) = ground (arith, machine_run-from_low w hs)

-- A session when a frame's samples have come.
abbrev pub frame_come : AudioFrame → List ℕ → VadDetector → VadSession → VadLocal
frame_come frame samples d s = record { session = push_samples frame samples s; sent = d.sent }

-- A held session that heard a frame.
held_session-HeldEnd :
    ⦃env : VadEnv⦄ (ingress : ℕ) (id : String) (d : VadDetector) (l0 : VadLocal)
    (r : VadResult (List DetectorSignal) × VadLocal)
    → DrainEnd ingress l0 r
    → phase_of (control_of l0.session) ≡ held
    → HeldEnd ingress l0 id
        (r.0, record d { sessions = insert id r.1.session d.sessions; sent = r.1.sent })
held_session-HeldEnd ingress id d l0 _ (interrupted l stuck rest) is = broken_off _ stuck
held_session-HeldEnd ingress id d l0 _ (drained hs signals l heard_all run left rest) is =
    go (any (λ h. h.low) hs) refl
  where
    after : VadLocal → VadDetector
    after k = record d { sessions = insert id k.session d.sessions; sent = k.sent }

    w : Windows
    w = windows_of l0.session.config

    has : (p : Phase) → phase_of (control_of l.session) ≡ p → HasPhase p id (after l)
    has p e found h =
        subst (λ t. phase_of (control_of t) ≡ p)
          (some-injective _ _ (sym (lookup-insert_self id l.session d.sessions) ∙ h)) e

    go : (low : Bool) → any (λ h. h.low) hs ≡ low → HeldEnd ingress l0 id (done signals, after l)
    go true e =
        let same = run ∙ ap (machine_run w hs) is ∙ machine_run-from_low w hs in
        let_go hs signals l _ heard_all e (ap (λ x. x.1) same) (has _ (ap (λ x. x.0) same))
    go false e =
        let still = run ∙ ap (machine_run w hs) is ∙ machine_run-held w hs e in
        still_held hs signals l _ heard_all e (ap (λ x. x.1) still) (has _ (ap (λ x. x.0) still))

module _ ⦃env : VadEnv⦄ (live : IsLogging env) where
  ingest_frame-HeldEnd :
      (frame : AudioFrame) (samples : List ℕ) (ingress : ℕ) (d : VadDetector) (s : VadSession)
      → lookup frame.header.stream_session_id d.sessions ≡ some s
      → IsTracked (control_of s)
      → IsSized s.config
      → phase_of (control_of s) ≡ held
      → HeldEnd ingress
          (frame_come frame samples d s)
          frame.header.stream_session_id
          (ingest_frame frame samples ingress d)
  unfolding ingest_frame on_session push_samples phase_of
  ingest_frame-HeldEnd frame samples ingress d s found t sized is =
      subst
        (λ o.
          HeldEnd ingress (frame_come frame samples d s) frame.header.stream_session_id
            (elim o as (λ _. VadResult (List DetectorSignal) × VadDetector) [
              | none ↦ (done [], d)
              | some u ↦
                  let r =
                    ingest_samples frame samples ingress (record { session = u; sent = d.sent }) in
                  (
                    r.0,
                    record d {
                      sessions = insert frame.header.stream_session_id r.1.session d.sessions;
                      sent = r.1.sent;
                    },
                  )
            ]))
        (sym found)
        (held_session-HeldEnd ingress frame.header.stream_session_id d
          (frame_come frame samples d s) _
          (ingest_samples-DrainEnd live frame samples ingress
            (record { session = s; sent = d.sent }) t sized)
          is)

  -- While the log's worker runs: after an action with one of the four reasons of a forced close, a
  -- frame for that session starts and ends no segment and tells of no presence, and leaves the
  -- session held, if no window that its samples make up, with those that waited, is below the stop
  -- threshold. From the first low window on, the session goes on as the machine does from there. Or
  -- the network fails at one of the windows.
  pub handle_action-ingest_frame :
      (r : ResetEouState) (frame : AudioFrame) (samples : List ℕ) (ingress : ℕ) (d : VadDetector)
      (s : VadSession)
      → frame.header.stream_session_id ≡ r.ids.stream_session_id
      → lookup r.ids.stream_session_id d.sessions ≡ some s
      → IsTracked (control_of s)
      → IsSized s.config
      → reset_requires_low_release r.reason ≡ true
      → HeldEnd ingress
          (frame_come frame samples d (action_taken r.reason s))
          frame.header.stream_session_id
          (ingest_frame frame samples ingress (handle_action (reset_eou_state r) d))
  handle_action-ingest_frame r frame samples ingress d s same found t sized forced =
      subst
        (λ (d' : VadDetector).
          HeldEnd ingress
            (record {
              session = push_samples frame samples (action_taken r.reason s);
              sent = d'.sent;
            })
            frame.header.stream_session_id
            (ingest_frame frame samples ingress (handle_action (reset_eou_state r) d)))
        (forced_action r d s found forced)
        (ingest_frame-HeldEnd frame samples ingress _ (action_taken r.reason s)
          (subst
            (λ d'.
              lookup frame.header.stream_session_id d'.sessions ≡ some (action_taken r.reason s))
            (sym (forced_action r d s found forced))
            (subst
              (λ id.
                lookup id (insert r.ids.stream_session_id (action_taken r.reason s) d.sessions)
                ≡ some (action_taken r.reason s))
              (sym same) (lookup-insert_self r.ids.stream_session_id _ d.sessions)))
          (action_taken-IsTracked r.reason s t)
          (subst IsSized (sym (action_taken-config r.reason s)) sized)
          (action_taken-held r.reason s forced))

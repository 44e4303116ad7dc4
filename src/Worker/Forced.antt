-- ===== src/Worker/Forced.antt =====
-- Proofs on the way of a forced close through the detector worker: from a detector's signal over
-- the turn manager's answer to the voice activity detectors
-- (crates/speech-core-daemon/src/detectors/mod.rs, turn.rs and vad.rs).
use mathlib.Core.Option.{some-injective}
use speech_core.Base.{
  String, Option, none, some, List, [], ◌∷◌, ◌≡◌, refl, sym, ◌∙◌, subst, All, if◌then◌else◌,
}
use speech_core.Base.Maps.{lookup, insert, lookup-insert_self}
use speech_core.Turn.Signals.{
  Ids, DetectorSignal, vad_segment_start, vad_segment_end, vad_speech_presence,
  transcript_token_committed, vad_low_silence, model_eou, semantic_turn_decision,
  vad_acoustic_fallback, DetectorAction, reset_eou_state,
}
use speech_core.Turn.Local.{Outcome, ok, err}
use speech_core.Turn.Manager.{TurnManager, session_or_new}
use speech_core.Turn.Answers.{SameTurn, IsForced, none≢some}
use speech_core.Turn.Forced.{AllForced, closing_ids, handle_signal-AllForced}
use speech_core.Vad.Local.{VadEnv, VadSession}
use speech_core.Vad.Machine.{held, phase_of, control_of}
use speech_core.Vad.Changes.{action_taken}
use speech_core.Vad.Detector.{VadDetector, handle_action, change_session}
use speech_core.Vad.Held.{HasPhase, action_taken-held, reset_requires_low_release-start}
use speech_core.Worker.Interfaces.{SmartTurn, vad_detector}
use speech_core.Worker.State.{
  DetectorWorker, WorkerEnv, W, continue, one_by_one, each_detector, with_smart_turn, with_turns,
  set_rechecks,
}
use speech_core.Worker.Signals.{prepare, apply_action, apply_actions, handle_one_signal}

-- What a successful signal came to: no turn of the session is closed, the open one is the same, and
-- the detectors are as before; or every detector's session, where there is one, is held.
pub data ForcedEnd {S : Type 0} (ids : Ids) (before : DetectorWorker VadDetector S)
    : Outcome (Unit {0}) × DetectorWorker VadDetector S → Type 0 where
  undisturbed :
      (w : DetectorWorker VadDetector S)
      → SameTurn (session_or_new ids before.turn_manager) (session_or_new ids w.turn_manager)
      → w.detectors ≡ before.detectors
      → ForcedEnd ids before (ok tt, w)
  now_held :
      (w : DetectorWorker VadDetector S)
      → All (HasPhase held ids.stream_session_id) w.detectors
      → ForcedEnd ids before (ok tt, w)
  given_up : (w : DetectorWorker VadDetector S) → ForcedEnd ids before (err, w)

forced_action-held :
    (ids : Ids) (action : DetectorAction) (d : VadDetector)
    → IsForced ids action
    → HasPhase held ids.stream_session_id (handle_action action d)
unfolding handle_action change_session
forced_action-held ids (reset_eou_state r) d forced =
    subst (λ i. HasPhase held i.stream_session_id (handle_action (reset_eou_state r) d)) forced.0
      (subst
        (λ b.
          HasPhase held r.ids.stream_session_id
            (if b then d else change_session r.ids.stream_session_id (action_taken r.reason) d))
        (sym (reset_requires_low_release-start r.reason forced.1))
        (go (lookup r.ids.stream_session_id d.sessions) refl))
  where
    go :
        (found : Option VadSession)
        → lookup r.ids.stream_session_id d.sessions ≡ found
        → HasPhase held r.ids.stream_session_id (elim found as (λ _. VadDetector) [
          | none ↦ d
          | some s ↦ record d {
            sessions = insert r.ids.stream_session_id (action_taken r.reason s) d.sessions;
          }
        ])
    go none e s h = absurd (none≢some (sym e ∙ h))
    go (some u) e s h =
        subst (λ t. phase_of (control_of t) ≡ held)
          (some-injective _ _ (
            sym (lookup-insert_self r.ids.stream_session_id (action_taken r.reason u) d.sessions)
            ∙ h))
          (action_taken-held r.reason u forced.1)

-- Every detector takes the action.
one_by_one-held :
    (ids : Ids) (action : DetectorAction) (ds : List VadDetector)
    → IsForced ids action
    → All
        (HasPhase held ids.stream_session_id)
        (one_by_one (λ d. (ok tt, handle_action action d)) ds).1
unfolding one_by_one
one_by_one-held ids action [] forced = tt
one_by_one-held ids action (d ∷ ds) forced =
    (forced_action-held ids action d forced, one_by_one-held ids action ds forced)

-- A success leaves the detectors held.
data HeldAfter {S : Type 0} (id : String)
    : Outcome (Unit {0}) × DetectorWorker VadDetector S → Type 0 where
  held_now :
      (w : DetectorWorker VadDetector S)
      → All (HasPhase held id) w.detectors
      → HeldAfter id (ok tt, w)
  not_done : (w : DetectorWorker VadDetector S) → HeldAfter id (err, w)

held_or_not :
    {S : Type 0} (id : String) (o : Outcome (Unit {0})) (w : DetectorWorker VadDetector S)
    → All (HasPhase held id) w.detectors
    → HeldAfter id (o, w)
held_or_not id (ok _) w all = held_now w all
held_or_not id err w all = not_done w

after_smart_turn :
    {S A : Type 0} (id : String) (g : A → W VadDetector S (Unit {0}))
    (r : Outcome A × DetectorWorker VadDetector S)
    → ((a : A) (w : DetectorWorker VadDetector S) → HeldAfter id (g a w))
    → HeldAfter id (continue g r)
after_smart_turn id g (ok a, w) k = k a w
after_smart_turn id g (err, w) k = not_done w

module _ {S : Type 0} (vad : VadEnv) ⦃smart : SmartTurn S⦄ ⦃env : WorkerEnv⦄ where
  each_detector-HeldAfter :
      (ids : Ids) (action : DetectorAction) (w : DetectorWorker VadDetector S)
      → IsForced ids action
      → HeldAfter ids.stream_session_id (each_detector (λ d. (ok tt, handle_action action d)) w)
  unfolding each_detector
  each_detector-HeldAfter ids action w forced =
      held_or_not ids.stream_session_id _ _ (one_by_one-held ids action w.detectors forced)

  apply_action-HeldAfter :
      (ids : Ids) (action : DetectorAction) (w : DetectorWorker VadDetector S)
      → IsForced ids action
      → HeldAfter ids.stream_session_id (apply_action ⦃detector = vad_detector vad⦄ action w)
  unfolding apply_action set_rechecks
  apply_action-HeldAfter ids (reset_eou_state r) w forced =
      after_smart_turn ids.stream_session_id _
        (with_smart_turn tt (smart.act (reset_eou_state r)) _)
        λ _ w1. each_detector-HeldAfter ids (reset_eou_state r) w1 forced

  more_actions :
      (ids : Ids) (rest : List DetectorAction)
      (r : Outcome (Unit {0}) × DetectorWorker VadDetector S)
      → All (IsForced ids) rest
      → HeldAfter ids.stream_session_id r
      → HeldAfter ids.stream_session_id
          (continue (λ _. apply_actions ⦃detector = vad_detector vad⦄ rest) r)
  unfolding apply_actions
  more_actions ids rest _ all (not_done w) = not_done w
  more_actions ids [] _ all (held_now w held_all) = held_now w held_all
  more_actions ids (a ∷ rest) _ all (held_now w held_all) =
      more_actions ids rest _ all.1 (apply_action-HeldAfter ids a w all.0)

  ended_of :
      (ids : Ids) (before : DetectorWorker VadDetector S)
      (r : Outcome (Unit {0}) × DetectorWorker VadDetector S)
      → HeldAfter ids.stream_session_id r
      → ForcedEnd ids before r
  ended_of ids before _ (held_now w all) = now_held w all
  ended_of ids before _ (not_done w) = given_up w

  answered-ForcedEnd :
      (ids : Ids) (w : DetectorWorker VadDetector S)
      (r : Outcome (List DetectorAction) × TurnManager)
      → AllForced ids w.turn_manager r
      → ForcedEnd ids w (
          continue
            (apply_actions ⦃detector = vad_detector vad⦄)
            (r.0, record w { turn_manager = r.1 }))
  unfolding apply_actions
  answered-ForcedEnd ids w (err, m) all = given_up _
  answered-ForcedEnd ids w (ok [], m) all = undisturbed _ (all.1 refl) refl
  answered-ForcedEnd ids w (ok (a ∷ rest), m) all =
      ended_of ids w _ (more_actions ids rest _ all.0.1 (apply_action-HeldAfter ids a _ all.0.0))

  -- A forced close reaches the voice activity detectors: when the presence of speech, a low silence
  -- or an acoustic fallback has been handled with success, then either no turn of the session was
  -- closed, its open turn and the detectors are as before, or every detector that has the session
  -- holds it until a window is low.
  pub handle_one_signal-ForcedEnd :
      (signal : DetectorSignal) (ids : Ids) (w : DetectorWorker VadDetector S)
      → closing_ids signal ≡ some ids
      → ForcedEnd ids w (handle_one_signal ⦃detector = vad_detector vad⦄ signal w)
  unfolding handle_one_signal prepare with_turns
  handle_one_signal-ForcedEnd (vad_speech_presence s) ids w e =
      answered-ForcedEnd ids w _
        (handle_signal-AllForced ⦃env = env.turns⦄ (vad_speech_presence s) ids w.turn_manager e)
  handle_one_signal-ForcedEnd (vad_low_silence s) ids w e =
      answered-ForcedEnd ids w _
        (handle_signal-AllForced ⦃env = env.turns⦄ (vad_low_silence s) ids w.turn_manager e)
  handle_one_signal-ForcedEnd (vad_acoustic_fallback s) ids w e =
      answered-ForcedEnd ids w _
        (handle_signal-AllForced ⦃env = env.turns⦄ (vad_acoustic_fallback s) ids w.turn_manager e)
  handle_one_signal-ForcedEnd (vad_segment_start s) ids w e = absurd (none≢some e)
  handle_one_signal-ForcedEnd (vad_segment_end s) ids w e = absurd (none≢some e)
  handle_one_signal-ForcedEnd (transcript_token_committed s) ids w e = absurd (none≢some e)
  handle_one_signal-ForcedEnd (model_eou s) ids w e = absurd (none≢some e)
  handle_one_signal-ForcedEnd (semantic_turn_decision s) ids w e = absurd (none≢some e)

-- ===== src/Smart/Predicted.antt =====
-- Proofs on a prediction (SmartTurnDetector::predict_for_vad_end of
-- crates/speech-core-daemon/src/detectors/smart_turn.rs).
use speech_core.Base.{
  ℕ, not, String, Option, none, some, List, ◌∷◌, ◌≡◌, refl, ap, if_both, length, ◌==◌,
}
use speech_core.Base.Words.{saturating_add}
use speech_core.Base.Maps.{lookup, insert, remove}
use speech_core.Turn.Local.{Outcome, ok, err, hello_ids}
use speech_core.Worker.Interfaces.{SmartTurnDecision, unavailable}
use speech_core.Smart.Session.{SmartTurnSession, segment_for_prediction}
use speech_core.Smart.Detector.{
  SmartEvent, smart_turn_candidate, SmartTurnDetector, SmartEnv, S, ◌>>◌, continue, stored, give_up,
  smart_write, decide, run_model, report_dump, predict_session, predict_for_vad_end, model_window,
}

-- What became of a prediction. A session that is kept has its audio as before.
pub data PredictEnd (id : String) (d : SmartTurnDetector)
    : Outcome SmartTurnDecision × SmartTurnDetector → Type 0 where
  missing :
      lookup id d.sessions ≡ none
      → PredictEnd id d (ok (unavailable "missing_smart_turn_session"), d)
  kept :
      (decision : SmartTurnDecision) (s s' : SmartTurnSession) (after : SmartTurnDetector)
      → lookup id d.sessions ≡ some s
      → s'.audio ≡ s.audio
      → s'.first_sample ≡ s.first_sample
      → after.sessions ≡ insert id s' (remove id d.sessions)
      → PredictEnd id d (ok decision, after)
  lost :
      (s : SmartTurnSession) (after : SmartTurnDetector)
      → lookup id d.sessions ≡ some s
      → after.sessions ≡ remove id d.sessions
      → PredictEnd id d (err, after)

abbrev Taken : String → SmartTurnDetector → SmartTurnDetector → Type 0
Taken id d d' = d'.sessions ≡ remove id d.sessions

module _ ⦃env : SmartEnv⦄ where
  -- A write leaves the sessions alone.
  write_then :
      {A : Type 0} (P : Outcome A × SmartTurnDetector → Type 0) (e : SmartEvent) (k : S A)
      (d : SmartTurnDetector)
      → (let d' = record d { sent = e ∷ d.sent } in P (k d') × P (err, d'))
      → P ((smart_write e >> k) d)
  unfolding smart_write
  write_then P e k d both =
      if_both
        (λ (o : Outcome (Unit {0})). P (continue (λ _. k) (o, record d { sent = e ∷ d.sent })))
        (env.logger_stopped (e ∷ d.sent)) both.1 both.0

  module _ (id : String) (d : SmartTurnDetector) (s : SmartTurnSession)
      (found : lookup id d.sessions ≡ some s) where
    give_up-PredictEnd :
        (reason : String) (d' : SmartTurnDetector)
        → Taken id d d'
        → PredictEnd id d (give_up id s reason d')
    unfolding stored
    give_up-PredictEnd reason d' e =
        kept _ s (record s { errors = saturating_add s.errors 1 }) _ found refl refl
          (ap (insert id _) e)

    decide-PredictEnd :
        (end_sample decision_sample : ℕ) (audio : List ℕ) (probability : ℕ) (d' : SmartTurnDetector)
        → Taken id d d'
        → PredictEnd id d (decide id s end_sample decision_sample audio probability d')
    unfolding decide stored
    decide-PredictEnd end_sample decision_sample audio probability d' e =
        write_then (PredictEnd id d) _ _ d'
          (kept _ s _ _ found refl refl (ap (insert id _) e), lost s _ found e)

    run_model-PredictEnd :
        (end_sample decision_sample : ℕ) (audio : List ℕ) (d' : SmartTurnDetector)
        → Taken id d d'
        → PredictEnd id d (run_model id s end_sample decision_sample audio d')
    unfolding run_model
    run_model-PredictEnd end_sample decision_sample audio d' e =
        if_both (PredictEnd id d) (length audio == 0) (give_up-PredictEnd _ d' e) (
          if_both (PredictEnd id d) (not d'.has_model) (give_up-PredictEnd _ d' e)
            (run_end (env.run (env.log_mel (model_window env.zero_sample audio)))))
      where
        run_end :
            (o : Option (Option ℕ))
            → PredictEnd id d (elim o as (λ _. Outcome SmartTurnDecision × SmartTurnDetector) [
              | none ↦ (err, d')
              | some none ↦ give_up id s "empty_model_output" d'
              | some (some probability) ↦
                  decide id s end_sample decision_sample audio probability d'
            ])
        run_end none = lost s _ found e
        run_end (some none) = give_up-PredictEnd _ d' e
        run_end (some (some probability)) =
            decide-PredictEnd end_sample decision_sample audio probability d' e

    predict_session-PredictEnd :
        (end_sample decision_sample : ℕ)
        → PredictEnd id d (predict_session id s end_sample decision_sample d)
    unfolding predict_session report_dump
    predict_session-PredictEnd end_sample decision_sample =
        go (env.dump_failure s.hello.stream_session_id end_sample decision_sample audio)
      where
        audio : List ℕ
        audio = segment_for_prediction decision_sample s

        asked : S SmartTurnDecision
        asked =
            smart_write (
              smart_turn_candidate (hello_ids s.hello) end_sample decision_sample (length audio)
                d.config)
            >> run_model id s end_sample decision_sample audio

        asked-PredictEnd : (d' : SmartTurnDetector) → Taken id d d' → PredictEnd id d (asked d')
        asked-PredictEnd d' e =
            write_then (PredictEnd id d) _ (run_model id s end_sample decision_sample audio) d'
              (run_model-PredictEnd end_sample decision_sample audio _ e, lost s _ found e)

        go :
            (o : Option String)
            → PredictEnd id d (
                (report_dump (hello_ids s.hello) o >> asked)
                  (record d { sessions = remove id d.sessions }))
        go none = asked-PredictEnd _ refl
        go (some failure) =
            write_then (PredictEnd id d) _ asked _ (asked-PredictEnd _ refl, lost s _ found refl)

  -- A prediction for a session that there is either gives a decision and puts the session back with
  -- its audio as before, or fails; a failure of the model, or of the log, loses the session.
  pub predict_for_vad_end-PredictEnd :
      (id : String) (end_sample decision_sample : ℕ) (d : SmartTurnDetector)
      → PredictEnd id d (predict_for_vad_end id end_sample decision_sample d)
  unfolding predict_for_vad_end
  predict_for_vad_end-PredictEnd id end_sample decision_sample d = go (lookup id d.sessions) refl
    where
      go :
          (o : Option SmartTurnSession)
          → lookup id d.sessions ≡ o
          → PredictEnd id d (elim o as (λ _. Outcome SmartTurnDecision × SmartTurnDetector) [
            | none ↦ (ok (unavailable "missing_smart_turn_session"), d)
            | some s ↦ predict_session id s end_sample decision_sample d
          ])
      go none e = missing e
      go (some s) e = predict_session-PredictEnd id d s e end_sample decision_sample

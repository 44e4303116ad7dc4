-- ===== src/Turn/Handlers/Model.antt =====
-- The arms ModelEou and SemanticTurnDecision of TurnManager::handle_signal, and
-- close_turn_from_semantic (crates/speech-core-daemon/src/detectors/turn.rs).
use speech_core.Base.{
  ℕ, ◌-◌, Bool, false, ◌&&◌, ◌||◌, not, String, Option, some, List, [], ◌∷◌, ltb, leb,
  if◌then◌else◌, is_none, is_some_and, unwrap_or, map_some, or_else, filter_some,
}
use speech_core.Turn.Config.{TurnManagerConfig, ms_to_samples, samples_to_ms}
use speech_core.Turn.Signals.{ModelEou, SemanticTurnDecision, ModelDrainHandle, DetectorAction}
use speech_core.Turn.Events.{turn_eou_candidate, turn_eou_suppressed, turn_semantic_decision}
use speech_core.Turn.Local.{Env, M, ◌>>=◌, ◌>>◌, return, get, modify, write, TurnSession}
use speech_core.Turn.Close.{close_turn, turn_start_or, decoder_reset, aligned_close}
use speech_core.Turn.Handlers.Shared.{turn_id_or_next, ensure_turn}

-- Where the speech of an end-of-utterance token is taken to begin.
unfoldable pub provisional_start : TurnSession → ℕ
provisional_start s = unwrap_or (or_else s.last_vad_start_sample s.last_closed_end_sample) 0

unfoldable pub too_early : TurnManagerConfig → ModelEou → TurnSession → Bool
too_early config e s =
    ltb (e.decision_sample - provisional_start s) (ms_to_samples config.min_model_eou_speech_ms)

abbrev pub vad_still_in_speech : TurnSession → Bool
vad_still_in_speech s = s.saw_vad_signal && s.in_speech

unfoldable pub no_new_vad_speech_since_close : TurnSession → Bool
no_new_vad_speech_since_close s =
    s.saw_vad_signal
    && is_some_and s.last_closed_decision_sample
        λ last. not (is_some_and s.last_vad_start_sample (λ start. ltb last start))

unfoldable pub refractory : TurnManagerConfig → ModelEou → TurnSession → Bool
refractory config e s =
    is_some_and s.last_closed_decision_sample
      λ last. ltb (e.decision_sample - last) (ms_to_samples config.model_eou_refractory_ms)

abbrev suppression : TurnManagerConfig → ModelEou → TurnSession → String
suppression config e s =
    if too_early config e s
    then "too_early"
    else if vad_still_in_speech s
    then "vad_still_in_speech"
    else if no_new_vad_speech_since_close s
    then "no_new_vad_speech_since_close"
    else "refractory"

-- A VAD sample that the token's decision does not come before.
abbrev pub past_sample : ModelEou → Option ℕ → Option ℕ
past_sample e o = filter_some o (λ sample. leb sample e.decision_sample)

abbrev delay_ms : ModelEou → Option ℕ → Option ℕ
delay_ms e o = map_some (past_sample e o) (λ sample. samples_to_ms (e.decision_sample - sample))

module _ ⦃env : Env⦄ where
  unfoldable pub eou_suppressed : TurnManagerConfig → ModelEou → M (List DetectorAction)
  eou_suppressed config e = do
    l ← get
    write (
        turn_eou_suppressed (record {
          ids = e.ids;
          source = "model_eou";
          detector = e.detector;
          reason = suppression config e l.session;
          end_sample = e.end_sample;
          decision_sample = e.decision_sample;
          observed_speech_samples = e.decision_sample - provisional_start l.session;
          min_required_samples = ms_to_samples config.min_model_eou_speech_ms;
        }))
    return []

  unfoldable pub eou_close : TurnManagerConfig → ModelEou → String → ℕ → ℕ → M (List DetectorAction)
  eou_close config e turn_id end_sample start = do
    l ← get
    close_turn (record {
      turn_id = turn_id;
      source = "model_eou";
      degraded = false;
      detector = e.detector;
      confidence = e.confidence;
      end_sample = end_sample;
      decision_sample = e.decision_sample;
      reason = "eou_token_detected";
      turn_start_sample = turn_start_or l.session.open_turn start;
    })
    return (decoder_reset e.ids e.decision_sample "model_eou" "eou_token_detected" ∷ [])

  unfoldable pub eou_accepted : TurnManagerConfig → ModelEou → ℕ → M (List DetectorAction)
  eou_accepted config e start = do
    _started ← ensure_turn e.ids.stream_session_id start "model"
    l ← get
    let end_sample = unwrap_or (past_sample e l.session.last_vad_end_sample) e.end_sample
    let turn_id = turn_id_or_next l.session
    write (
        turn_eou_candidate (record {
          ids = e.ids;
          turn_id = turn_id;
          source = "model_eou";
          degraded = false;
          detector = e.detector;
          confidence = e.confidence;
          start_sample = map_some l.session.open_turn (λ t. t.start_sample);
          end_sample = end_sample;
          decision_sample = e.decision_sample;
          text_delta = some e.text_delta;
          vad_end_to_model_eou_ms = delay_ms e l.session.last_vad_end_sample;
          vad_decision_to_model_eou_ms = delay_ms e l.session.last_vad_end_decision_sample;
        }))
    if config.model_eou_close_enabled
        then eou_close config e turn_id end_sample start
        else return []

  unfoldable pub on_model_eou : TurnManagerConfig → ModelEou → M (List DetectorAction)
  on_model_eou config e = do
    l ← get
    let s = l.session
    if too_early config e s
          || vad_still_in_speech s
          || refractory config e s
          || no_new_vad_speech_since_close s
        then eou_suppressed config e
        else eou_accepted config e (provisional_start s)

  -- Keep the decision for the next VAD end, and report it.
  unfoldable pub record_semantic_decision : SemanticTurnDecision → M (Unit {0})
  record_semantic_decision d = do
    modify λ t. record t {
      last_semantic_decision = some (record {
        detector = d.detector;
        end_sample = d.end_sample;
        decision_sample = d.decision_sample;
        complete = d.complete;
        available = d.available;
        timed_out = d.timed_out;
        probability = d.probability;
      });
    }
    write (
        turn_semantic_decision (record {
          ids = d.ids;
          detector = d.detector;
          end_sample = d.end_sample;
          decision_sample = d.decision_sample;
          complete = d.complete;
          available = d.available;
          timed_out = d.timed_out;
          probability = d.probability;
          threshold = d.threshold;
          reason = d.reason;
          duration_ms = d.duration_ms;
        }))

  unfoldable pub close_turn_from_semantic :
      TurnManagerConfig → Option ModelDrainHandle → SemanticTurnDecision → M (List DetectorAction)
  close_turn_from_semantic config drain d = do
    l ← get
    if is_none l.session.open_turn
        then return []
        else aligned_close config drain d.ids (turn_id_or_next l.session)
            (record {
              source = "smart_turn";
              degraded = false;
              detector = d.detector;
              confidence = d.probability;
              reason = "smart_turn_complete_direct";
            })
            d.end_sample d.decision_sample d.end_sample

  unfoldable pub on_semantic_turn_decision :
      TurnManagerConfig → Option ModelDrainHandle → SemanticTurnDecision → M (List DetectorAction)
  on_semantic_turn_decision config drain d = do
    record_semantic_decision d
    if not d.complete || not config.semantic_gate_close_enabled
        then return []
        else close_turn_from_semantic config drain d

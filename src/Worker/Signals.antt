-- ===== src/Worker/Signals.antt =====
-- What the detector worker does with signals: the rechecks of the semantic detector, and the turn
-- manager's actions (handle_signals, upsert_semantic_recheck,
-- cancel_semantic_rechecks_for_resumed_speech and process_due_semantic_rechecks of
-- crates/speech-core-daemon/src/detectors/mod.rs).
use speech_core.Base.{
  ℕ, ◌-◌, ◌&&◌, ◌||◌, not, String, str_eq, Option, none, some, List, [], ◌∷◌, ◌++◌, ltb, ◌==◌,
  if◌then◌else◌, retain, any,
}
use speech_core.Turn.Signals.{
  Ids, VadSegmentEnd, TranscriptTokenCommitted, DetectorSignal, vad_segment_start, vad_segment_end,
  transcript_token_committed, DetectorAction, reset_eou_state,
}
use speech_core.Turn.Local.{Outcome, ok, err}
use speech_core.Turn.Manager.{handle_signal}
use speech_core.Worker.Interfaces.{AudioDetector, SmartTurn, SmartTurnDecision, unavailable}
use speech_core.Worker.State.{
  SemanticRecheckState, detector_error, smart_turn_skipped, WorkerEnv, W, ◌>>=◌, ◌>>◌, return,
  worker, set_rechecks, with_turns, with_smart_turn, each_detector, log,
}
use speech_core.Worker.Events.{
  smart_turn_name, is_of, is_empty, scheduled_event, cancelled_event, decision_signal, recheck_of,
  recheck_end, exhausted_event, offsets_of,
}

module _ {D S : Type 0} ⦃detector : AudioDetector D⦄ ⦃smart : SmartTurn S⦄ ⦃env : WorkerEnv⦄ where
  unfoldable pub upsert_semantic_recheck : SemanticRecheckState → W D S (Unit {0})
  upsert_semantic_recheck recheck = do
    w ← worker
    set_rechecks (
        retain
          (λ r. not (is_of recheck.ids.stream_session_id r && r.end_sample == recheck.end_sample))
          w.semantic_rechecks)
    log (scheduled_event recheck recheck.initial_decision_sample)
    w' ← worker
    set_rechecks (w'.semantic_rechecks ++ recheck ∷ [])

  unfoldable pub log_cancelled : List SemanticRecheckState → W D S (Unit {0})
  log_cancelled [] = return tt
  log_cancelled (r ∷ rs) = do log (cancelled_event r); log_cancelled rs

  unfoldable pub cancel_semantic_rechecks_for_resumed_speech : String → W D S (Unit {0})
  cancel_semantic_rechecks_for_resumed_speech id = do
    w ← worker
    set_rechecks (retain (λ r. not (is_of id r)) w.semantic_rechecks)
    log_cancelled (retain (is_of id) w.semantic_rechecks)

  abbrev pub decided : Ids → String → Outcome SmartTurnDecision → W D S SmartTurnDecision
  decided ids message (ok decision) = return decision
  decided ids message err = do
    log (detector_error (record { ids = ids; detector = smart_turn_name; message = message }))
    return (unavailable "smart_turn_error")

  -- An error of the semantic detector is logged, and counts as no decision.
  unfoldable pub predict_or_unavailable : Ids → ℕ → ℕ → String → W D S SmartTurnDecision
  predict_or_unavailable ids end_sample decision_sample message = do
    answer ← with_smart_turn (ok (unavailable "smart_turn_error")) λ s.
        let (r, s') = smart.predict ids.stream_session_id end_sample decision_sample s in (ok r, s')
    decided ids message answer

  unfoldable pub apply_action : DetectorAction → W D S (Unit {0})
  apply_action (reset_eou_state r) = do
    w ← worker
    set_rechecks (
        if str_eq r.reason "vad_speech_start"
        then w.semantic_rechecks
        else retain (λ k. not (is_of r.ids.stream_session_id k)) w.semantic_rechecks)
    with_smart_turn tt (smart.act (reset_eou_state r))
    each_detector (detector.act (reset_eou_state r))

  unfoldable pub apply_actions : List DetectorAction → W D S (Unit {0})
  apply_actions [] = return tt
  apply_actions (a ∷ rest) = do apply_action a; apply_actions rest

  -- A boundary is judged by the semantic detector, if there is one.
  unfoldable pub judge_boundary : VadSegmentEnd → W D S (Unit {0})
  judge_boundary s = do
    decision ←
        predict_or_unavailable s.ids s.end_sample s.decision_sample
          "Smart Turn prediction failed; falling back to VAD"
    w ← worker
    let offsets = offsets_of w.smart_turn
    _actions ← with_turns (
        handle_signal ⦃env = env.turns⦄
          (decision_signal s.ids s.end_sample s.decision_sample decision))
    if decision.available && not decision.complete && not (is_empty offsets)
        then upsert_semantic_recheck (recheck_of s offsets)
        else return tt

  unfoldable pub log_skipped : VadSegmentEnd → ℕ → W D S (Unit {0})
  log_skipped s min_required = log (
      smart_turn_skipped (record {
        ids = s.ids;
        start_sample = s.start_sample;
        end_sample = s.end_sample;
        decision_sample = s.decision_sample;
        reason = "vad_segment_too_short";
        observed_speech_samples = s.end_sample - s.start_sample;
        min_required_samples = min_required;
      }))

  abbrev pub consult : VadSegmentEnd → Option S → ℕ → W D S (Unit {0})
  consult s none min_required = return tt
  consult s (some _) min_required =
      if ltb (s.end_sample - s.start_sample) min_required
      then log_skipped s min_required
      else judge_boundary s

  unfoldable pub consult_smart_turn : VadSegmentEnd → W D S (Unit {0})
  consult_smart_turn s w = consult s w.smart_turn w.min_vad_speech_samples w

  unfoldable pub cancel_if_spoken : TranscriptTokenCommitted → W D S (Unit {0})
  cancel_if_spoken t = do
    w ← worker
    if any (λ r. is_of t.ids.stream_session_id r && ltb r.end_sample t.end_sample)
          w.semantic_rechecks
        then cancel_semantic_rechecks_for_resumed_speech t.ids.stream_session_id
        else return tt

  -- What comes before the turn manager hears the signal.
  unfoldable pub prepare : DetectorSignal → W D S (Unit {0})
  prepare (vad_segment_start s) =
      cancel_semantic_rechecks_for_resumed_speech s.ids.stream_session_id
  prepare (transcript_token_committed t) = cancel_if_spoken t
  prepare (vad_segment_end s) = consult_smart_turn s
  prepare _ = return tt

  unfoldable pub handle_one_signal : DetectorSignal → W D S (Unit {0})
  handle_one_signal signal = do
    prepare signal
    actions ← with_turns (handle_signal ⦃env = env.turns⦄ signal)
    apply_actions actions

  unfoldable pub handle_signals : List DetectorSignal → W D S (Unit {0})
  handle_signals [] = return tt
  handle_signals (s ∷ rest) = do handle_one_signal s; handle_signals rest

  -- A recheck that is due, as it is judged: what is kept of it for later.
  unfoldable pub close_rechecked : SemanticRecheckState → ℕ → W D S (List SemanticRecheckState)
  close_rechecked r decision_sample = do
    actions ← with_turns (handle_signal ⦃env = env.turns⦄ (recheck_end r decision_sample))
    apply_actions actions
    return []

  unfoldable pub reschedule : SemanticRecheckState → ℕ → W D S (List SemanticRecheckState)
  reschedule r decision_sample = do
    log (
        if is_empty r.pending_decision_samples
        then exhausted_event r decision_sample
        else scheduled_event r decision_sample)
    return (if is_empty r.pending_decision_samples then [] else r ∷ [])

  unfoldable pub recheck_due : SemanticRecheckState → ℕ → W D S (List SemanticRecheckState)
  recheck_due r decision_sample = do
    decision ←
        predict_or_unavailable r.ids r.end_sample decision_sample
          "Smart Turn recheck failed; keeping turn open"
    _actions ← with_turns (
        handle_signal ⦃env = env.turns⦄
          (decision_signal r.ids r.end_sample decision_sample decision))
    if decision.available && decision.complete
        then close_rechecked r decision_sample
        else if decision.available
        then reschedule r decision_sample
        else return []

  -- One recheck: one without a decision left is dropped, one that is not due is kept.
  unfoldable pub recheck_at : String → ℕ → SemanticRecheckState → W D S (List SemanticRecheckState)
  recheck_at id audio_end r = elim r.pending_decision_samples [
    | [] ↦ return []
    | next ∷ later ↦
        if not (is_of id r) || ltb audio_end next
        then return (r ∷ [])
        else recheck_due (record r { pending_decision_samples = later }) next
  ]

  unfoldable pub recheck_all :
      String → ℕ → List SemanticRecheckState → List SemanticRecheckState → W D S (Unit {0})
  recheck_all id audio_end [] keep = set_rechecks keep
  recheck_all id audio_end (r ∷ rs) keep = do
    kept ← recheck_at id audio_end r
    recheck_all id audio_end rs (keep ++ kept)

  abbrev pub recheck_with : String → ℕ → Option S → W D S (Unit {0})
  recheck_with id audio_end none = return tt
  recheck_with id audio_end (some _) = do
    w ← worker
    set_rechecks []
    recheck_all id audio_end w.semantic_rechecks []

  unfoldable pub process_due_semantic_rechecks : String → ℕ → W D S (Unit {0})
  process_due_semantic_rechecks id audio_end w = recheck_with id audio_end w.smart_turn w

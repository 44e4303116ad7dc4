-- ===== src/Worker/Rechecks.antt =====
-- Proofs on the rechecks that the detector worker schedules
-- (crates/speech-core-daemon/src/detectors/mod.rs).
use speech_core.Base.{
  ℕ, ◌-◌, false, not, ◌&&◌, String, Option, none, some, List, [], ◌∷◌, ◌≡◌, sym, subst, if_both,
  if_cases, All-append, any, ltb, ◌==◌,
}
use speech_core.Turn.Signals.{
  VadSegmentEnd, DetectorSignal, vad_segment_start, vad_segment_end, vad_speech_presence,
  transcript_token_committed, vad_low_silence, model_eou, semantic_turn_decision,
  vad_acoustic_fallback,
}
use speech_core.Turn.Local.{Outcome, ok, err}
use speech_core.Worker.Interfaces.{AudioDetector, SmartTurn, SmartTurnDecision}
use speech_core.Worker.State.{SemanticRecheckState, DetectorWorker, WorkerEnv, W}
use speech_core.Worker.Events.{is_of, is_empty, recheck_of, offsets_of}
use speech_core.Worker.Signals.{
  upsert_semantic_recheck, log_cancelled, cancel_semantic_rechecks_for_resumed_speech, decided,
  predict_or_unavailable, judge_boundary, log_skipped, consult, consult_smart_turn,
  cancel_if_spoken, prepare, handle_one_signal, handle_signals,
}
use speech_core.Worker.Leaves.{
  gives, Leaves-continue, All-retain, Rechecks, Keeps, set_rechecks-Keeps, with_turns-Keeps,
  with_smart_turn-Keeps, log-Keeps, apply_actions-Keeps,
}

-- A recheck made of a boundary that is long enough is one that Q allows.
abbrev pub Judged : (SemanticRecheckState → Type 0) → ℕ → VadSegmentEnd → Type 0
Judged Q least s =
    ltb (s.end_sample - s.start_sample) least ≡ false
    → (offsets : List ℕ) → Q (recheck_of s offsets)

-- The decisions that have passed make no difference to Q.
abbrev pub Lasts : (SemanticRecheckState → Type 0) → Type 0
Lasts Q =
    (r : SemanticRecheckState) (next : ℕ) (later : List ℕ)
    → r.pending_decision_samples ≡ next ∷ later
    → Q r
    → Q (record r { pending_decision_samples = later })

module _ {D S : Type 0} ⦃detector : AudioDetector D⦄ ⦃smart : SmartTurn S⦄ ⦃env : WorkerEnv⦄ where
  module _ (Q : SemanticRecheckState → Type 0) (least : ℕ) where
    pub log_cancelled-Keeps :
        (rs : List SemanticRecheckState) (w : DetectorWorker D S)
        → Rechecks D S Q least w
        → Keeps Q least (log_cancelled rs w)
    unfolding log_cancelled
    log_cancelled-Keeps [] w p = gives tt w tt p
    log_cancelled-Keeps (r ∷ rs) w p =
        Leaves-continue (log-Keeps Q least _ w p) λ _ w1 _ p1. log_cancelled-Keeps rs w1 p1

    pub cancel-Keeps :
        (id : String) (w : DetectorWorker D S)
        → Rechecks D S Q least w
        → Keeps Q least (cancel_semantic_rechecks_for_resumed_speech id w)
    unfolding cancel_semantic_rechecks_for_resumed_speech
    cancel-Keeps id w p =
        Leaves-continue
          (set_rechecks-Keeps Q least _ w p (All-retain Q (λ r. not (is_of id r)) _ p.all))
          λ _ w1 _ p1. log_cancelled-Keeps _ w1 p1

    upsert-Keeps :
        (r : SemanticRecheckState) (w : DetectorWorker D S)
        → Q r
        → Rechecks D S Q least w
        → Keeps Q least (upsert_semantic_recheck r w)
    unfolding upsert_semantic_recheck
    upsert-Keeps r w q p =
        Leaves-continue
          (set_rechecks-Keeps Q least _ w p (
            All-retain Q
              (λ k. not (is_of r.ids.stream_session_id k && k.end_sample == r.end_sample)) _ p.all))
          λ _ w1 _ p1.
            Leaves-continue (log-Keeps Q least _ w1 p1)
              λ _ w2 _ p2. set_rechecks-Keeps Q least _ w2 p2 (All-append Q _ _ p2.all (q, tt))

    pub predict-Keeps :
        (ids : _) (end_sample decision_sample : ℕ) (message : String) (w : DetectorWorker D S)
        → Rechecks D S Q least w
        → Keeps Q least (predict_or_unavailable ids end_sample decision_sample message w)
    unfolding predict_or_unavailable
    predict-Keeps ids end_sample decision_sample message w p =
        Leaves-continue (with_smart_turn-Keeps Q least _ _ w p) λ answer w1 _ p1. go answer w1 p1
      where
        go :
            (answer : Outcome SmartTurnDecision) (w1 : DetectorWorker D S)
            → Rechecks D S Q least w1
            → Keeps Q least (decided ids message answer w1)
        go (ok d) w1 p1 = gives d w1 tt p1
        go err w1 p1 = Leaves-continue (log-Keeps Q least _ w1 p1) λ _ w2 _ p2. gives _ w2 tt p2

    judge_boundary-Keeps :
        (s : VadSegmentEnd) (w : DetectorWorker D S)
        → ((offsets : List ℕ) → Q (recheck_of s offsets))
        → Rechecks D S Q least w
        → Keeps Q least (judge_boundary s w)
    unfolding judge_boundary
    judge_boundary-Keeps s w q p = Leaves-continue (predict-Keeps _ _ _ _ w p) λ d w1 _ p1.
        Leaves-continue (with_turns-Keeps Q least _ w1 p1) λ _ w2 _ p2.
          if_both (λ (m : W D S (Unit {0})). Keeps Q least (m w2))
            (d.available && not d.complete && not (is_empty (offsets_of w1.smart_turn)))
            (upsert-Keeps _ w2 (q _) p2) (gives tt w2 tt p2)

    consult-Keeps :
        (s : VadSegmentEnd) (w : DetectorWorker D S)
        → Judged Q least s
        → Rechecks D S Q least w
        → Keeps Q least (consult_smart_turn s w)
    unfolding consult_smart_turn log_skipped
    consult-Keeps s w q p =
        subst (λ n. Keeps Q least (consult s w.smart_turn n w)) (sym p.same_least) (go w.smart_turn)
      where
        skipped-Keeps : Keeps Q least (log_skipped s least w)
        skipped-Keeps = log-Keeps Q least _ w p

        go : (o : Option S) → Keeps Q least (consult s o least w)
        go none = gives tt w tt p
        go (some _) =
            if_cases (λ (m : W D S (Unit {0})). Keeps Q least (m w))
              (ltb (s.end_sample - s.start_sample) least) (λ _. skipped-Keeps)
              λ long. judge_boundary-Keeps s w (q long) p

    prepare-Keeps :
        (signal : DetectorSignal) (w : DetectorWorker D S)
        → ((s : VadSegmentEnd) → Judged Q least s)
        → Rechecks D S Q least w
        → Keeps Q least (prepare signal w)
    unfolding prepare cancel_if_spoken
    prepare-Keeps (vad_segment_start s) w q p = cancel-Keeps _ w p
    prepare-Keeps (vad_segment_end s) w q p = consult-Keeps s w (q s) p
    prepare-Keeps (vad_speech_presence s) w q p = gives tt w tt p
    prepare-Keeps (transcript_token_committed t) w q p =
        if_both (λ (m : W D S (Unit {0})). Keeps Q least (m w))
          (any (λ r. is_of t.ids.stream_session_id r && ltb r.end_sample t.end_sample)
            w.semantic_rechecks)
          (cancel-Keeps _ w p) (gives tt w tt p)
    prepare-Keeps (vad_low_silence s) w q p = gives tt w tt p
    prepare-Keeps (model_eou s) w q p = gives tt w tt p
    prepare-Keeps (semantic_turn_decision s) w q p = gives tt w tt p
    prepare-Keeps (vad_acoustic_fallback s) w q p = gives tt w tt p

    pub handle_one-Keeps :
        (signal : DetectorSignal) (w : DetectorWorker D S)
        → ((s : VadSegmentEnd) → Judged Q least s)
        → Rechecks D S Q least w
        → Keeps Q least (handle_one_signal signal w)
    unfolding handle_one_signal
    handle_one-Keeps signal w q p = Leaves-continue (prepare-Keeps signal w q p) λ _ w1 _ p1.
        Leaves-continue (with_turns-Keeps Q least _ w1 p1)
          λ actions w2 _ p2. apply_actions-Keeps Q least actions w2 p2

    pub handle_signals-Keeps :
        (signals : List DetectorSignal) (w : DetectorWorker D S)
        → ((s : VadSegmentEnd) → Judged Q least s)
        → Rechecks D S Q least w
        → Keeps Q least (handle_signals signals w)
    unfolding handle_signals
    handle_signals-Keeps [] w q p = gives tt w tt p
    handle_signals-Keeps (s ∷ rest) w q p =
        Leaves-continue (handle_one-Keeps s w q p) λ _ w1 _ p1. handle_signals-Keeps rest w1 q p1

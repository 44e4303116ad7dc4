-- ===== src/Worker/Scheduled.antt =====
-- Proofs on the rechecks of the detector worker over its commands
-- (crates/speech-core-daemon/src/detectors/mod.rs).
use speech_core.Base.{
  ℕ, zero, suc, ◌-◌, ◌<◌, ◌≤◌, true, false, not, String, Option, none, some, List, [], ◌∷◌, ◌≡◌,
  refl, subst, if_cases, All, retain, ltb, ltb→lt, arith,
}
use speech_core.Protocol.Types.{AudioFrame}
use speech_core.Turn.Signals.{VadSegmentStart, VadSegmentEnd, DetectorSignal, vad_segment_start}
use speech_core.Turn.Local.{HelloState, Outcome}
use speech_core.Turn.Manager.Sessions.{AudioGapReset}
use speech_core.Worker.Interfaces.{AudioDetector, SmartTurn}
use speech_core.Worker.State.{SemanticRecheckState, DetectorWorker, WorkerEnv, set_rechecks}
use speech_core.Worker.Events.{is_of, recheck_of}
use speech_core.Worker.Signals.{
  cancel_semantic_rechecks_for_resumed_speech, prepare, handle_one_signal,
}
use speech_core.Worker.Commands.{
  DetectorCommand, start_detection, audio_frame, token_committed, end_detection, gap_reset_command,
  shutdown, forget_rechecks, each_in_turn, all_in_turn, end_session_inner, reset_for_gap,
  start_parts, start_all, undone_if, hear_samples, hear_frame, finalize_worker, handle,
  decode_frame_to_f32,
}
use speech_core.Worker.Leaves.{
  gives, stops, Leaves-continue, Leaves-state, All-retain, retain-passes, Rechecks, Keeps,
  set_rechecks-Keeps, with_turns-Keeps, with_smart_turn-Keeps, with_detector-Keeps,
  each_detector-Keeps, log-Keeps, apply_actions-Keeps,
}
use speech_core.Worker.Rechecks.{Judged, Lasts, handle_signals-Keeps, log_cancelled-Keeps}
use speech_core.Worker.Due.{process_due-Keeps}

-- A recheck is of a segment that is long enough, at samples past its first decision.
pub record IsScheduled (least : ℕ) (r : SemanticRecheckState) : Type 0 where
  pub long_enough : least ≤ r.end_sample - r.start_sample
  pub later : All (λ sample. r.initial_decision_sample < sample) r.pending_decision_samples

not_ltb : (a b : ℕ) → ltb a b ≡ false → b ≤ a
not_ltb a b h = ground arith

past_decision :
    (decision : ℕ) (samples : List ℕ)
    → All (λ x. decision < x) (retain (λ sample. ltb decision sample) samples)
past_decision decision [] = tt
past_decision decision (x ∷ xs) =
    if_cases (All (λ y. decision < y)) (ltb decision x)
      (λ e. (ltb→lt decision x e, past_decision decision xs)) λ _. past_decision decision xs

recheck_of-IsScheduled :
    (least : ℕ) (s : VadSegmentEnd) (offsets : List ℕ)
    → least ≤ s.end_sample - s.start_sample
    → IsScheduled least (recheck_of s offsets)
unfolding recheck_of
recheck_of-IsScheduled least s offsets long = record {
  long_enough = long;
  later = past_decision s.decision_sample _;
}

IsScheduled-Lasts : (least : ℕ) → Lasts (IsScheduled least)
IsScheduled-Lasts least r next later e q = record {
  long_enough = q.long_enough;
  later = (subst (All (λ x. r.initial_decision_sample < x)) e q.later).1;
}

IsScheduled-Judged : (least : ℕ) (s : VadSegmentEnd) → Judged (IsScheduled least) least s
IsScheduled-Judged least s long offsets = recheck_of-IsScheduled least s offsets (not_ltb _ _ long)

-- Not a recheck of the session.
abbrev pub IsOther : String → SemanticRecheckState → Type 0
IsOther id r = not (is_of id r) ≡ true

module _ {D S : Type 0} ⦃detector : AudioDetector D⦄ ⦃smart : SmartTurn S⦄ ⦃env : WorkerEnv⦄ where
  module _ (Q : SemanticRecheckState → Type 0) (least : ℕ)
      (judged : (s : VadSegmentEnd) → Judged Q least s) (lasts : Lasts Q) where
    forget_rechecks-Keeps :
        (id : String) (w : DetectorWorker D S)
        → Rechecks D S Q least w
        → Keeps Q least (forget_rechecks id w)
    unfolding forget_rechecks
    forget_rechecks-Keeps id w p =
        set_rechecks-Keeps Q least _ w p (All-retain Q (λ r. not (is_of id r)) _ p.all)

    each_in_turn-Keeps :
        (f : D → Outcome (List DetectorSignal) × D) (index count : ℕ) (w : DetectorWorker D S)
        → Rechecks D S Q least w
        → Keeps Q least (each_in_turn f index count w)
    unfolding each_in_turn
    each_in_turn-Keeps f index zero w p = gives tt w tt p
    each_in_turn-Keeps f index (suc count) w p =
        Leaves-continue (with_detector-Keeps Q least index [] f w p) λ signals w1 _ p1.
          Leaves-continue (handle_signals-Keeps Q least signals w1 judged p1)
            λ _ w2 _ p2. each_in_turn-Keeps f (suc index) count w2 p2

    all_in_turn-Keeps :
        (f : D → Outcome (List DetectorSignal) × D) (w : DetectorWorker D S)
        → Rechecks D S Q least w
        → Keeps Q least (all_in_turn f w)
    unfolding all_in_turn
    all_in_turn-Keeps f w p = each_in_turn-Keeps f 0 _ w p

    end_session_inner-Keeps :
        (id reason : String) (w : DetectorWorker D S)
        → Rechecks D S Q least w
        → Keeps Q least (end_session_inner id reason w)
    unfolding end_session_inner
    end_session_inner-Keeps id reason w p =
        Leaves-continue (forget_rechecks-Keeps id w p) λ _ w1 _ p1.
          Leaves-continue (all_in_turn-Keeps _ w1 p1) λ _ w2 _ p2.
            Leaves-continue (with_smart_turn-Keeps Q least tt _ w2 p2)
              λ _ w3 _ p3. with_turns-Keeps Q least _ w3 p3

    start_all-Keeps :
        (hello : HelloState) (w : DetectorWorker D S)
        → Rechecks D S Q least w
        → Keeps Q least (start_all hello w)
    unfolding start_all start_parts
    start_all-Keeps hello w p = undone (
        Leaves-continue (forget_rechecks-Keeps _ w p) λ _ w1 _ p1.
          Leaves-continue (with_turns-Keeps Q least _ w1 p1) λ _ w2 _ p2.
            Leaves-continue (with_smart_turn-Keeps Q least tt _ w2 p2)
              λ _ w3 _ p3. each_detector-Keeps Q least _ w3 p3)
      where
        undone :
            {r : Outcome (Unit {0}) × DetectorWorker D S}
            → Keeps Q least r
            → Keeps Q least (undone_if hello.stream_session_id r)
        undone (gives a w1 _ p1) = gives tt w1 tt p1
        undone (stops w1 p1) = stops _ (Leaves-state (end_session_inner-Keeps _ _ w1 p1))

    hear_frame-Keeps :
        (frame : AudioFrame) (ingress : ℕ) (w : DetectorWorker D S)
        → Rechecks D S Q least w
        → Keeps Q least (hear_frame frame ingress w)
    unfolding hear_frame
    hear_frame-Keeps frame ingress w p = go (decode_frame_to_f32 env.float frame)
      where
        go : (o : Option (List ℕ)) → Keeps Q least (hear_samples frame ingress o w)
        go none = stops w p
        go (some samples) = Leaves-continue (with_smart_turn-Keeps Q least tt _ w p) λ _ w1 _ p1.
            Leaves-continue (all_in_turn-Keeps _ w1 p1)
              λ _ w2 _ p2. process_due-Keeps Q least _ _ w2 lasts p2

    handle-Keeps :
        (command : DetectorCommand) (w : DetectorWorker D S)
        → Rechecks D S Q least w
        → Keeps Q least (handle command w)
    unfolding handle reset_for_gap finalize_worker
    handle-Keeps (start_detection hello) w p = start_all-Keeps hello w p
    handle-Keeps (audio_frame frame ingress) w p = hear_frame-Keeps frame ingress w p
    handle-Keeps (token_committed token) w p = handle_signals-Keeps Q least _ w judged p
    handle-Keeps (end_detection ids reason) w p = end_session_inner-Keeps _ reason w p
    handle-Keeps (gap_reset_command gap) w p =
        Leaves-continue (forget_rechecks-Keeps _ w p) λ _ w1 _ p1.
          Leaves-continue (with_turns-Keeps Q least _ w1 p1) λ _ w2 _ p2.
            Leaves-continue (with_smart_turn-Keeps Q least tt _ w2 p2) λ _ w3 _ p3.
              Leaves-continue (each_detector-Keeps Q least _ w3 p3)
                λ _ w4 _ p4. log-Keeps Q least _ w4 p4
    handle-Keeps shutdown w p = gives tt _ tt (record { all = p.all; same_least = p.same_least })

  -- Whatever command comes, and whether or not it fails: if every scheduled recheck is of a segment
  -- of the least length or more, and all its pending decisions are past the first one, then so is
  -- every recheck that is scheduled afterwards, and the least length is the same.
  pub handle-IsScheduled :
      (command : DetectorCommand) (w : DetectorWorker D S)
      → All (IsScheduled w.min_vad_speech_samples) w.semantic_rechecks
      → Rechecks D S
          (IsScheduled w.min_vad_speech_samples)
          w.min_vad_speech_samples
          (handle command w).1
  handle-IsScheduled command w all = Leaves-state (
      handle-Keeps (IsScheduled w.min_vad_speech_samples) w.min_vad_speech_samples
        (IsScheduled-Judged w.min_vad_speech_samples) (IsScheduled-Lasts w.min_vad_speech_samples)
        command w (record { all = all; same_least = refl }))

  forget_rechecks-IsOther :
      (id : String) (w : DetectorWorker D S)
      → Keeps (IsOther id) w.min_vad_speech_samples (forget_rechecks id w)
  unfolding forget_rechecks set_rechecks
  forget_rechecks-IsOther id w = gives tt _ tt (record {
    all = retain-passes (λ r. not (is_of id r)) w.semantic_rechecks;
    same_least = refl;
  })

  resumed-IsOther :
      (s : VadSegmentStart) (w : DetectorWorker D S)
      → Keeps
          (IsOther s.ids.stream_session_id)
          w.min_vad_speech_samples
          (handle_one_signal (vad_segment_start s) w)
  unfolding handle_one_signal prepare cancel_semantic_rechecks_for_resumed_speech forget_rechecks
  resumed-IsOther s w =
      let Q = IsOther s.ids.stream_session_id in
      let least = w.min_vad_speech_samples in
      Leaves-continue
        (Leaves-continue (forget_rechecks-IsOther s.ids.stream_session_id w)
          λ _ w1 _ p1. log_cancelled-Keeps Q least _ w1 p1)
        λ _ w2 _ p2.
          Leaves-continue (with_turns-Keeps Q least _ w2 p2)
            λ actions w3 _ p3. apply_actions-Keeps Q least actions w3 p3

  -- What follows a gap adds no recheck.
  gap-IsOther :
      (gap : AudioGapReset) (w : DetectorWorker D S)
      → Keeps (IsOther gap.ids.stream_session_id) w.min_vad_speech_samples (reset_for_gap gap w)
  unfolding reset_for_gap
  gap-IsOther gap w =
      let Q = IsOther gap.ids.stream_session_id in
      let least = w.min_vad_speech_samples in
      Leaves-continue (forget_rechecks-IsOther gap.ids.stream_session_id w) λ _ w1 _ p1.
        Leaves-continue (with_turns-Keeps Q least _ w1 p1) λ _ w2 _ p2.
          Leaves-continue (with_smart_turn-Keeps Q least tt _ w2 p2) λ _ w3 _ p3.
            Leaves-continue (each_detector-Keeps Q least _ w3 p3)
              λ _ w4 _ p4. log-Keeps Q least _ w4 p4

  -- When speech of a session starts again, and when its audio has a gap, no recheck of the session
  -- is left, whether or not the work that follows fails.
  pub handle_one_signal-IsOther :
      (s : VadSegmentStart) (gap : AudioGapReset) (w : DetectorWorker D S)
      → All
          (IsOther s.ids.stream_session_id)
          (handle_one_signal (vad_segment_start s) w).1.semantic_rechecks
        × All (IsOther gap.ids.stream_session_id) (reset_for_gap gap w).1.semantic_rechecks
  handle_one_signal-IsOther s gap w =
      ((Leaves-state (resumed-IsOther s w)).all, (Leaves-state (gap-IsOther gap w)).all)

-- ===== src/Worker/Events.antt =====
-- The events and signals of the semantic rechecks, and which rechecks there are
-- (crates/speech-core-daemon/src/detectors/mod.rs).
use speech_core.Base.{
  ℕ, Bool, true, false, String, str_eq, Option, none, some, List, [], ◌∷◌, map, ltb, retain,
}
use speech_core.Base.Words.{saturating_add}
use speech_core.Turn.Signals.{
  Ids, VadSegmentEnd, DetectorSignal, vad_segment_end, semantic_turn_decision,
}
use speech_core.Worker.Interfaces.{SmartTurn, SmartTurnDecision}
use speech_core.Worker.State.{
  SemanticRecheckState, WorkerEvent, smart_turn_recheck_scheduled, smart_turn_recheck_cancelled,
  smart_turn_recheck_exhausted,
}

abbrev pub smart_turn_name : String
smart_turn_name = "pipecat_smart_turn_v3"

-- A recheck of this session.
abbrev pub is_of : String → SemanticRecheckState → Bool
is_of id r = str_eq r.ids.stream_session_id id

abbrev pub head_or : List ℕ → ℕ → ℕ
head_or [] d = d
head_or (x ∷ xs) d = x

abbrev pub is_empty : {A : Type 0} → List A → Bool
is_empty [] = true
is_empty (x ∷ xs) = false

unfoldable pub scheduled_event : SemanticRecheckState → ℕ → WorkerEvent
scheduled_event r otherwise = smart_turn_recheck_scheduled (record {
  ids = r.ids;
  start_sample = r.start_sample;
  end_sample = r.end_sample;
  initial_decision_sample = r.initial_decision_sample;
  next_decision_sample = head_or r.pending_decision_samples otherwise;
  pending_decision_samples = r.pending_decision_samples;
})

unfoldable pub cancelled_event : SemanticRecheckState → WorkerEvent
cancelled_event r = smart_turn_recheck_cancelled (record {
  ids = r.ids;
  start_sample = r.start_sample;
  end_sample = r.end_sample;
  initial_decision_sample = r.initial_decision_sample;
  reason = "speech_resumed";
})

-- The signal for a decision on a boundary.
unfoldable pub decision_signal : Ids → ℕ → ℕ → SmartTurnDecision → DetectorSignal
decision_signal ids end_sample decision_sample d = semantic_turn_decision (record {
  detector = smart_turn_name;
  ids = ids;
  end_sample = end_sample;
  decision_sample = decision_sample;
  complete = d.complete;
  probability = d.probability;
  threshold = d.threshold;
  timed_out = d.timed_out;
  available = d.available;
  reason = d.reason;
  duration_ms = d.duration_ms;
})

-- The rechecks of a segment: after its end at the offsets, as far as that is past the decision.
unfoldable pub recheck_of : VadSegmentEnd → List ℕ → SemanticRecheckState
recheck_of s offsets = record {
  ids = s.ids;
  start_sample = s.start_sample;
  end_sample = s.end_sample;
  initial_decision_sample = s.decision_sample;
  pending_decision_samples =
      retain (λ sample. ltb s.decision_sample sample)
        (map (λ offset. saturating_add s.end_sample offset) offsets);
  confidence = s.confidence;
}

-- The end of the segment that a recheck was about.
unfoldable pub recheck_end : SemanticRecheckState → ℕ → DetectorSignal
recheck_end r decision_sample = vad_segment_end (record {
  detector = "semantic_recheck";
  ids = r.ids;
  start_sample = r.start_sample;
  end_sample = r.end_sample;
  decision_sample = decision_sample;
  confidence = r.confidence;
})

unfoldable pub exhausted_event : SemanticRecheckState → ℕ → WorkerEvent
exhausted_event r decision_sample = smart_turn_recheck_exhausted (record {
  ids = r.ids;
  start_sample = r.start_sample;
  end_sample = r.end_sample;
  initial_decision_sample = r.initial_decision_sample;
  final_decision_sample = decision_sample;
  confidence = r.confidence;
})

abbrev pub offsets_of : {S : Type 0} → ⦃smart : SmartTurn S⦄ → Option S → List ℕ
offsets_of none = []
offsets_of ⦃smart = smart⦄ (some s) = smart.offsets s

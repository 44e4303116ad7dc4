-- ===== src/Turn/Invariant/Segment.antt =====
-- The invariant through the handlers of VAD segments
-- (crates/speech-core-daemon/src/detectors/turn.rs).
use speech_core.Base.{
  ℕ, ◌-◌, Bool, true, false, ◌&&◌, not, String, Option, none, some, List, ◌≡◌, refl, ltb,
  if◌then◌else◌,
}
use speech_core.Turn.Config.{TurnManagerConfig, ms_to_samples}
use speech_core.Turn.Signals.{VadSegmentStart, VadSegmentEnd, ModelDrainHandle}
use speech_core.Turn.Events.{Event}
use speech_core.Turn.Local.{Env, Local, return, OpenTurn, SemanticDecisionState}
use speech_core.Turn.Close.{CloseChoice, turn_start_or}
use speech_core.Turn.Handlers.Shared.{is_stale, hold_anchor, hold_fires}
use speech_core.Turn.Handlers.Segment.{
  on_vad_segment_start, segment_hold, vad_choice, close_by_choice, semantic_incomplete,
  semantic_gate, decides, vad_too_short, vad_end_close, live_segment_end, on_vad_segment_end,
}
use speech_core.Turn.Post.{Post, good, Post-continue, Post-if}
use speech_core.Turn.Invariant.{Inv, Open}
use speech_core.Turn.Invariant.Session.{Inv-session, Open-session, write-Inv, write-Open}
use speech_core.Turn.Invariant.Shared.{
  turn_id_or_next-Open, ensure_turn-SomeOpen, aligned_close-Inv,
}

-- A turn may go without a close: it was started, and counts no further.
dropped :
    {key : String} {base : List Event} {l : Local} (b : Bool)
    → Inv key base l
    → Inv key base (record l {
      session = record (l.session) { open_turn = if b then none else l.session.open_turn };
    })
dropped true i = record {
  counted = record {
    named = i.counted.named;
    indexed = i.counted.indexed;
    bounded = i.counted.bounded;
    closed_started = i.counted.closed_started;
    latest = tt;
  };
  ordered = i.ordered;
  grown = i.grown;
}
dropped false i = i

module _ ⦃env : Env⦄ {key : String} {base : List Event} where
  pub on_vad_segment_start-Inv :
      (s : VadSegmentStart) (l : Local)
      → Inv key base l
      → Post (Inv key base) (Inv key base) (on_vad_segment_start s l)
  unfolding on_vad_segment_start
  on_vad_segment_start-Inv s l i =
      Post-continue (ensure_turn-SomeOpen s.ids.stream_session_id s.start_sample "vad" l i)
        λ _ l1 o1.
          Post-continue
            (write-Inv _ _ (λ h. h) (Inv-session _ (refl, refl, refl, refl, refl) o1.1.inv))
            λ _ l2 i2. good _ l2 i2

  -- The turn stays open, whatever the gate chooses.
  segment_hold-Open :
      (s : VadSegmentEnd) (turn_id : String) (d : SemanticDecisionState) (anchor : ℕ)
      {turn : OpenTurn} (l : Local)
      → Open key base turn l
      → Post (Inv key base) (Open key base turn) (segment_hold s turn_id d anchor l)
  unfolding segment_hold
  segment_hold-Open s turn_id d anchor l o =
      Post-continue (write-Open _ _ (λ h. h) (Open-session _ (refl, refl, refl, refl, refl) o))
        λ _ l1 o1. good _ l1 o1

  semantic_incomplete-Open :
      (config : TurnManagerConfig) (s : VadSegmentEnd) (turn_id : String)
      (d : SemanticDecisionState) {turn : OpenTurn} (l : Local)
      → Open key base turn l
      → Post (Inv key base) (Open key base turn) (semantic_incomplete config s turn_id d l)
  unfolding semantic_incomplete
  semantic_incomplete-Open config s turn_id d l o =
      Post-continue (write-Open _ _ (λ h. h) o) λ _ l1 o1.
        let threshold = ms_to_samples config.human_hold_silence_ms in
        let anchor =
          hold_anchor s.ids.stream_session_id (turn_start_or l1.session.open_turn s.start_sample)
            l1 in
        Post-if
          (ltb 0 threshold
            && hold_fires s.decision_sample anchor threshold
                l1.session.last_human_hold_token_anchor)
          _ _ l1 (λ _. segment_hold-Open s turn_id d anchor l1 o1) (λ _. good _ l1 o1)

  semantic_gate-Open :
      (config : TurnManagerConfig) (s : VadSegmentEnd) (turn_id : String)
      (d : Option SemanticDecisionState) {turn : OpenTurn} (l : Local)
      → Open key base turn l
      → Post (Inv key base) (Open key base turn) (semantic_gate config s turn_id d l)
  unfolding semantic_gate
  semantic_gate-Open config s turn_id none l o = good _ l o
  semantic_gate-Open config s turn_id (some d) l o =
      Post-if (decides s d && d.complete) _ _ l (λ _. good _ l o)
        λ _.
          Post-if (decides s d && not d.timed_out) _ _ l
            (λ _. semantic_incomplete-Open config s turn_id d l o)
            λ _. Post-if (decides s d && d.timed_out) _ _ l (λ _. good _ l o) λ _. good _ l o

  vad_too_short-Inv :
      (config : TurnManagerConfig) (s : VadSegmentEnd) (l : Local)
      → Inv key base l
      → Post (Inv key base) (Inv key base) (vad_too_short config s l)
  unfolding vad_too_short
  vad_too_short-Inv config s l i =
      Post-continue (write-Inv _ _ (λ h. h) i) λ _ l1 i1. good _ _ (dropped _ i1)

  vad_end_close-Inv :
      (config : TurnManagerConfig) (drain : Option ModelDrainHandle) (s : VadSegmentEnd)
      (turn_id : String) {turn : OpenTurn} (l : Local)
      → Open key base turn l
      → turn_id ≡ turn.turn_id
      → Post (Inv key base) (Inv key base) (vad_end_close config drain s turn_id l)
  unfolding vad_end_close
  vad_end_close-Inv config drain s turn_id {turn} l o e = Post-continue chosen finish
    where
      chosen : Post (Inv key base) (Open key base turn) (
          (if config.semantic_gate_enabled && config.semantic_gate_close_enabled
              then semantic_gate config s turn_id l.session.last_semantic_decision
              else return (some (vad_choice s "vad_speech_end")))
            l)
      chosen =
          Post-if (config.semantic_gate_enabled && config.semantic_gate_close_enabled) _ _ l
            (λ _. semantic_gate-Open config s turn_id l.session.last_semantic_decision l o)
            (λ _. good _ l o)

      finish :
          (choice : Option CloseChoice) (m : Local)
          → Open key base turn m
          → Post (Inv key base) (Inv key base) (close_by_choice config drain s turn_id choice m)
      finish none m om = good _ m om.inv
      finish (some c) m om =
          Post-if config.vad_close_enabled _ _ m
            (λ _.
              aligned_close-Inv config drain s.ids turn_id c s.end_sample s.decision_sample
                s.start_sample m om e)
            (λ _. good _ m om.inv)

  pub on_vad_segment_end-Inv :
      (config : TurnManagerConfig) (drain : Option ModelDrainHandle) (s : VadSegmentEnd) (l : Local)
      → Inv key base l
      → Post (Inv key base) (Inv key base) (on_vad_segment_end config drain s l)
  unfolding on_vad_segment_end live_segment_end
  on_vad_segment_end-Inv config drain s l i =
      Post-if (is_stale s.decision_sample l.session) _ _ l (λ _. good _ l i)
        λ _.
          Post-continue (ensure_turn-SomeOpen s.ids.stream_session_id s.start_sample "vad" l i)
            λ _ l1 o1.
              let o = Open-session _ (refl, refl, refl, refl, refl) o1.1 in
              Post-continue (write-Open _ _ (λ h. h) o) λ _ l2 o2.
                Post-if
                  (ltb (s.end_sample - s.start_sample) (ms_to_samples config.min_vad_speech_ms)) _ _
                  l2 (λ _. vad_too_short-Inv config s l2 o2.inv)
                  (λ _. vad_end_close-Inv config drain s _ l2 o2 (turn_id_or_next-Open o))

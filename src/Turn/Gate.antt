-- ===== src/Turn/Gate.antt =====
-- Proofs on the semantic gate over a VAD end
-- (VadSegmentEnd and SemanticTurnDecision in crates/speech-core-daemon/src/detectors/turn.rs).
use speech_core.Base.{
  ℕ, ◌-◌, ◌≤◌, true, false, ◌&&◌, ◌||◌, not, String, Option, none, some, [], ◌∷◌, ltb, ◌≡◌, refl,
  sym, subst, if_cases, is_none, arith,
}
use speech_core.Turn.Config.{TurnManagerConfig, ms_to_samples}
use speech_core.Turn.Signals.{VadSegmentEnd, SemanticTurnDecision, ModelDrainHandle}
use speech_core.Turn.Events.{Event}
use speech_core.Turn.Local.{
  Env, Local, M, Outcome, ok, err, continue, written, write, OpenTurn, SemanticDecisionState,
}
use speech_core.Turn.Close.{CloseChoice}
use speech_core.Turn.Handlers.Shared.{ensure_turn, is_stale}
use speech_core.Turn.Handlers.Segment.{
  semantic_incomplete, decides, semantic_gate, close_by_choice, vad_end_close, live_segment_end,
  on_vad_segment_end,
}
use speech_core.Turn.Handlers.Model.{record_semantic_decision, on_semantic_turn_decision}
use speech_core.Turn.Post.{Post, good, bad, Post-continue, Post-if, Post-state, Post-after_write}

-- The decision speaks of the segment's end, in time, and says that the turn goes on.
pub record KeepsOpen (d : SemanticTurnDecision) (s : VadSegmentEnd) : Type 0 where
  pub same_end : d.end_sample ≡ s.end_sample
  pub same_decision : d.decision_sample ≡ s.decision_sample
  pub available : d.available ≡ true
  pub in_time : d.timed_out ≡ false
  pub incomplete : d.complete ≡ false

-- The gate is on, and a turn is never held open by silence alone.
pub record GateOnly (config : TurnManagerConfig) : Type 0 where
  pub gated : config.semantic_gate_enabled ≡ true
  pub gate_closes : config.semantic_gate_close_enabled ≡ true
  pub no_hold : ms_to_samples config.human_hold_silence_ms ≡ 0

-- The turn is open, and nothing was closed.
abbrev pub StillOpen : OpenTurn → ℕ → Local → Type 0
StillOpen turn closed l = (l.session.open_turn ≡ some turn) × (l.session.turns_closed ≡ closed)

-- A choice not to close, or a failure.
data NoChoice (I : Local → Type 0) : Outcome (Option CloseChoice) × Local → Type 0 where
  left_open : (l : Local) → I l → NoChoice I (ok none, l)
  failed : (l : Local) → I l → NoChoice I (err, l)

-- The decision as the session keeps it.
abbrev recorded_decision : SemanticTurnDecision → SemanticDecisionState
recorded_decision d = record {
  detector = d.detector;
  end_sample = d.end_sample;
  decision_sample = d.decision_sample;
  complete = d.complete;
  available = d.available;
  timed_out = d.timed_out;
  probability = d.probability;
}

none_open : {turn : OpenTurn} {o : Option OpenTurn} → o ≡ some turn → is_none o ≡ true → ⊥
none_open {o = none} e h = cc
none_open {o = some _} e h = cc

module _ ⦃env : Env⦄ where
  -- The same, with the decision on record.
  abbrev Decided : SemanticTurnDecision → OpenTurn → ℕ → Local → Type 0
  Decided d turn closed l =
      StillOpen turn closed l × (l.session.last_semantic_decision ≡ some (recorded_decision d))

  on_semantic_turn_decision-Decided :
      (config : TurnManagerConfig) (drain : Option ModelDrainHandle) (d : SemanticTurnDecision)
      (turn : OpenTurn) (closed : ℕ) (l : Local)
      → d.complete ≡ false
      → StillOpen turn closed l
      → Post
          (Decided d turn closed)
          (Decided d turn closed)
          (on_semantic_turn_decision config drain d l)
  unfolding on_semantic_turn_decision record_semantic_decision
  on_semantic_turn_decision-Decided config drain d turn closed l e o =
      Post-after_write _ _ _ (o, refl)
        (Post-if (not d.complete || not config.semantic_gate_close_enabled) _ _ _
          (λ _. good _ _ (o, refl)) (λ f. absurd (ground arith)))

  -- A write at the head of a choice.
  after_write-NoChoice :
      {I : Local → Type 0} (f : Unit {0} → M (Option CloseChoice)) (e : Event) (l : Local)
      → I (record l { sent = e ∷ l.sent })
      → NoChoice I (f tt (record l { sent = e ∷ l.sent }))
      → NoChoice I (continue f (write e l))
  unfolding write
  after_write-NoChoice {I} f e l i rest = go (written e l.sent)
    where
      go : (o : Outcome (Unit {0})) → NoChoice I (continue f (o, record l { sent = e ∷ l.sent }))
      go (ok _) = rest
      go err = failed _ i

  semantic_incomplete-NoChoice :
      (config : TurnManagerConfig) (s : VadSegmentEnd) (turn_id : String)
      (d : SemanticDecisionState) (turn : OpenTurn) (closed : ℕ) (l : Local)
      → ms_to_samples config.human_hold_silence_ms ≡ 0
      → StillOpen turn closed l
      → NoChoice (StillOpen turn closed) (semantic_incomplete config s turn_id d l)
  unfolding semantic_incomplete
  semantic_incomplete-NoChoice config s turn_id d turn closed l z o =
      after_write-NoChoice _ _ _ o (rw z (left_open _ o))

  semantic_gate-NoChoice :
      (config : TurnManagerConfig) (s : VadSegmentEnd) (turn_id : String) (d : SemanticTurnDecision)
      (turn : OpenTurn) (closed : ℕ) (l : Local)
      → ms_to_samples config.human_hold_silence_ms ≡ 0
      → KeepsOpen d s
      → StillOpen turn closed l
      → NoChoice
          (StillOpen turn closed)
          (semantic_gate config s turn_id (some (recorded_decision d)) l)
  unfolding semantic_gate
  semantic_gate-NoChoice config s turn_id d turn closed l z k o =
      if_cases (λ (m : M (Option CloseChoice)). NoChoice (StillOpen turn closed) (m l))
        (decides s (recorded_decision d) && d.complete) (λ e. absurd (ground (arith, k.incomplete)))
        λ _.
          if_cases (λ (m : M (Option CloseChoice)). NoChoice (StillOpen turn closed) (m l))
            (decides s (recorded_decision d) && not d.timed_out)
            (λ _.
              semantic_incomplete-NoChoice config s turn_id (recorded_decision d) turn closed l z o)
            (λ e. absurd (ground (arith, k.same_end, k.same_decision, k.available, k.in_time)))

  close_by_choice-StillOpen :
      (config : TurnManagerConfig) (drain : Option ModelDrainHandle) (s : VadSegmentEnd)
      (turn_id : String) {I : Local → Type 0} {r : Outcome (Option CloseChoice) × Local}
      → NoChoice I r
      → Post I I (continue (close_by_choice config drain s turn_id) r)
  close_by_choice-StillOpen config drain s turn_id (left_open l i) = good [] l i
  close_by_choice-StillOpen config drain s turn_id (failed l i) = bad l i

  vad_end_close-StillOpen :
      (config : TurnManagerConfig) (drain : Option ModelDrainHandle) (s : VadSegmentEnd)
      (turn_id : String) (d : SemanticTurnDecision) (turn : OpenTurn) (closed : ℕ) (l : Local)
      → GateOnly config
      → KeepsOpen d s
      → Decided d turn closed l
      → Post
          (StillOpen turn closed)
          (StillOpen turn closed)
          (vad_end_close config drain s turn_id l)
  unfolding vad_end_close
  vad_end_close-StillOpen config drain s turn_id d turn closed l g k o =
      close_by_choice-StillOpen config drain s turn_id (
        if_cases (λ (m : M (Option CloseChoice)). NoChoice (StillOpen turn closed) (m l))
          (config.semantic_gate_enabled && config.semantic_gate_close_enabled)
          (λ _.
            subst (λ o. NoChoice (StillOpen turn closed) (semantic_gate config s turn_id o l))
              (sym o.1) (semantic_gate-NoChoice config s turn_id d turn closed l g.no_hold k o.0))
          (λ f. absurd (ground (arith, g.gated, g.gate_closes))))

  ensure_turn-Decided :
      (id source : String) (start : ℕ) (d : SemanticTurnDecision) (turn : OpenTurn) (closed : ℕ)
      (l : Local)
      → Decided d turn closed l
      → Post (StillOpen turn closed) (Decided d turn closed) (ensure_turn id start source l)
  unfolding ensure_turn
  ensure_turn-Decided id source start d turn closed l o =
      Post-if (is_none l.session.open_turn) _ _ l (λ e. absurd (none_open o.0.0 e))
        (λ _. good _ l o)

  live_segment_end-StillOpen :
      (config : TurnManagerConfig) (drain : Option ModelDrainHandle) (d : SemanticTurnDecision)
      (s : VadSegmentEnd) (turn : OpenTurn) (closed : ℕ) (l : Local)
      → GateOnly config
      → KeepsOpen d s
      → ms_to_samples config.min_vad_speech_ms ≤ s.end_sample - s.start_sample
      → Decided d turn closed l
      → Post (StillOpen turn closed) (StillOpen turn closed) (live_segment_end config drain s l)
  unfolding live_segment_end
  live_segment_end-StillOpen config drain d s turn closed l g k long o =
      Post-continue
        (ensure_turn-Decided s.ids.stream_session_id "vad" s.start_sample d turn closed l o)
        λ _ m h. Post-after_write _ _ _ h.0 (
          Post-if (ltb (s.end_sample - s.start_sample) (ms_to_samples config.min_vad_speech_ms)) _ _
            _ (λ e. absurd (ground arith))
            (λ _. vad_end_close-StillOpen config drain s _ d turn closed _ g k h))

  -- While the semantic gate decides and no human hold is configured, a semantic decision that the
  -- open turn is not complete, made in time for the boundary of a VAD segment of sufficient length,
  -- keeps the turn open through that decision and the VAD's end: the same turn is open
  -- afterwards and nothing was closed, also where writes fail.
  pub on_vad_segment_end-KeepsOpen :
      (config : TurnManagerConfig) (drain : Option ModelDrainHandle) (d : SemanticTurnDecision)
      (s : VadSegmentEnd) (turn : OpenTurn) (l : Local)
      → GateOnly config
      → KeepsOpen d s
      → ms_to_samples config.min_vad_speech_ms ≤ s.end_sample - s.start_sample
      → l.session.open_turn ≡ some turn
      → let decided = (on_semantic_turn_decision config drain d l).1 in
        StillOpen turn l.session.turns_closed (on_vad_segment_end config drain s decided).1
  unfolding on_vad_segment_end
  on_vad_segment_end-KeepsOpen config drain d s turn l g k long o =
      let m = (on_semantic_turn_decision config drain d l).1 in
      let h = Post-state (
        on_semantic_turn_decision-Decided config drain d turn l.session.turns_closed l k.incomplete
          (o, refl)) in
      Post-state (
        Post-if (is_stale s.decision_sample m.session) _ _ m (λ _. good _ m h.0)
          (λ _.
            live_segment_end-StillOpen config drain d s turn l.session.turns_closed m g k long h))

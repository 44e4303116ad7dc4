-- ===== src/Turn/Close.antt =====
-- Closing a turn: close_turn and close_specific_turn of TurnSession, and the aligned close that
-- the handlers share (crates/speech-core-daemon/src/detectors/turn.rs).
use speech_core.Base.{ℕ, max, Bool, String, Option, none, some, List, [], ◌∷◌, map_some, unwrap_or}
use speech_core.Base.Int.{pos}
use speech_core.Base.Words.{saturating_add}
use speech_core.Progress.State.{ModelProgressMap}
use speech_core.Progress.PerTurn.{CommittedSnapshot, per_turn_committed_snapshot}
use speech_core.Progress.Ops.{
  last_token_end_sample, record_dispatch, set_current_turn_id, freeze_tokens_through,
}
use speech_core.Turn.Config.{TurnManagerConfig, samples_to_ms}
use speech_core.Turn.Signals.{Ids, ModelDrainHandle, DetectorAction, reset_eou_state, decoder}
use speech_core.Turn.Events.{
  Event, turn_eou, transcript_committed, turn_closed, turn_close_alignment,
}
use speech_core.Turn.Local.{
  Env, Local, M, ok, ◌>>=◌, ◌>>◌, return, get, modify, write, hello_ids, OpenTurn, TurnSession,
}
use speech_core.Turn.Align.{align_model_for_close}

-- The arguments of a close.
pub record CloseRequest : Type 0 where
  pub turn_id : String
  pub source : String
  pub degraded : Bool
  pub detector : String
  pub confidence : Option ℕ
  pub end_sample : ℕ
  pub decision_sample : ℕ
  pub reason : String
  pub turn_start_sample : ℕ

-- `unwrap_or_default`.
abbrev empty_snapshot : CommittedSnapshot
empty_snapshot = record { text = ""; token_count = 0; revision = pos 0 }

-- The snapshot reaches to the latest token, if that ends after the turn.
unfoldable pub snapshot_end : String → ℕ → ModelProgressMap → ℕ
snapshot_end session_id end_sample p =
    unwrap_or (map_some (last_token_end_sample session_id p) (λ e. max e end_sample)) end_sample

-- The progress after the close: the dispatch on record, no open turn, and the tokens frozen.
unfoldable pub after_dispatch :
    String → CloseRequest → ℕ → String → ModelProgressMap → ModelProgressMap
after_dispatch session_id c baseline text p =
    freeze_tokens_through session_id
      (max (snapshot_end session_id c.end_sample p) c.decision_sample)
      (set_current_turn_id session_id none
        (record_dispatch session_id c.turn_id text c.turn_start_sample c.end_sample baseline p))

unfoldable pub count_close : CloseRequest → TurnSession → TurnSession
count_close c s = record s {
  turns_closed = saturating_add s.turns_closed 1;
  last_human_hold_token_anchor = none;
  last_closed_end_sample = some c.end_sample;
  last_closed_decision_sample = some c.decision_sample;
}

-- The three events of a close.
abbrev pub eou_event : Ids → CloseRequest → Event
eou_event ids c = turn_eou (record {
  ids = ids;
  turn_id = c.turn_id;
  source = c.source;
  degraded = c.degraded;
  detector = c.detector;
  confidence = c.confidence;
  end_sample = c.end_sample;
  decision_sample = c.decision_sample;
  sample_time_ms = samples_to_ms c.end_sample;
  reason = c.reason;
})

abbrev pub committed_event : Ids → CloseRequest → CommittedSnapshot → Event
committed_event ids c snapshot = transcript_committed (record {
  ids = ids;
  turn_id = c.turn_id;
  text = snapshot.text;
  revision = snapshot.revision;
  committed_token_count = snapshot.token_count;
  end_sample = c.end_sample;
  decision_sample = c.decision_sample;
  is_degraded = c.degraded;
  close_source = c.source;
})

abbrev pub closed_event : Ids → CloseRequest → Event
closed_event ids c = turn_closed (record {
  ids = ids;
  turn_id = c.turn_id;
  source = c.source;
  degraded = c.degraded;
  detector = c.detector;
  end_sample = c.end_sample;
  decision_sample = c.decision_sample;
  reason = c.reason;
})

module _ ⦃env : Env⦄ where
  unfoldable pub committed_snapshot : CloseRequest → Local → CommittedSnapshot
  committed_snapshot c l = elim l.progress [
    | none ↦ empty_snapshot
    | some p ↦
        let session_id = l.session.hello.stream_session_id in
        unwrap_or
          (per_turn_committed_snapshot ⦃u = env.unicode⦄ session_id
            l.session.current_turn_start_token_count c.turn_start_sample
            (snapshot_end session_id c.end_sample p) p)
          empty_snapshot
  ]

  -- Cut the turn's text and put the dispatch on record.
  unfoldable pub dispatch_turn : CloseRequest → M CommittedSnapshot
  dispatch_turn c l =
      let snapshot = committed_snapshot c l in
      (
        ok snapshot,
        record l {
          progress = map_some l.progress (
              after_dispatch l.session.hello.stream_session_id c
                l.session.current_turn_start_token_count snapshot.text);
        },
      )

  unfoldable pub close_specific_turn : CloseRequest → M (Unit {0})
  close_specific_turn c = do
    modify (count_close c)
    l ← get
    let ids = hello_ids l.session.hello
    write (eou_event ids c)
    committed ← dispatch_turn c
    write (committed_event ids c committed)
    write (closed_event ids c)

  unfoldable pub close_turn : CloseRequest → M (Unit {0})
  close_turn c = do modify λ s. record s { open_turn = none }; close_specific_turn c

-- What a handler has chosen when it comes to close a turn.
pub record CloseChoice : Type 0 where
  pub source : String
  pub degraded : Bool
  pub detector : String
  pub confidence : Option ℕ
  pub reason : String

abbrev pub turn_start_or : Option OpenTurn → ℕ → ℕ
turn_start_or turn d = unwrap_or (map_some turn (λ t. t.start_sample)) d

abbrev pub decoder_reset : Ids → ℕ → String → String → DetectorAction
decoder_reset ids sample source reason = reset_eou_state (record {
  ids = ids;
  mode = decoder;
  anchor_sample = sample;
  source = source;
  reason = reason;
  decision_sample = sample;
})

module _ ⦃env : Env⦄ where
  -- Wait for the model, say how that went, close the turn, and have the decoder reset: the end of
  -- the handlers of VAD ends, of held speech and of complete semantic decisions.
  unfoldable pub aligned_close :
      TurnManagerConfig
      → Option ModelDrainHandle
      → Ids
      → String
      → CloseChoice
      → ℕ
      → ℕ
      → ℕ
      → M (List DetectorAction)
  aligned_close config drain ids turn_id choice end_sample decision_sample fallback_start = do
    alignment ← λ l.
        let (a, l') =
          align_model_for_close drain ids end_sample decision_sample choice.reason
            config.model_alignment_timeout_ms l in
        (ok a, l')
    write (turn_close_alignment (record { ids = ids; alignment = alignment }))
    l ← get
    close_turn (record {
      turn_id = turn_id;
      source = choice.source;
      degraded = choice.degraded;
      detector = choice.detector;
      confidence = choice.confidence;
      end_sample = alignment.effective_end_sample;
      decision_sample = alignment.effective_decision_sample;
      reason = choice.reason;
      turn_start_sample = turn_start_or l.session.open_turn fallback_start;
    })
    return (decoder_reset ids alignment.effective_decision_sample choice.source choice.reason ∷ [])

-- ===== src/Turn/Accepted.antt =====
-- Proofs on an end of utterance of the model that closes a turn
-- (ModelEou in crates/speech-core-daemon/src/detectors/turn.rs).
use speech_core.Base.{
  ℕ, ◌-◌, ◌≤◌, ◌<◌, true, false, ◌||◌, String, Option, none, some, ◌≡◌, refl, ap, subst, ◌∙◌,
  is_none, unwrap_or, arith,
}
use speech_core.Base.Words.{saturating_add}
use speech_core.Turn.Config.{TurnManagerConfig, ms_to_samples}
use speech_core.Turn.Signals.{ModelEou}
use speech_core.Turn.Local.{Env, Local, TurnSession, OpenTurn}
use speech_core.Turn.Handlers.Shared.{ensure_turn}
use speech_core.Turn.Handlers.Model.{
  provisional_start, too_early, vad_still_in_speech, no_new_vad_speech_since_close, refractory,
  past_sample, eou_close, eou_accepted, on_model_eou,
}
use speech_core.Turn.Post.{good, Post-continue, Post-if, Post-weaken}
use speech_core.Turn.Live.{IsLive, Succeeds, after_write-Succeeds, close_turn-IsClosed}
use speech_core.Turn.Quiet.{ClosedAt}

-- No turn was closed before, or the VAD has reported a new start since and the refractory time
-- has passed.
pub data IsPastClose (config : TurnManagerConfig) (e : ModelEou) (s : TurnSession) : Type 0 where
  never_closed : s.last_closed_decision_sample ≡ none → IsPastClose config e s
  closed_before :
      (closed start : ℕ)
      → s.last_closed_decision_sample ≡ some closed
      → s.last_vad_start_sample ≡ some start
      → closed < start
      → ms_to_samples config.model_eou_refractory_ms ≤ e.decision_sample - closed
      → IsPastClose config e s

-- The turn's end by the VAD, if that is not after the decision, else by the model.
abbrev pub eou_end : ModelEou → TurnSession → ℕ
eou_end e s = unwrap_or (past_sample e s.last_vad_end_sample) e.end_sample

no_guards :
    (config : TurnManagerConfig) (e : ModelEou) (s : TurnSession)
    → s.in_speech ≡ false
    → ms_to_samples config.min_model_eou_speech_ms ≤ e.decision_sample - provisional_start s
    → IsPastClose config e s
    → (too_early config e s
        || vad_still_in_speech s
        || refractory config e s
        || no_new_vad_speech_since_close s)
      ≡ false
unfolding too_early refractory no_new_vad_speech_since_close
no_guards config e s quiet long (never_closed c) = rw (quiet, c) (ground arith)
no_guards config e s quiet long (closed_before closed start c v new late) =
    rw (quiet, c, v) (ground arith)

not_none : {turn : OpenTurn} {o : Option OpenTurn} → o ≡ some turn → is_none o ≡ true → ⊥
not_none {o = none} e h = cc
not_none {o = some _} e h = cc

module _ ⦃env : Env⦄ (live : IsLive env) where
  -- With a turn open none is started.
  ensure_turn-same :
      (id source : String) (start : ℕ) (turn : OpenTurn) (l : Local)
      → l.session.open_turn ≡ some turn
      → Succeeds (λ m. m.session ≡ l.session) (ensure_turn id start source l)
  unfolding ensure_turn
  ensure_turn-same id source start turn l o =
      Post-if (is_none l.session.open_turn) _ _ l (λ e. absurd (not_none o e))
        (λ _. good false l refl)

  eou_close-ClosedAt :
      (config : TurnManagerConfig) (e : ModelEou) (turn_id : String) (end_sample start : ℕ)
      (before l : Local)
      → l.session ≡ before.session
      → Succeeds
          (ClosedAt end_sample e.decision_sample before)
          (eou_close config e turn_id end_sample start l)
  unfolding eou_close
  eou_close-ClosedAt config e turn_id end_sample start before l same =
      Post-continue (close_turn-IsClosed _ l live) λ _ n c. good _ n (record {
        no_turn = c.no_turn;
        counted = c.counted ∙ ap (λ t. saturating_add t.turns_closed 1) same;
        ended = c.closed_end;
        decided = c.closed_decision;
      })

  eou_accepted-ClosedAt :
      (config : TurnManagerConfig) (e : ModelEou) (start : ℕ) (turn : OpenTurn) (l : Local)
      → config.model_eou_close_enabled ≡ true
      → l.session.open_turn ≡ some turn
      → Succeeds
          (ClosedAt (eou_end e l.session) e.decision_sample l)
          (eou_accepted config e start l)
  unfolding eou_accepted
  eou_accepted-ClosedAt config e start turn l enabled o =
      Post-continue (ensure_turn-same e.ids.stream_session_id "model" start turn l o) λ _ m same.
        after_write-Succeeds _ _ _ live (
          Post-if config.model_eou_close_enabled _ _ _
            (λ _.
              Post-weaken (λ n c. subst (λ t. ClosedAt (eou_end e t) e.decision_sample l n) same c)
                (eou_close-ClosedAt config e _ (eou_end e m.session) start l _ same))
            (λ f. absurd (ground arith)))

  -- While the log's worker runs and the model's ends of utterance close turns, one that comes in an
  -- open turn, not in speech, long enough after the turn's provisional start, and after the last
  -- close only with a new VAD start and past the refractory time, closes the turn with its
  -- decision, at the VAD's last end if that is not after the decision and else at its own end.
  pub on_model_eou-ClosedAt :
      (config : TurnManagerConfig) (e : ModelEou) (turn : OpenTurn) (l : Local)
      → config.model_eou_close_enabled ≡ true
      → l.session.open_turn ≡ some turn
      → l.session.in_speech ≡ false
      → ms_to_samples config.min_model_eou_speech_ms
        ≤ e.decision_sample - provisional_start l.session
      → IsPastClose config e l.session
      → Succeeds (ClosedAt (eou_end e l.session) e.decision_sample l) (on_model_eou config e l)
  unfolding on_model_eou
  on_model_eou-ClosedAt config e turn l enabled o quiet long past =
      Post-if
        (too_early config e l.session
          || vad_still_in_speech l.session
          || refractory config e l.session
          || no_new_vad_speech_since_close l.session)
        _ _ l (λ t. absurd (ground (arith, no_guards config e l.session quiet long past)))
        (λ _. eou_accepted-ClosedAt config e (provisional_start l.session) turn l enabled o)

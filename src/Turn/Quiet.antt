-- ===== src/Turn/Quiet.antt =====
-- Proofs on the close of a turn that has a transcript but no VAD, by silence
-- (VadLowSilence in crates/speech-core-daemon/src/detectors/turn.rs).
use speech_core.Base.{
  ℕ, ◌-◌, ◌≤◌, ◌<◌, max, false, ◌&&◌, ◌||◌, not, String, none, some, [], leb, ◌==◌, ◌≡◌, ◌⊎◌, refl,
  sym, ap, subst, ◌∙◌, arith,
}
use speech_core.Base.Words.{saturating_add}
use speech_core.Turn.Config.{TurnManagerConfig, ms_to_samples}
use speech_core.Turn.Signals.{VadLowSilence}
use speech_core.Turn.Local.{Env, Local, OpenTurn}
use speech_core.Turn.Align.Untouched.{wait_for_model_progress-SameBut}
use speech_core.Turn.Handlers.Silence.{
  wait_choice, wait_model, quiet_anchor, quiet_close, is_quiet, quiet_choice, on_vad_low_silence,
}
use speech_core.Turn.Post.{good, Post-continue, Post-if, Post-weaken}
use speech_core.Turn.Live.{IsLive, Succeeds, after_write-Succeeds, close_turn-IsClosed}

-- The turn was closed with these samples.
pub record ClosedAt (end_sample decision_sample : ℕ) (before after : Local) : Type 0 where
  pub no_turn : after.session.open_turn ≡ none
  pub counted : after.session.turns_closed ≡ saturating_add before.session.turns_closed 1
  pub ended : after.session.last_closed_end_sample ≡ some end_sample
  pub decided : after.session.last_closed_decision_sample ≡ some decision_sample

-- How a signal of low silence ends for an open turn: both silences were long enough, of the VAD and
-- since `anchor`, the last token, or one of them was not.
pub data QuietEnd (needed anchor : ℕ) (s : VadLowSilence) (turn : OpenTurn) (before after : Local)
    : Type 0 where
  quiet :
      needed ≤ s.silence_samples
      → needed ≤ s.decision_sample - anchor
      → ClosedAt (max anchor turn.start_sample) s.decision_sample before after
      → QuietEnd needed anchor s turn before after
  active :
      (s.silence_samples < needed) ⊎ (s.decision_sample - anchor < needed)
      → after ≡ before
      → QuietEnd needed anchor s turn before after

not_quiet :
    (needed silence still : ℕ)
    → (leb needed silence && leb needed still) ≡ false
    → (silence < needed) ⊎ (still < needed)
not_quiet needed silence still e = ground arith

module _ ⦃env : Env⦄ where
  wait_model-Succeeds :
      (config : TurnManagerConfig) (id : String) (target : ℕ) (l : Local)
      → Succeeds (λ m. m.session ≡ l.session) (wait_model config id target l)
  unfolding wait_model
  wait_model-Succeeds config id target l =
      elim l.progress
        as (λ p. Succeeds (λ m. m.session ≡ l.session) (wait_choice config id target p l)) [
          | none ↦ good tt l refl
          | some _ ↦
              good tt _
                (wait_for_model_progress-SameBut id target config.model_alignment_timeout_ms
                  l).session
        ]

module _ ⦃env : Env⦄ (live : IsLive env) where
  quiet_close-ClosedAt :
      (config : TurnManagerConfig) (s : VadLowSilence) (turn : OpenTurn) (anchor : ℕ) (l : Local)
      → Succeeds
          (ClosedAt (max anchor turn.start_sample) s.decision_sample l)
          (quiet_close config s turn anchor l)
  unfolding quiet_close
  quiet_close-ClosedAt config s turn anchor l = after_write-Succeeds _ _ _ live (
      Post-continue
        (wait_model-Succeeds config s.ids.stream_session_id (max anchor turn.start_sample) _)
        λ _ m same. Post-continue (close_turn-IsClosed _ m live) λ _ n c. good _ n (record {
          no_turn = c.no_turn;
          counted = c.counted ∙ ap (λ t. saturating_add t.turns_closed 1) same;
          ended = c.closed_end;
          decided = c.closed_decision;
        }))

  quiet_choice-QuietEnd :
      (config : TurnManagerConfig) (s : VadLowSilence) (turn : OpenTurn) (l : Local)
      → l.session.saw_vad_signal ≡ false
      → 0 < ms_to_samples config.transcript_silence_close_ms
      → Succeeds
          (QuietEnd
            (ms_to_samples config.transcript_silence_close_ms)
            (quiet_anchor s.ids.stream_session_id turn l)
            s
            turn
            l)
          (quiet_choice config s (some turn) l)
  unfolding is_quiet
  quiet_choice-QuietEnd config s turn l v positive =
      let needed = ms_to_samples config.transcript_silence_close_ms in
      let anchor = quiet_anchor s.ids.stream_session_id turn l in
      Post-if
        (needed == 0
          || l.session.saw_vad_signal
          || not (leb needed s.silence_samples && leb needed (s.decision_sample - anchor)))
        _ _ l (λ t. good [] l (active (not_quiet _ _ _ (ground arith)) refl))
        (λ f.
          Post-weaken (λ m c. quiet (ground arith) (ground arith) c)
            (quiet_close-ClosedAt config s turn anchor l))

  -- While the log's worker runs, with a turn open in a session whose VAD has never spoken and a
  -- close by silence configured, a signal of low silence closes the turn, at the later of its last
  -- token's end and its start and with the signal's decision, exactly when the VAD's silence and
  -- the time without a token are both as long as configured; else it changes nothing at all.
  pub on_vad_low_silence-QuietEnd :
      (config : TurnManagerConfig) (s : VadLowSilence) (turn : OpenTurn) (l : Local)
      → l.session.open_turn ≡ some turn
      → l.session.saw_vad_signal ≡ false
      → 0 < ms_to_samples config.transcript_silence_close_ms
      → Succeeds
          (QuietEnd
            (ms_to_samples config.transcript_silence_close_ms)
            (quiet_anchor s.ids.stream_session_id turn l)
            s
            turn
            l)
          (on_vad_low_silence config s l)
  unfolding on_vad_low_silence
  on_vad_low_silence-QuietEnd config s turn l o v positive =
      subst
        (λ t.
          Succeeds
            (QuietEnd (ms_to_samples config.transcript_silence_close_ms)
              (quiet_anchor s.ids.stream_session_id turn l) s turn l)
            (quiet_choice config s t l))
        (sym o) (quiet_choice-QuietEnd config s turn l v positive)

-- ===== src/Turn/Forced.antt =====
-- Proofs on the answers of TurnManager::handle_signal to the signals that can close a turn without a
-- VAD end (crates/speech-core-daemon/src/detectors/turn.rs).
use speech_core.Base.{Option, none, some, List, [], ◌≡◌, sym, unwrap_or, subst, All}
use speech_core.Turn.Signals.{
  DetectorSignal, vad_segment_start, vad_segment_end, vad_speech_presence,
  transcript_token_committed, vad_low_silence, model_eou, semantic_turn_decision,
  vad_acoustic_fallback, Ids, DetectorAction,
}
use speech_core.Turn.Local.{Env, Local, Outcome, ok, err, M, new_session}
use speech_core.Base.Maps.{insert, lookup-insert_self}
use speech_core.Turn.Manager.{
  TurnManager, handle_signal, with_session, session_or_new, unannounced, enter, leave,
}
use mathlib.Core.Option.{some-injective}
use speech_core.Turn.Answers.{
  IsForced, SameTurn, Answers, answers, fails, none≢some, on_vad_acoustic_fallback-Answers,
  on_vad_low_silence-Answers, on_vad_speech_presence-Answers,
}

-- The signals that can close a turn without an end from the VAD, and their session.
abbrev pub closing_ids : DetectorSignal → Option Ids
closing_ids (vad_speech_presence s) = some s.ids
closing_ids (vad_low_silence s) = some s.ids
closing_ids (vad_acoustic_fallback s) = some s.ids
closing_ids _ = none

-- The session that the work on it has left.
kept_session :
    (ids : Ids) (l : Local) (w : TurnManager)
    → SameTurn (session_or_new ids w) l.session
    → SameTurn (session_or_new ids w) (
        session_or_new ids
          (record (leave l w) { sessions = insert ids.stream_session_id l.session w.sessions }))
unfolding session_or_new leave
kept_session ids l w same =
    subst (λ o. SameTurn (session_or_new ids w) (unwrap_or o (new_session (unannounced ids))))
      (sym (lookup-insert_self ids.stream_session_id l.session w.sessions)) same

-- All actions of an answer are those of a forced close; without one, the session's turn is the
-- same as before.
abbrev pub AllForced : Ids → TurnManager → Outcome (List DetectorAction) × TurnManager → Type 0
AllForced ids w (ok actions, w') =
    All (IsForced ids) actions
    × (actions ≡ [] → SameTurn (session_or_new ids w) (session_or_new ids w'))
AllForced ids w (err, w') = Unit

module _ ⦃env : Env⦄ where
  answer_of :
      (ids : Ids) (m : M (List DetectorAction)) (w : TurnManager)
      → Answers ids (session_or_new ids w) (m (enter (session_or_new ids w) w))
      → AllForced ids w (with_session ids m w)
  unfolding with_session
  answer_of ids m w h = go _ h
    where
      go :
          (r : Outcome (List DetectorAction) × Local)
          → Answers ids (session_or_new ids w) r
          → AllForced ids w (
            r.0,
            record (leave r.1 w) { sessions = insert ids.stream_session_id r.1.session w.sessions },
          )
      go _ (answers actions l all same) = (all, λ e. kept_session ids l w (same e))
      go _ (fails l) = tt

  -- Such a signal is only ever answered with resets for its own session that have the reason of a
  -- forced close, and with none only if it closes no turn.
  pub handle_signal-AllForced :
      (signal : DetectorSignal) (ids : Ids) (w : TurnManager)
      → closing_ids signal ≡ some ids
      → AllForced ids w (handle_signal signal w)
  unfolding handle_signal enter
  handle_signal-AllForced (vad_speech_presence s) ids w e =
      subst (λ i. AllForced i w (handle_signal (vad_speech_presence s) w)) (some-injective _ _ e)
        (answer_of s.ids _ w (on_vad_speech_presence-Answers w.config w.model_drain s _))
  handle_signal-AllForced (vad_low_silence s) ids w e =
      subst (λ i. AllForced i w (handle_signal (vad_low_silence s) w)) (some-injective _ _ e)
        (answer_of s.ids _ w (on_vad_low_silence-Answers w.config s _))
  handle_signal-AllForced (vad_acoustic_fallback s) ids w e =
      subst (λ i. AllForced i w (handle_signal (vad_acoustic_fallback s) w)) (some-injective _ _ e)
        (answer_of s.ids _ w (on_vad_acoustic_fallback-Answers w.config s _))
  handle_signal-AllForced (vad_segment_start s) ids w e = absurd (none≢some e)
  handle_signal-AllForced (vad_segment_end s) ids w e = absurd (none≢some e)
  handle_signal-AllForced (transcript_token_committed s) ids w e = absurd (none≢some e)
  handle_signal-AllForced (model_eou s) ids w e = absurd (none≢some e)
  handle_signal-AllForced (semantic_turn_decision s) ids w e = absurd (none≢some e)

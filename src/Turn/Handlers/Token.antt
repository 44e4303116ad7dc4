-- ===== src/Turn/Handlers/Token.antt =====
-- The arm TranscriptTokenCommitted of TurnManager::handle_signal, behind the guard against ended
-- sessions (crates/speech-core-daemon/src/detectors/turn.rs).
use speech_core.Base.{
  ℕ, Bool, true, ◌&&◌, ◌||◌, not, String, List, [], ltb, leb, if◌then◌else◌, is_none, is_some_and,
}
use speech_core.Progress.State.{is_speech_evidence_text}
use speech_core.Turn.Signals.{TranscriptTokenCommitted, DetectorAction}
use speech_core.Turn.Events.{turn_signal_observed}
use speech_core.Turn.Local.{
  Env, M, ◌>>=◌, ◌>>◌, return, get, modify, write, start_turn, note_turn_opened, TurnSession,
}

-- A VAD start after the last close.
abbrev pub vad_started_after : ℕ → TurnSession → Bool
vad_started_after closed s = is_some_and s.last_vad_start_sample (λ start. ltb closed start)

-- The token ends inside the closed turn.
unfoldable pub late_for_closed_turn : ℕ → TurnSession → Bool
late_for_closed_turn end_sample s =
    is_some_and s.last_closed_decision_sample (λ closed. leb end_sample closed)

-- After a close, with no VAD start since, a token belongs to the turn that was closed.
unfoldable pub ghost_late_token : TurnSession → Bool
ghost_late_token s =
    is_none s.open_turn
    && s.saw_vad_signal
    && is_some_and s.last_closed_decision_sample (λ closed. not (vad_started_after closed s))

abbrev token_signal : Bool → Bool → String
token_signal late ghost =
    if late || ghost
    then if ghost && not late then "transcript_token_late_orphan" else "transcript_token_late"
    else "transcript_token_committed"

module _ ⦃env : Env⦄ where
  -- The first token of the turn is counted in: its index is the baseline.
  unfoldable pub open_transcript_turn : TranscriptTokenCommitted → M (Unit {0})
  open_transcript_turn s = do
    start_turn s.start_sample "transcript"
    note_turn_opened s.ids.stream_session_id λ _. s.token_index

  unfoldable pub keep_token : TranscriptTokenCommitted → M (List DetectorAction)
  keep_token s = do
    l ← get
    (if is_none l.session.open_turn then open_transcript_turn s else return tt)
    modify λ t. record t { in_speech = true }
    return []

  unfoldable pub on_transcript_token : TranscriptTokenCommitted → M (List DetectorAction)
  on_transcript_token s = do
    l ← get
    let late = late_for_closed_turn s.end_sample l.session
    let ghost = ghost_late_token l.session
    if not (is_speech_evidence_text ⦃u = env.unicode⦄ s.text) then return [] else do
      write (
          turn_signal_observed (record {
            ids = s.ids;
            detector = s.detector;
            signal = token_signal late ghost;
            sample = s.start_sample;
            decision_sample = s.decision_sample;
            confidence = s.confidence;
          }))
      if late || ghost then return [] else keep_token s

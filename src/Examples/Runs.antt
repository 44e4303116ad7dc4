-- ===== src/Examples/Runs.antt =====
-- Whole runs of the turn manager, computed
-- (crates/speech-core-daemon/src/detectors/turn.rs).
use speech_core.Base.{none, [], ◌∷◌, map, String, ◌≡◌, refl}
use speech_core.Turn.Signals.{
  vad_segment_start, vad_segment_end, transcript_token_committed, model_eou,
}
use speech_core.Turn.Events.{
  Event, turn_session_start, turn_audio_gap_reset, turn_signal_observed, turn_started,
  turn_eou_candidate, turn_eou_suppressed, turn_semantic_decision, turn_close_alignment,
  turn_human_hold, turn_hold, turn_eou, transcript_committed, turn_closed, turn_session_end,
}
use speech_core.Turn.Manager.{TurnManager}
use speech_core.Examples.Data.{env, config, speech_start, speech_end, token, eou, hello}
use speech_core.Turn.Local.{
  new_session, turn_id_text, next_turn_id, written, write, start_turn, note_turn_opened,
}
use speech_core.Turn.Align.{
  drain_phase, run_drain, phase_choice, progress_phase, align_model_for_close,
}
use speech_core.Turn.Config.{samples_to_ms, ms_to_samples}
use speech_core.Turn.Events.{is_durable}
use speech_core.Turn.Manager.{
  unannounced, enter, leave, session_or_new, with_session, handle_token, handle_signal, new_manager,
}
use speech_core.Turn.Close.{
  count_close, committed_snapshot, dispatch_turn, close_specific_turn, close_turn, aligned_close,
}
use speech_core.Turn.Manager.Sessions.{
  session_end_sample, start_session, close_for_end, finish_session, end_session,
}
use speech_core.Turn.Align.Waits.{token_end}
use speech_core.Turn.Handlers.Segment.{
  on_vad_segment_start, semantic_gate, vad_end_close, live_segment_end, on_vad_segment_end,
}
use speech_core.Turn.Handlers.Shared.{turn_id_or_next, is_stale, open_counted_turn, ensure_turn}
use speech_core.Turn.Handlers.Token.{
  late_for_closed_turn, ghost_late_token, open_transcript_turn, keep_token, on_transcript_token,
}
use speech_core.Turn.Handlers.Model.{
  on_model_eou, too_early, provisional_start, refractory, eou_suppressed,
  no_new_vad_speech_since_close,
}
use speech_core.Progress.State.{any_char, is_speech_evidence_text}
use speech_core.Base.Decimal.{decimal}
use speech_core.Base.Maps.{lookup, insert, remove}

-- The name of an event in the log.
abbrev event_name : Event → String
event_name (turn_session_start e) = "turn_session_start"
event_name (turn_audio_gap_reset e) = "turn_audio_gap_reset"
event_name (turn_signal_observed e) = e.signal
event_name (turn_started e) = e.turn_id
event_name (turn_eou_candidate e) = "turn_eou_candidate"
event_name (turn_eou_suppressed e) = e.reason
event_name (turn_semantic_decision e) = "turn_semantic_decision"
event_name (turn_close_alignment e) = "turn_close_alignment"
event_name (turn_human_hold e) = "turn_human_hold"
event_name (turn_hold e) = "turn_hold"
event_name (turn_eou e) = "turn_eou"
event_name (transcript_committed e) = "transcript_committed"
event_name (turn_closed e) = e.reason
event_name (turn_session_end e) = "turn_session_end"

-- A VAD start and end, a late token, and the end of the session.
abbrev run : TurnManager
run =
    let w0 = new_manager config none none in
    let w1 = (start_session ⦃env = env⦄ hello w0).1 in
    let w2 = (handle_signal ⦃env = env⦄ (vad_segment_start speech_start) w1).1 in
    let w3 = (handle_signal ⦃env = env⦄ (vad_segment_end speech_end) w2).1 in
    let w4 = (handle_signal ⦃env = env⦄ (transcript_token_committed token) w3).1 in
    let w5 = (handle_signal ⦃env = env⦄ (model_eou eou) w4).1 in
    (end_session ⦃env = env⦄ "s" "eof" w5).1

run_test :
    map event_name run.sent
    ≡ "turn_session_end" ∷ "no_new_vad_speech_since_close" ∷ "transcript_token_late"
      ∷ "smart_turn_unavailable_vad_fallback" ∷ "transcript_committed" ∷ "turn_eou"
      ∷ "turn_close_alignment" ∷ "turn_eou_candidate" ∷ "vad_speech_start" ∷ "s:turn:0"
      ∷ "turn_session_start" ∷ []
unfolding too_early provisional_start refractory eou_suppressed no_new_vad_speech_since_close
    align_model_for_close aligned_close any_char close_for_end close_specific_turn close_turn
    committed_snapshot count_close decimal dispatch_turn drain_phase end_session ensure_turn enter
    finish_session ghost_late_token handle_signal handle_token insert is_durable
    is_speech_evidence_text is_stale keep_token late_for_closed_turn leave live_segment_end lookup
    ms_to_samples new_manager new_session next_turn_id note_turn_opened on_model_eou
    on_transcript_token on_vad_segment_end on_vad_segment_start open_counted_turn
    open_transcript_turn phase_choice progress_phase remove run_drain samples_to_ms semantic_gate
    session_end_sample session_or_new start_session start_turn token_end turn_id_or_next
    turn_id_text unannounced vad_end_close with_session write written
run_test = refl

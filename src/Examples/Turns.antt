-- ===== src/Examples/Turns.antt =====
-- Runs of the turn manager's handlers at concrete sessions
-- (crates/speech-core-daemon/src/detectors/turn.rs).
use speech_core.Base.{true, none, some, [], ◌∷◌, ◌≡◌, refl, inl, arith}
use speech_core.Base.Maps.{lookup, insert}
use speech_core.Turn.Config.{default_config, ms_to_samples}
use speech_core.Turn.Signals.{
  vad_segment_start, vad_segment_end, transcript_token_committed, model_eou,
}
use speech_core.Turn.Local.{ok, new_session}
use speech_core.Turn.Close.{close_turn}
use speech_core.Turn.Handlers.Token.{on_transcript_token}
use speech_core.Turn.Handlers.Model.{provisional_start, on_model_eou, on_semantic_turn_decision}
use speech_core.Turn.Handlers.Segment.{on_vad_segment_end}
use speech_core.Turn.Handlers.Silence.{quiet_anchor, on_vad_low_silence, on_vad_acoustic_fallback}
use speech_core.Turn.Manager.{TurnManager, new_manager, handle_signal}
use speech_core.Turn.Manager.Sessions.{start_session, audio_gap_reset, end_session}
use speech_core.Turn.History.{Reachable, created, started, signalled}
use speech_core.Turn.Invariant.{IsOrdered, IsCounted}
use speech_core.Turn.Invariant.Reach.{Reachable-IsOrdered, Reachable-IsCounted}
use speech_core.Turn.Live.{Succeeds, IsClosed, close_turn-IsClosed}
use speech_core.Turn.Gate.{StillOpen, on_vad_segment_end-KeepsOpen}
use speech_core.Turn.AfterClose.{
  Unchanged, close_turn-on_transcript_token, close_turn-on_model_eou, close_turn-stale,
}
use speech_core.Turn.Sessions.{
  IsDiscarded, signal_session, handle_each, handle_signal-other, handle_signal-end_session,
}
use speech_core.Turn.Handlers.Shared.{is_stale}
use speech_core.Turn.Accepted.{eou_end, never_closed, on_model_eou-ClosedAt}
use speech_core.Turn.Quiet.{ClosedAt, QuietEnd, on_vad_low_silence-QuietEnd}
use speech_core.Turn.Short.{IsDropped, on_vad_segment_end-IsDropped}
use speech_core.Turn.Gap.{IsRestored, IsLost, audio_gap_reset-IsRestored, audio_gap_reset-IsLost}
use speech_core.Examples.Data.{
  late_eou, transcript_local, low_silence, session_ids_differ, short_end, quiet_local, env,
  env_with, config, progress, speech_start, speech_end, silent_drain, token, eou, incomplete,
  fallback, hello, gap, manager, open_local, close_request,
}

-- A session is announced, the VAD reports a start and an end, and the session ends.
abbrev announced : TurnManager
announced = (start_session ⦃env = env⦄ hello manager).1

abbrev speaking : TurnManager
speaking = (handle_signal ⦃env = env⦄ (vad_segment_start speech_start) announced).1

abbrev spoken : TurnManager
spoken = (handle_signal ⦃env = env⦄ (vad_segment_end speech_end) speaking).1

history : Reachable ⦃env = env⦄ spoken
history = signalled (vad_segment_end speech_end) (
    signalled (vad_segment_start speech_start)
      (started hello (created config (some progress) (some silent_drain))))

Reachable-IsOrdered_example : IsOrdered spoken.sent
Reachable-IsOrdered_example = Reachable-IsOrdered ⦃env = env⦄ history

announced_history : Reachable ⦃env = env⦄ announced
announced_history = started hello (created config (some progress) (some silent_drain))

Reachable-IsCounted_example : IsCounted "s" (new_session hello) announced.sent
unfolding start_session lookup insert new_manager
Reachable-IsCounted_example =
    Reachable-IsCounted ⦃env = env⦄ "s" (new_session hello) announced_history refl

close_turn-IsClosed_example :
    Succeeds (IsClosed close_request open_local) (close_turn ⦃env = env⦄ close_request open_local)
close_turn-IsClosed_example = close_turn-IsClosed ⦃env = env⦄ close_request open_local (λ _. refl)

on_vad_segment_end-KeepsOpen_example :
    StillOpen
      (record { turn_id = "s:turn:0"; start_sample = 100 })
      0
      (on_vad_segment_end ⦃env = env⦄ config
        (some silent_drain)
        speech_end
        (on_semantic_turn_decision ⦃env = env⦄ config
          (some silent_drain)
          incomplete
          open_local).1).1
unfolding ms_to_samples new_session
on_vad_segment_end-KeepsOpen_example =
    on_vad_segment_end-KeepsOpen ⦃env = env⦄ config (some silent_drain) incomplete speech_end
      (record { turn_id = "s:turn:0"; start_sample = 100 }) open_local
      (record { gated = refl; gate_closes = refl; no_hold = refl })
      (record {
        same_end = refl;
        same_decision = refl;
        available = refl;
        in_time = refl;
        incomplete = refl;
      })
      (omega arith) refl

close_turn-on_transcript_token_example :
    let closed = (close_turn ⦃env = env⦄ close_request open_local).1 in
    (closed.session.open_turn ≡ none)
    × Unchanged closed (on_transcript_token ⦃env = env⦄ token closed).1
close_turn-on_transcript_token_example =
    close_turn-on_transcript_token ⦃env = env⦄ close_request token open_local (inl (omega arith))

close_turn-on_model_eou_example :
    let closed = (close_turn ⦃env = env⦄ close_request open_local).1 in
    (closed.session.open_turn ≡ none)
    × Unchanged closed (on_model_eou ⦃env = env⦄ config eou closed).1
unfolding ms_to_samples
close_turn-on_model_eou_example =
    close_turn-on_model_eou ⦃env = env⦄ config close_request eou open_local (inl (omega arith))

close_turn-stale_example :
    let closed = (close_turn ⦃env = env⦄ close_request open_local).1 in
    (on_vad_segment_end ⦃env = env⦄ config (some silent_drain) speech_end closed ≡ (ok [], closed))
    × (on_vad_acoustic_fallback ⦃env = env⦄ config fallback closed ≡ (ok [], closed))
close_turn-stale_example =
    close_turn-stale ⦃env = env⦄ config (some silent_drain) close_request speech_end fallback
      open_local (omega arith) (omega arith)

handle_signal-other_example :
    (lookup "t" (handle_signal ⦃env = env⦄ (model_eou eou) announced).1.sessions
      ≡ lookup "t" announced.sessions)
    × ((handle_signal ⦃env = env⦄ (model_eou eou) announced).1.closed_sessions
        ≡ announced.closed_sessions)
unfolding signal_session
handle_signal-other_example =
    handle_signal-other ⦃env = env⦄ (model_eou eou) "t" announced session_ids_differ

handle_signal-end_session_example :
    let w =
      handle_each ⦃env = env⦄
        (model_eou eou ∷ [])
        (end_session ⦃env = env⦄ "s" "eof" announced).1 in
    IsDiscarded w (handle_signal ⦃env = env⦄ (transcript_token_committed token) w)
handle_signal-end_session_example =
    handle_signal-end_session ⦃env = env⦄ "s" "eof" (model_eou eou ∷ []) token announced refl

audio_gap_reset-IsRestored_example :
    IsRestored "s" (new_session hello) (audio_gap_reset ⦃env = env⦄ gap announced)
unfolding start_session lookup insert new_manager
audio_gap_reset-IsRestored_example =
    audio_gap_reset-IsRestored ⦃env = env⦄ gap (new_session hello) announced (λ _. refl) refl

audio_gap_reset-IsLost_example :
    IsLost "s" announced (audio_gap_reset ⦃env = env_with true⦄ gap announced)
unfolding start_session lookup insert new_manager
audio_gap_reset-IsLost_example =
    audio_gap_reset-IsLost ⦃env = env_with true⦄ gap (new_session hello) announced (λ _. refl) refl

on_vad_segment_end-IsDropped_example :
    Succeeds
      (IsDropped "s" quiet_local)
      (on_vad_segment_end ⦃env = env⦄ default_config (some silent_drain) short_end quiet_local)
unfolding ms_to_samples new_session is_stale
on_vad_segment_end-IsDropped_example =
    on_vad_segment_end-IsDropped ⦃env = env⦄ (λ _. refl) default_config (some silent_drain)
      short_end quiet_local refl refl (omega arith)

on_vad_low_silence-QuietEnd_example :
    Succeeds
      (QuietEnd
        (ms_to_samples 700)
        (quiet_anchor ⦃env = env⦄ "s"
          (record { turn_id = "s:turn:0"; start_sample = 100 })
          transcript_local)
        low_silence
        (record { turn_id = "s:turn:0"; start_sample = 100 })
        transcript_local)
      (on_vad_low_silence ⦃env = env⦄ default_config low_silence transcript_local)
unfolding ms_to_samples new_session
on_vad_low_silence-QuietEnd_example =
    on_vad_low_silence-QuietEnd ⦃env = env⦄ (λ _. refl) default_config low_silence
      (record { turn_id = "s:turn:0"; start_sample = 100 }) transcript_local refl refl (omega arith)

on_model_eou-ClosedAt_example :
    Succeeds
      (ClosedAt (eou_end late_eou transcript_local.session) 9000 transcript_local)
      (on_model_eou ⦃env = env⦄ config late_eou transcript_local)
unfolding ms_to_samples new_session provisional_start
on_model_eou-ClosedAt_example =
    on_model_eou-ClosedAt ⦃env = env⦄ (λ _. refl) config late_eou
      (record { turn_id = "s:turn:0"; start_sample = 100 }) transcript_local refl refl refl
      (omega arith) (never_closed refl)

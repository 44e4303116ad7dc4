-- ===== src/Turn/Sessions.antt =====
-- Proofs on the sessions of a turn manager side by side, and on ended ones
-- (crates/speech-core-daemon/src/detectors/turn.rs).
use speech_core.Base.{
  Bool, true, false, String, str_eq_refl, none, some, List, [], ◌∷◌, ◌≡◌, ◌≢◌, refl, ◌∙◌,
  if◌then◌else◌, if_both, if_cases, contains, or_else,
}
use speech_core.Base.Maps.{lookup, remove, lookup-insert_other}
use speech_core.Turn.Signals.{
  Ids, DetectorSignal, vad_segment_start, vad_segment_end, vad_speech_presence,
  transcript_token_committed, vad_low_silence, model_eou, semantic_turn_decision,
  vad_acoustic_fallback, TranscriptTokenCommitted, DetectorAction,
}
use speech_core.Turn.Local.{Env, M, Outcome, ok}
use speech_core.Turn.Manager.{TurnManager, enter, leave, with_session, handle_token, handle_signal}
use speech_core.Turn.Manager.Sessions.{insert_closed, finish_session, end_session}

-- The session that a signal is about.
unfoldable pub signal_session : DetectorSignal → String
signal_session (vad_segment_start s) = s.ids.stream_session_id
signal_session (vad_segment_end s) = s.ids.stream_session_id
signal_session (vad_speech_presence s) = s.ids.stream_session_id
signal_session (transcript_token_committed s) = s.ids.stream_session_id
signal_session (vad_low_silence s) = s.ids.stream_session_id
signal_session (model_eou s) = s.ids.stream_session_id
signal_session (semantic_turn_decision s) = s.ids.stream_session_id
signal_session (vad_acoustic_fallback s) = s.ids.stream_session_id

-- The worker's loop over the signals that have come: a failure is logged, and it goes on.
module _ ⦃env : Env⦄ where
  unfoldable pub handle_each : List DetectorSignal → TurnManager → TurnManager
  handle_each [] w = w
  handle_each (s ∷ signals) w = handle_each signals (handle_signal s w).1

-- What happened to one session leaves those under other keys, and the tombstones.
abbrev OnlyTouches : String → TurnManager → TurnManager → Type 0
OnlyTouches id w w' =
    (w'.closed_sessions ≡ w.closed_sessions)
    × ((key : String) → key ≢ id → lookup key w'.sessions ≡ lookup key w.sessions)

with_session-OnlyTouches :
    {A : Type 0} (ids : Ids) (m : M A) (w : TurnManager)
    → OnlyTouches ids.stream_session_id w (with_session ids m w).1
unfolding with_session leave
with_session-OnlyTouches ids m w = (refl, λ key n. lookup-insert_other _ key _ w.sessions n)

module _ ⦃env : Env⦄ where
  handle_token-OnlyTouches :
      (s : TranscriptTokenCommitted) (w : TurnManager)
      → OnlyTouches s.ids.stream_session_id w (handle_token s w).1
  unfolding handle_token
  handle_token-OnlyTouches s w =
      if_both
        (λ (r : Outcome (List DetectorAction) × TurnManager).
          OnlyTouches s.ids.stream_session_id w r.1)
        (contains s.ids.stream_session_id w.closed_sessions) (refl, λ key n. refl)
        (with_session-OnlyTouches s.ids _
          (record w { model_drain = or_else w.model_drain (some s.drain_handle) }))

  handle_signal-OnlyTouches :
      (signal : DetectorSignal) (w : TurnManager)
      → OnlyTouches (signal_session signal) w (handle_signal signal w).1
  unfolding handle_signal signal_session
  handle_signal-OnlyTouches (vad_segment_start s) w = with_session-OnlyTouches s.ids _ w
  handle_signal-OnlyTouches (vad_segment_end s) w = with_session-OnlyTouches s.ids _ w
  handle_signal-OnlyTouches (vad_speech_presence s) w = with_session-OnlyTouches s.ids _ w
  handle_signal-OnlyTouches (transcript_token_committed s) w = handle_token-OnlyTouches s w
  handle_signal-OnlyTouches (vad_low_silence s) w = with_session-OnlyTouches s.ids _ w
  handle_signal-OnlyTouches (model_eou s) w = with_session-OnlyTouches s.ids _ w
  handle_signal-OnlyTouches (semantic_turn_decision s) w = with_session-OnlyTouches s.ids _ w
  handle_signal-OnlyTouches (vad_acoustic_fallback s) w = with_session-OnlyTouches s.ids _ w

  -- A signal changes no session but its own, which is the one under the session id that it
  -- carries, and it changes no tombstone of an ended session.
  pub handle_signal-other :
      (signal : DetectorSignal) (key : String) (w : TurnManager)
      → key ≢ signal_session signal
      → (lookup key (handle_signal signal w).1.sessions ≡ lookup key w.sessions)
        × ((handle_signal signal w).1.closed_sessions ≡ w.closed_sessions)
  handle_signal-other signal key w n =
      let h = handle_signal-OnlyTouches signal w in (h.1 key n, h.0)

  handle_each-closed_sessions :
      (signals : List DetectorSignal) (w : TurnManager)
      → (handle_each signals w).closed_sessions ≡ w.closed_sessions
  unfolding handle_each
  handle_each-closed_sessions [] w = refl
  handle_each-closed_sessions (s ∷ signals) w =
      handle_each-closed_sessions signals (handle_signal s w).1 ∙ (handle_signal-OnlyTouches s w).0

-- The token does nothing.
abbrev pub IsDiscarded : TurnManager → Outcome (List DetectorAction) × TurnManager → Type 0
IsDiscarded w r = (r.0 ≡ ok []) × (r.1.sessions ≡ w.sessions) × (r.1.sent ≡ w.sent)

contains-insert_closed :
    (id : String) (ids : List String) → contains id (insert_closed id ids) ≡ true
contains-insert_closed id ids = go (contains id ids) refl
  where
    go : (b : Bool) → contains id ids ≡ b → contains id (if b then ids else id ∷ ids) ≡ true
    go true e = e
    go false e = simp (str_eq_refl)

module _ ⦃env : Env⦄ where
  end_session-closed_sessions :
      (id reason : String) (w : TurnManager)
      → (end_session id reason w).1.closed_sessions ≡ insert_closed id w.closed_sessions
  unfolding end_session leave
  end_session-closed_sessions id reason w =
      elim (lookup id w.sessions)
        as (λ found.
          (elim found as (λ _. Outcome (Unit {0}) × TurnManager) [
            | none ↦ (ok tt, record w { closed_sessions = insert_closed id w.closed_sessions })
            | some session ↦
                let r = finish_session id reason (enter session w) in
                (
                  r.0,
                  leave r.1 (record w {
                    closed_sessions = insert_closed id w.closed_sessions;
                    sessions = remove id w.sessions;
                  }),
                )
          ]).1.closed_sessions
          ≡ insert_closed id w.closed_sessions) [ none ↦ refl | some _ ↦ refl ]

  handle_token-IsDiscarded :
      (s : TranscriptTokenCommitted) (w : TurnManager)
      → contains s.ids.stream_session_id w.closed_sessions ≡ true
      → IsDiscarded w (handle_token s w)
  unfolding handle_token
  handle_token-IsDiscarded s w h =
      if_cases (IsDiscarded w) (contains s.ids.stream_session_id w.closed_sessions)
        (λ _. (refl, refl, refl)) (λ f. cc)

  -- After the end of a session, whether or not it was known, and after whatever signals came since,
  -- a token that is still on its way to it succeeds, asks for nothing, and changes no session and
  -- no event.
  pub handle_signal-end_session :
      (id reason : String) (signals : List DetectorSignal) (s : TranscriptTokenCommitted)
      (w : TurnManager)
      → s.ids.stream_session_id ≡ id
      → let w' = handle_each signals (end_session id reason w).1 in
        IsDiscarded w' (handle_signal (transcript_token_committed s) w')
  unfolding handle_signal
  handle_signal-end_session id reason signals s w e =
      handle_token-IsDiscarded s (handle_each signals (end_session id reason w).1) (
        rw
          (
            e,
            handle_each-closed_sessions signals (end_session id reason w).1,
            end_session-closed_sessions id reason w,
          )
          (contains-insert_closed id w.closed_sessions))

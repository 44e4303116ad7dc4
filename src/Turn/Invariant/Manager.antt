-- ===== src/Turn/Invariant/Manager.antt =====
-- The invariant of the turn manager, through handle_signal
-- (crates/speech-core-daemon/src/detectors/turn.rs).
use speech_core.Base.{
  String, str_eq, str_eq_iff, Option, none, some, List, [], ◌≡◌, refl, sym, ap, subst, ◌∙◌,
  if◌then◌else◌, Bool, true, false, or_else, contains, unwrap_or, arith,
}
use speech_core.Base.Maps.{lookup, insert, remove, lookup-insert, lookup-remove}
use speech_core.Turn.Signals.{
  Ids, DetectorSignal, vad_segment_start, vad_segment_end, vad_speech_presence,
  transcript_token_committed, vad_low_silence, model_eou, semantic_turn_decision,
  vad_acoustic_fallback, TranscriptTokenCommitted,
}
use speech_core.Turn.Events.{Event}
use speech_core.Turn.Local.{Env, Local, M, ok, HelloState, TurnSession, OpenTurn, new_session}
use speech_core.Turn.Manager.{
  TurnManager, unannounced, enter, leave, session_or_new, with_session, handle_token, handle_signal,
}
use speech_core.Turn.Handlers.Token.{on_transcript_token}
use speech_core.Turn.Post.{Post, Post-state}
use speech_core.Turn.Invariant.{IsOrdered, WasStarted, IsLatest, IsCounted, Inv}
use speech_core.Turn.Invariant.Segment.{on_vad_segment_start-Inv, on_vad_segment_end-Inv}
use speech_core.Turn.Invariant.Others.{
  on_vad_speech_presence-Inv, on_vad_low_silence-Inv, on_vad_acoustic_fallback-Inv,
  on_transcript_token-Inv, on_model_eou-Inv, on_semantic_turn_decision-Inv,
}

pub record IsValid (w : TurnManager) : Type 0 where
  pub counted :
      (key : String) (s : TurnSession) → lookup key w.sessions ≡ some s → IsCounted key s w.sent
  pub ordered : IsOrdered w.sent

-- More events keep what holds of a session.
IsLatest-grow :
    (key : String) (s : TurnSession) (before after : List Event) (turn : Option OpenTurn)
    → ((turn_id : String) → WasStarted turn_id before → WasStarted turn_id after)
    → IsLatest key s before turn
    → IsLatest key s after turn
IsLatest-grow key s before after none g h = tt
IsLatest-grow key s before after (some turn) g h = (h.0, h.1, h.2, h.3, h.4, g turn.turn_id h.5)

pub IsCounted-grow :
    {key : String} {s : TurnSession} {before after : List Event}
    → ((turn_id : String) → WasStarted turn_id before → WasStarted turn_id after)
    → IsCounted key s before
    → IsCounted key s after
IsCounted-grow {key} {s} {before} {after} g c = record {
  named = c.named;
  indexed = c.indexed;
  bounded = c.bounded;
  closed_started = c.closed_started;
  latest = IsLatest-grow key s before after s.open_turn g c.latest;
}

some_injective : {A : Type 0} {a b : A} → some a ≡ some b → a ≡ b
some_injective {a = a} e = ap (λ o. unwrap_or o a) e

-- A session that is put under its key is valid, and so are the others.
pub insert-IsCounted :
    (id : String) (s : TurnSession) (sessions : List (String × TurnSession)) (sent : List Event)
    → IsCounted id s sent
    → ((key : String) (t : TurnSession) → lookup key sessions ≡ some t → IsCounted key t sent)
    → (key : String) (t : TurnSession) → lookup key (insert id s sessions) ≡ some t
    → IsCounted key t sent
insert-IsCounted id s sessions sent c others key t e =
    go (str_eq id key) refl (sym (lookup-insert id key s sessions) ∙ e)
  where
    go :
        (b : Bool)
        → str_eq id key ≡ b
        → (if b then some s else lookup key sessions) ≡ some t
        → IsCounted key t sent
    go true q h =
        subst (λ k. IsCounted k t sent) ((str_eq_iff id key).0 q)
          (subst (λ u. IsCounted id u sent) (some_injective h) c)
    go false q h = others key t h

pub remove-IsCounted :
    (id : String) (sessions : List (String × TurnSession)) (sent : List Event)
    → ((key : String) (t : TurnSession) → lookup key sessions ≡ some t → IsCounted key t sent)
    → (key : String) (t : TurnSession) → lookup key (remove id sessions) ≡ some t
    → IsCounted key t sent
remove-IsCounted id sessions sent others key t e =
    go (str_eq id key) (sym (lookup-remove id key sessions) ∙ e)
  where
    go : (b : Bool) → (if b then none else lookup key sessions) ≡ some t → IsCounted key t sent
    go true h = cc
    go false h = others key t h

-- A session that none of the events is about.
pub fresh-IsCounted :
    (key : String) (hello : HelloState) (sent : List Event)
    → hello.stream_session_id ≡ key
    → IsCounted key (new_session hello) sent
unfolding new_session
fresh-IsCounted key hello sent e = record {
  named = e;
  indexed = refl;
  bounded = omega arith;
  closed_started = omega arith;
  latest = tt;
}

session_or_new-IsCounted :
    (ids : Ids) (w : TurnManager)
    → IsValid w
    → IsCounted ids.stream_session_id (session_or_new ids w) w.sent
unfolding session_or_new unannounced
session_or_new-IsCounted ids w v = go (lookup ids.stream_session_id w.sessions) refl
  where
    go :
        (found : Option TurnSession)
        → lookup ids.stream_session_id w.sessions ≡ found
        → IsCounted ids.stream_session_id (unwrap_or found (new_session (unannounced ids))) w.sent
    go none e = fresh-IsCounted ids.stream_session_id (unannounced ids) w.sent refl
    go (some s) e = v.counted ids.stream_session_id s e

pub enter-Inv :
    (key : String) (s : TurnSession) (w : TurnManager)
    → IsCounted key s w.sent
    → IsOrdered w.sent
    → Inv key w.sent (enter s w)
unfolding enter
enter-Inv key s w c o = record { counted = c; ordered = o; grown = λ t h. h }

-- What is done to one session keeps the invariant of the manager.
with_session-IsValid :
    {A : Type 0} (ids : Ids) (m : M A) (w : TurnManager)
    → ((l : Local)
        → Inv ids.stream_session_id w.sent l
        → Post (Inv ids.stream_session_id w.sent) (Inv ids.stream_session_id w.sent) (m l))
    → IsValid w
    → IsValid (with_session ids m w).1
unfolding with_session leave
with_session-IsValid ids m w keeps v = record {
  counted =
      insert-IsCounted ids.stream_session_id after.session w.sessions after.sent i.counted
        λ key t e. IsCounted-grow i.grown (v.counted key t e);
  ordered = i.ordered;
}
  where
    before : Local
    before = enter (session_or_new ids w) w

    after : Local
    after = (m before).1

    i : Inv ids.stream_session_id w.sent after
    i = Post-state (
        keeps before
          (enter-Inv ids.stream_session_id _ w (session_or_new-IsCounted ids w v) v.ordered))

module _ ⦃env : Env⦄ where
  handle_token-IsValid :
      (s : TranscriptTokenCommitted) (w : TurnManager) → IsValid w → IsValid (handle_token s w).1
  unfolding handle_token
  handle_token-IsValid s w v = go (contains s.ids.stream_session_id w.closed_sessions) refl
    where
      drained : TurnManager
      drained = record w { model_drain = or_else w.model_drain (some s.drain_handle) }

      d : IsValid drained
      d = record { counted = v.counted; ordered = v.ordered }

      go :
          (b : Bool)
          → contains s.ids.stream_session_id w.closed_sessions ≡ b
          → IsValid
              (if b then (ok [], drained) else with_session s.ids (on_transcript_token s) drained).1
      go true e = d
      go false e =
          with_session-IsValid s.ids (on_transcript_token s) drained (on_transcript_token-Inv s) d

  pub handle_signal-IsValid :
      (signal : DetectorSignal) (w : TurnManager) → IsValid w → IsValid (handle_signal signal w).1
  unfolding handle_signal
  handle_signal-IsValid (vad_segment_start s) w v =
      with_session-IsValid s.ids _ w (on_vad_segment_start-Inv s) v
  handle_signal-IsValid (vad_segment_end s) w v =
      with_session-IsValid s.ids _ w (on_vad_segment_end-Inv w.config w.model_drain s) v
  handle_signal-IsValid (vad_speech_presence s) w v =
      with_session-IsValid s.ids _ w (on_vad_speech_presence-Inv w.config w.model_drain s) v
  handle_signal-IsValid (transcript_token_committed s) w v = handle_token-IsValid s w v
  handle_signal-IsValid (vad_low_silence s) w v =
      with_session-IsValid s.ids _ w (on_vad_low_silence-Inv w.config s) v
  handle_signal-IsValid (model_eou s) w v =
      with_session-IsValid s.ids _ w (on_model_eou-Inv w.config s) v
  handle_signal-IsValid (semantic_turn_decision s) w v =
      with_session-IsValid s.ids _ w (on_semantic_turn_decision-Inv w.config w.model_drain s) v
  handle_signal-IsValid (vad_acoustic_fallback s) w v =
      with_session-IsValid s.ids _ w (on_vad_acoustic_fallback-Inv w.config s) v

-- ===== src/Turn/Gap.antt =====
-- Proofs on a gap in a session's audio, with the log's worker running or stopped
-- (audio_gap_reset of crates/speech-core-daemon/src/detectors/turn.rs).
use speech_core.Base.{
  true, false, ◌&&◌, String, Option, none, some, List, ◌∷◌, ◌≡◌, refl, sym, subst, if_cases, arith,
}
use speech_core.Base.Maps.{lookup, remove, lookup-insert_self, lookup-remove_self}
use speech_core.Turn.Events.{Event, is_durable}
use speech_core.Turn.Local.{Env, Local, Outcome, ok, err, TurnSession, OpenTurn, written, write}
use speech_core.Turn.Close.{count_close, dispatch_turn, close_specific_turn}
use speech_core.Turn.Manager.{TurnManager, enter, leave}
use speech_core.Turn.Manager.Sessions.{
  AudioGapReset, close_for_gap, gap_reset, restored, audio_gap_reset,
}
use speech_core.Turn.Post.{Post, good, bad, Post-continue}
use speech_core.Turn.Live.{IsLive, Succeeds, write-Succeeds, after_write-Succeeds}

-- The session goes on, without its turn and without what the VAD and the detectors had said.
pub record IsReset (before after : TurnSession) : Type 0 where
  pub same_hello : after.hello ≡ before.hello
  pub same_index : after.next_turn_index ≡ before.next_turn_index
  pub no_turn : after.open_turn ≡ none
  pub not_in_speech : after.in_speech ≡ false
  pub no_vad : after.saw_vad_signal ≡ false
  pub no_vad_start : after.last_vad_start_sample ≡ none
  pub no_vad_end : after.last_vad_end_sample ≡ none
  pub no_vad_decision : after.last_vad_end_decision_sample ≡ none
  pub no_semantic : after.last_semantic_decision ≡ none
  pub no_hold : after.last_human_hold_token_anchor ≡ none

-- What a gap leaves alone, with the turn gone.
abbrev WithoutTurn : TurnSession → TurnSession → Type 0
WithoutTurn before after =
    (after.hello ≡ before.hello)
    × (after.next_turn_index ≡ before.next_turn_index)
    × (after.open_turn ≡ none)

-- The session is under its key again, reset.
abbrev pub IsRestored : String → TurnSession → Outcome (Unit {0}) × TurnManager → Type 0
IsRestored id s r =
    (r.0 ≡ ok tt)
    × ((after : TurnSession) × (lookup id r.1.sessions ≡ some after) × IsReset s after)

-- The log's worker has stopped.
abbrev pub IsStopped : Env → Type 0
IsStopped env = (sent : List Event) → env.logger_stopped sent ≡ true

abbrev Fails : Outcome (Unit {0}) × Local → Type 0
Fails r = Post (λ _. Unit {0}) (λ _. ⊥) r

-- The call failed and the session is gone, without a tombstone.
abbrev pub IsLost : String → TurnManager → Outcome (Unit {0}) × TurnManager → Type 0
IsLost id w r =
    (r.0 ≡ err) × (lookup id r.1.sessions ≡ none) × (r.1.closed_sessions ≡ w.closed_sessions)

module _ ⦃env : Env⦄ where
  close_for_gap-WithoutTurn :
      (gap : AudioGapReset) (turn : Option OpenTurn) (l : Local)
      → IsLive env
      → l.session.open_turn ≡ turn
      → Succeeds (λ m. WithoutTurn l.session m.session) (close_for_gap gap turn l)
  unfolding close_for_gap close_specific_turn dispatch_turn count_close
  close_for_gap-WithoutTurn gap none l live e = good tt l (refl, refl, e)
  close_for_gap-WithoutTurn gap (some turn) l live e =
      after_write-Succeeds _ _ _ live
        (after_write-Succeeds _ _ _ live (write-Succeeds _ _ live (refl, refl, refl)))

  gap_reset-IsReset :
      (gap : AudioGapReset) (l : Local)
      → IsLive env
      → Succeeds (λ m. IsReset l.session m.session) (gap_reset gap l)
  unfolding gap_reset
  gap_reset-IsReset gap l live =
      Post-continue (close_for_gap-WithoutTurn gap l.session.open_turn l live refl) λ _ m h.
        write-Succeeds _ _ live (record {
          same_hello = h.0;
          same_index = h.1;
          no_turn = h.2;
          not_in_speech = refl;
          no_vad = refl;
          no_vad_start = refl;
          no_vad_end = refl;
          no_vad_decision = refl;
          no_semantic = refl;
          no_hold = refl;
        })

  restored-IsRestored :
      (id : String) (s : TurnSession) (w : TurnManager) (r : Outcome (Unit {0}) × Local)
      → Succeeds (λ m. IsReset s m.session) r
      → IsRestored id s (r.0, restored id r w)
  unfolding restored leave
  restored-IsRestored id s w _ (good a l h) =
      (refl, (l.session, lookup-insert_self id l.session w.sessions, h))
  restored-IsRestored id s w _ (bad l h) = absurd h

  -- While the log's worker runs, a gap in the audio of a known session succeeds and keeps the
  -- session with its hello and its next turn's index, but with no open turn, not in speech, and
  -- with nothing left of the VAD's starts and ends, the semantic decision or the human hold.
  pub audio_gap_reset-IsRestored :
      (gap : AudioGapReset) (s : TurnSession) (w : TurnManager)
      → IsLive env
      → lookup gap.ids.stream_session_id w.sessions ≡ some s
      → IsRestored gap.ids.stream_session_id s (audio_gap_reset gap w)
  unfolding audio_gap_reset enter
  audio_gap_reset-IsRestored gap s w live e =
      rw (audio_gap_reset, e)
        (restored-IsRestored gap.ids.stream_session_id s _ _
          (gap_reset-IsReset gap (enter s w) live))

  write-Fails : (e : Event) (l : Local) → IsStopped env → is_durable e ≡ true → Fails (write e l)
  unfolding write written
  write-Fails e l stopped d =
      if_cases (λ (o : Outcome (Unit {0})). Fails (o, record l { sent = e ∷ l.sent }))
        (is_durable e && env.logger_stopped (e ∷ l.sent)) (λ _. bad _ tt)
        (λ f. absurd (ground (arith, stopped (e ∷ l.sent))))

  -- A close fails at its first event.
  close_for_gap-Fails :
      (gap : AudioGapReset) (turn : OpenTurn) (l : Local)
      → IsStopped env
      → Fails (close_for_gap gap (some turn) l)
  unfolding close_for_gap close_specific_turn is_durable
  close_for_gap-Fails gap turn l stopped =
      Post-continue (write-Fails _ _ stopped refl) λ _ _ f. absurd f

  gap_reset-Fails :
      (gap : AudioGapReset) (turn : Option OpenTurn) (l : Local)
      → IsStopped env
      → l.session.open_turn ≡ turn
      → Fails (gap_reset gap l)
  unfolding gap_reset is_durable close_for_gap
  gap_reset-Fails gap none l stopped e =
      Post-continue {Q = λ _. Unit {0}}
        (subst (λ t. Post (λ _. Unit {0}) (λ _. Unit {0}) (close_for_gap gap t l)) (sym e)
          (good tt l tt))
        λ _ _ _. write-Fails _ _ stopped refl
  gap_reset-Fails gap (some turn) l stopped e =
      Post-continue
        (subst (λ t. Fails (close_for_gap gap t l)) (sym e)
          (close_for_gap-Fails gap turn l stopped))
        λ _ _ f. absurd f

  restored-IsLost :
      (id : String) (w : TurnManager) (r : Outcome (Unit {0}) × Local)
      → Fails r
      → IsLost id w (r.0, restored id r (record w { sessions = remove id w.sessions }))
  unfolding restored leave
  restored-IsLost id w _ (good a l h) = absurd h
  restored-IsLost id w _ (bad l h) = (refl, lookup-remove_self id w.sessions, refl)

  -- Once the log's worker has stopped, a gap in the audio of a known session fails and loses the
  -- session: nothing is under its id any more, although the session was not ended and its id is
  -- marked as that of an ended session only if it was so before.
  pub audio_gap_reset-IsLost :
      (gap : AudioGapReset) (s : TurnSession) (w : TurnManager)
      → IsStopped env
      → lookup gap.ids.stream_session_id w.sessions ≡ some s
      → IsLost gap.ids.stream_session_id w (audio_gap_reset gap w)
  unfolding audio_gap_reset
  audio_gap_reset-IsLost gap s w stopped e =
      rw (audio_gap_reset, e)
        (restored-IsLost gap.ids.stream_session_id w _
          (gap_reset-Fails gap (enter s w).session.open_turn (enter s w) stopped refl))

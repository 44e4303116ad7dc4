-- ===== src/Turn/Invariant/Reach.antt =====
-- The invariant through the calls that start and end sessions, and through histories
-- (crates/speech-core-daemon/src/detectors/turn.rs).
use speech_core.Base.{String, Option, none, some, List, [], ◌∷◌, ◌≡◌, refl}
use speech_core.Base.Maps.{lookup, remove}
use speech_core.Turn.Events.{Event}
use speech_core.Turn.Local.{
  Env, Local, Outcome, ok, err, HelloState, TurnSession, OpenTurn, new_session,
}
use speech_core.Turn.Close.{close_turn}
use speech_core.Turn.Manager.{TurnManager, new_manager, enter, leave}
use speech_core.Turn.Manager.Sessions.{
  start_session, AudioGapReset, close_for_gap, gap_reset, restored, audio_gap_reset, close_for_end,
  insert_closed, finish_session, end_session, end_all, finalize_all,
}
use speech_core.Turn.History.{
  Reachable, created, started, signalled, gap, ended, finalized, elsewhere,
}
use speech_core.Turn.Post.{Post, good, Post-state, Post-continue}
use speech_core.Turn.Invariant.{IsOrdered, IsCounted, Inv}
use speech_core.Turn.Invariant.Closing.{close_turn-Inv}
use speech_core.Turn.Invariant.Session.{IsCounted-write, write-Inv, Inv-session}
use speech_core.Turn.Invariant.Manager.{
  IsValid, IsCounted-grow, insert-IsCounted, remove-IsCounted, fresh-IsCounted, enter-Inv,
  handle_signal-IsValid,
}

module _ ⦃env : Env⦄ where
  start_session-IsValid :
      (hello : HelloState) (w : TurnManager) → IsValid w → IsValid (start_session hello w).1
  unfolding start_session
  start_session-IsValid hello w v = record {
    counted =
        insert-IsCounted hello.stream_session_id (new_session hello) w.sessions _
          (fresh-IsCounted hello.stream_session_id hello _ refl)
          λ key s e. IsCounted-write _ (v.counted key s e);
    ordered = v.ordered;
  }

  close_for_gap-Inv :
      {key : String} {base : List Event} (reset : AudioGapReset) (turn : Option OpenTurn)
      (l : Local)
      → l.session.open_turn ≡ turn
      → Inv key base l
      → Post (Inv key base) (Inv key base) (close_for_gap reset turn l)
  unfolding close_for_gap close_turn
  close_for_gap-Inv reset none l e i = good tt l i
  close_for_gap-Inv reset (some turn) l e i =
      close_turn-Inv _ l (record { inv = i; is_open = e }) refl

  gap_reset-Inv :
      {key : String} {base : List Event} (reset : AudioGapReset) (l : Local)
      → Inv key base l
      → Post (Inv key base) (Inv key base) (gap_reset reset l)
  unfolding gap_reset
  gap_reset-Inv reset l i =
      Post-continue (close_for_gap-Inv reset l.session.open_turn l refl i)
        λ _ l1 i1. write-Inv _ _ (λ h. h) (Inv-session _ (refl, refl, refl, refl, refl) i1)

  close_for_end-Inv :
      {key : String} {base : List Event} (id reason : String) (turn : Option OpenTurn) (l : Local)
      → l.session.open_turn ≡ turn
      → Inv key base l
      → Post (Inv key base) (Inv key base) (close_for_end id reason turn l)
  unfolding close_for_end close_turn
  close_for_end-Inv id reason none l e i = good tt l i
  close_for_end-Inv id reason (some turn) l e i =
      close_turn-Inv _ l (record { inv = i; is_open = e }) refl

  finish_session-Inv :
      {key : String} {base : List Event} (id reason : String) (l : Local)
      → Inv key base l
      → Post (Inv key base) (Inv key base) (finish_session id reason l)
  unfolding finish_session
  finish_session-Inv id reason l i =
      Post-continue (close_for_end-Inv id reason l.session.open_turn l refl i)
        λ _ l1 i1. write-Inv _ _ (λ h. h) i1

  -- A session that was taken out, and came back or not.
  restored-IsValid :
      (id : String) (r : Outcome (Unit {0}) × Local) (w : TurnManager)
      → IsValid w
      → Inv id w.sent r.1
      → IsValid (restored id r (record w { sessions = remove id w.sessions }))
  unfolding restored leave
  restored-IsValid id (ok a, l) w v i = record {
    counted =
        insert-IsCounted id l.session _ l.sent i.counted λ key s e.
          IsCounted-grow i.grown (remove-IsCounted id w.sessions w.sent v.counted key s e);
    ordered = i.ordered;
  }
  restored-IsValid id (err, l) w v i = record {
    counted =
        λ key s e. IsCounted-grow i.grown (remove-IsCounted id w.sessions w.sent v.counted key s e);
    ordered = i.ordered;
  }

  audio_gap_reset-IsValid :
      (reset : AudioGapReset) (w : TurnManager) → IsValid w → IsValid (audio_gap_reset reset w).1
  unfolding audio_gap_reset
  audio_gap_reset-IsValid reset w v = go (lookup reset.ids.stream_session_id w.sessions) refl
    where
      id : String
      id = reset.ids.stream_session_id

      go :
          (found : Option TurnSession)
          → lookup id w.sessions ≡ found
          → IsValid
              (elim found as (λ _. Outcome (Unit {0}) × TurnManager) [
                | none ↦ (ok tt, w)
                | some session ↦
                    let r = gap_reset reset (enter session w) in
                    (r.0, restored id r (record w { sessions = remove id w.sessions }))
              ]).1
      go none e = v
      go (some s) e =
          restored-IsValid id _ w v
            (Post-state (gap_reset-Inv reset _ (enter-Inv id s w (v.counted id s e) v.ordered)))

  end_session-IsValid :
      (id reason : String) (w : TurnManager) → IsValid w → IsValid (end_session id reason w).1
  unfolding end_session restored
  end_session-IsValid id reason w v = go (lookup id w.sessions) refl
    where
      closed : TurnManager
      closed = record w { closed_sessions = insert_closed id w.closed_sessions }

      go :
          (found : Option TurnSession)
          → lookup id w.sessions ≡ found
          → IsValid
              (elim found as (λ _. Outcome (Unit {0}) × TurnManager) [
                | none ↦ (ok tt, closed)
                | some session ↦
                    let r = finish_session id reason (enter session w) in
                    (r.0, leave r.1 (record closed { sessions = remove id w.sessions }))
              ]).1
      go none e = record { counted = v.counted; ordered = v.ordered }
      go (some s) e =
          restored-IsValid id (err, _) closed (record { counted = v.counted; ordered = v.ordered })
            (Post-state
              (finish_session-Inv id reason _ (enter-Inv id s w (v.counted id s e) v.ordered)))

  end_all-IsValid :
      (ids : List String) (reason : String) (w : TurnManager)
      → IsValid w
      → IsValid (end_all ids reason w).1
  unfolding end_all
  end_all-IsValid [] reason w v = v
  end_all-IsValid (id ∷ ids) reason w v =
      elim (end_session id reason w).0
        as (λ o.
          IsValid
            (elim o as (λ _. Outcome (Unit {0}) × TurnManager) [
              | ok _ ↦ end_all ids reason (end_session id reason w).1
              | err ↦ (err, (end_session id reason w).1)
            ]).1) [
              | ok _ ↦ end_all-IsValid ids reason _ (end_session-IsValid id reason w v)
              | err ↦ end_session-IsValid id reason w v
            ]

  pub Reachable-IsValid : {w : TurnManager} → Reachable w → IsValid w
  unfolding new_manager finalize_all lookup
  Reachable-IsValid (created config progress drain) = record {
    counted = λ key s e. cc;
    ordered = tt;
  }
  Reachable-IsValid (started {w} hello r) = start_session-IsValid hello w (Reachable-IsValid r)
  Reachable-IsValid (signalled {w} signal r) = handle_signal-IsValid signal w (Reachable-IsValid r)
  Reachable-IsValid (gap {w} reset r) = audio_gap_reset-IsValid reset w (Reachable-IsValid r)
  Reachable-IsValid (ended {w} id reason r) = end_session-IsValid id reason w (Reachable-IsValid r)
  Reachable-IsValid (finalized {w} reason r) = end_all-IsValid _ reason w (Reachable-IsValid r)
  Reachable-IsValid (elsewhere progress elapsed_ns r) =
      let v = Reachable-IsValid r in record { counted = v.counted; ordered = v.ordered }

  -- In every history of a turn manager, the log written so far holds each `turn_closed` directly
  -- after the `transcript_committed` and the `turn_eou` of the same close (with the same ids, turn
  -- id and samples, the committed event also with the same degraded flag and source), and after a
  -- `turn_started` of the turn that it names.
  pub Reachable-IsOrdered : {w : TurnManager} → Reachable w → IsOrdered w.sent
  Reachable-IsOrdered r = (Reachable-IsValid r).ordered

  -- In every history of a turn manager, a session stands under its own id, the next turn's index is
  -- the number of turns started, no more turns are closed than were started, and an open turn has
  -- the id of the last index given out, was started in the log, and is not counted as closed.
  pub Reachable-IsCounted :
      {w : TurnManager} (key : String) (s : TurnSession)
      → Reachable w
      → lookup key w.sessions ≡ some s
      → IsCounted key s w.sent
  Reachable-IsCounted key s r e = (Reachable-IsValid r).counted key s e

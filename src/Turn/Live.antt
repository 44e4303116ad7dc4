-- ===== src/Turn/Live.antt =====
-- Proofs on a close while the log's worker runs, so that no write fails
-- (close_turn of crates/speech-core-daemon/src/detectors/turn.rs).
use speech_core.Base.{
  true, false, ◌&&◌, String, Option, none, some, List, ◌∷◌, ◌≡◌, refl, sym, subst, if_cases, arith,
  ℕ, leb, is_some_and, and_then, map_some, max,
}
use speech_core.Base.Maps.{lookup, lookup-update_self}
use speech_core.Turn.Events.{Event, is_durable}
use speech_core.Turn.Local.{Env, Local, M, continue, Outcome, ok, written, write, hello_ids}
use speech_core.Turn.Close.{
  CloseRequest, close_specific_turn, close_turn, dispatch_turn, eou_event, committed_event,
  closed_event, count_close, after_dispatch, snapshot_end,
}
use speech_core.Turn.Post.{Post, good}
use speech_core.Base.Words.{saturating_add}
use speech_core.Progress.State.{ModelProgressMap, ModelProgressState}
use speech_core.Progress.Ops.{
  dispatched, turn_id_set, frozen_through, freeze_tokens_through, set_current_turn_id,
  record_dispatch,
}
use speech_core.Progress.PerTurn.{CommittedSnapshot}

-- The log's worker never stops.
abbrev pub IsLive : Env → Type 0
IsLive env = (sent : List Event) → env.logger_stopped sent ≡ false

-- The work succeeds, with Q.
abbrev pub Succeeds : {A : Type 0} → (Local → Type 0) → Outcome A × Local → Type 0
Succeeds Q r = Post (λ _. ⊥) Q r

-- The turn's text is on record, no turn is open, and the tokens up to the decision are frozen.
pub record IsDispatched (c : CloseRequest) (text : String) (state : ModelProgressState)
    : Type 0 where
  pub same_text : state.last_dispatched_text ≡ some text
  pub same_turn : state.last_dispatched_turn_id ≡ some c.turn_id
  pub same_end : state.last_dispatched_turn_end_sample ≡ some c.end_sample
  pub no_turn : state.current_turn_id ≡ none
  pub frozen :
      is_some_and state.suppress_tokens_at_or_before_sample (λ s. leb c.decision_sample s) ≡ true

-- What the shared progress holds of a session.
abbrev pub session_state : String → Local → Option ModelProgressState
session_state id l = and_then l.progress (lookup id)

-- What holds of a session's progress, if there is one.
abbrev pub OfState : (ModelProgressState → Type 0) → Option ModelProgressState → Type 0
OfState P none = Unit
OfState P (some state) = P state

-- The turn is closed: its three events, the session without it, and the count.
pub record IsClosed (c : CloseRequest) (before after : Local) : Type 0 where
  pub snapshot : CommittedSnapshot
  pub events :
      let ids = hello_ids before.session.hello in
      after.sent
      ≡ closed_event ids c ∷ committed_event ids c snapshot ∷ eou_event ids c ∷ before.sent
  pub no_turn : after.session.open_turn ≡ none
  pub counted : after.session.turns_closed ≡ saturating_add before.session.turns_closed 1
  pub closed_end : after.session.last_closed_end_sample ≡ some c.end_sample
  pub dispatched :
      OfState
        (IsDispatched c snapshot.text)
        (session_state before.session.hello.stream_session_id after)
  pub closed_decision : after.session.last_closed_decision_sample ≡ some c.decision_sample

closed_state-IsDispatched :
    (c : CloseRequest) (baseline : ℕ) (text : String) (e : ℕ) (found : Option ModelProgressState)
    → OfState (IsDispatched c text) (
        map_some
          (map_some
            (map_some found (dispatched c.turn_id text c.turn_start_sample c.end_sample baseline))
            (turn_id_set none))
          (frozen_through (max e c.decision_sample)))
unfolding dispatched turn_id_set frozen_through
closed_state-IsDispatched c baseline text e none = tt
closed_state-IsDispatched c baseline text e (some state) = record {
  same_text = refl;
  same_turn = refl;
  same_end = refl;
  no_turn = refl;
  frozen = ground arith;
}

after_dispatch-IsDispatched :
    (id : String) (c : CloseRequest) (baseline : ℕ) (text : String)
    (progress : Option ModelProgressMap)
    → OfState
        (IsDispatched c text)
        (and_then (map_some progress (after_dispatch id c baseline text)) (lookup id))
unfolding after_dispatch freeze_tokens_through set_current_turn_id record_dispatch
after_dispatch-IsDispatched id c baseline text none = tt
after_dispatch-IsDispatched id c baseline text (some p) =
    rw (lookup-update_self, lookup-update_self, lookup-update_self)
      (closed_state-IsDispatched c baseline text (snapshot_end id c.end_sample p) (lookup id p))

module _ ⦃env : Env⦄ where
  written_ok : IsLive env → (e : Event) (sent : List Event) → written e sent ≡ ok tt
  unfolding written
  written_ok live e sent =
      if_cases (λ (o : Outcome (Unit {0})). o ≡ ok tt)
        (is_durable e && env.logger_stopped (e ∷ sent))
        (λ t. absurd (ground (arith, live (e ∷ sent)))) (λ _. refl)

  pub write-Succeeds :
      {Q : Local → Type 0} (e : Event) (l : Local)
      → IsLive env
      → Q (record l { sent = e ∷ l.sent })
      → Succeeds Q (write e l)
  unfolding write
  write-Succeeds {Q} e l live q =
      subst (λ o. Succeeds Q (o, record l { sent = e ∷ l.sent })) (sym (written_ok live e l.sent))
        (good tt _ q)

  -- The same at the head of a `do` block.
  pub after_write-Succeeds :
      {B : Type 0} {R : Local → Type 0} (f : Unit {0} → M B) (e : Event) (l : Local)
      → IsLive env
      → Succeeds R (f tt (record l { sent = e ∷ l.sent }))
      → Succeeds R (continue f (write e l))
  unfolding write
  after_write-Succeeds {R = R} f e l live r =
      subst (λ o. Succeeds R (continue f (o, record l { sent = e ∷ l.sent })))
        (sym (written_ok live e l.sent)) r

  -- While the log's worker runs, a close succeeds: it adds to the log the turn's `turn_eou`,
  -- `transcript_committed` and `turn_closed`, in this order and nothing else, leaves no turn open,
  -- counts the close and remembers its samples; and the session's progress, if there is one, has on
  -- record the turn and the text of the committed event, has no open turn, and has its tokens
  -- frozen through the decision sample at least.
  pub close_turn-IsClosed :
      (c : CloseRequest) (l : Local) → IsLive env → Succeeds (IsClosed c l) (close_turn c l)
  unfolding close_turn close_specific_turn dispatch_turn count_close
  close_turn-IsClosed c l live = after_write-Succeeds _ _ _ live (
      after_write-Succeeds _ _ _ live (
        write-Succeeds _ _ live (record {
          snapshot = _;
          events = refl;
          no_turn = refl;
          counted = refl;
          dispatched = after_dispatch-IsDispatched _ c _ _ l.progress;
          closed_end = refl;
          closed_decision = refl;
        })))

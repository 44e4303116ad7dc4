-- ===== src/Turn/Invariant/Closing.antt =====
-- The invariant through the close of a turn (close_turn of
-- crates/speech-core-daemon/src/detectors/turn.rs).
use speech_core.Base.{String, none, some, List, ◌∷◌, ◌≡◌, refl, sym, subst, inr, arith}
use speech_core.Progress.PerTurn.{CommittedSnapshot}
use speech_core.Turn.Signals.{Ids}
use speech_core.Turn.Events.{Event}
use speech_core.Turn.Local.{Env, Local, hello_ids, TurnSession, OpenTurn}
use speech_core.Turn.Close.{
  CloseRequest, eou_event, committed_event, closed_event, committed_snapshot, count_close,
  dispatch_turn, close_specific_turn, close_turn,
}
use speech_core.Turn.Post.{Post, Post-write, Post-after_write}
use speech_core.Turn.Invariant.{WasStarted, IsLatest, IsCounted, Inv, Open}
use speech_core.Turn.Invariant.Session.{Inv-write, Inv-same}

pub Open-IsLatest :
    {key : String} {base : List Event} {turn : OpenTurn} {l : Local}
    → Open key base turn l
    → IsLatest key l.session l.sent (some turn)
Open-IsLatest {key} {l = l} o = subst (IsLatest key l.session l.sent) o.is_open o.inv.counted.latest

WasStarted-Open :
    {key : String} {base : List Event} {turn : OpenTurn} {l : Local}
    → Open key base turn l
    → WasStarted turn.turn_id l.sent
WasStarted-Open o = (Open-IsLatest o).5

abbrev without_turn : CloseRequest → TurnSession → TurnSession
without_turn c s = count_close c (record s { open_turn = none })

-- The turn goes, and is counted as closed.
closed-IsCounted :
    {key : String} {base : List Event} {turn : OpenTurn} (c : CloseRequest) (l : Local)
    → Open key base turn l
    → IsCounted key (without_turn c l.session) l.sent
unfolding count_close
closed-IsCounted c l o = record {
  named = o.inv.counted.named;
  indexed = o.inv.counted.indexed;
  bounded = o.inv.counted.bounded;
  closed_started = omega (arith, (Open-IsLatest o).2, (Open-IsLatest o).3, (Open-IsLatest o).4);
  latest = tt;
}

closed-Inv :
    {key : String} {base : List Event} {turn : OpenTurn} (c : CloseRequest) (l : Local)
    → Open key base turn l
    → Inv key base (record l { session = without_turn c l.session })
closed-Inv c l o = record {
  counted = closed-IsCounted c l o;
  ordered = o.inv.ordered;
  grown = o.inv.grown;
}

module _ ⦃env : Env⦄ where
  -- A close of the open turn writes its three events in order.
  pub close_turn-Inv :
      {key : String} {base : List Event} {turn : OpenTurn} (c : CloseRequest) (l : Local)
      → Open key base turn l
      → c.turn_id ≡ turn.turn_id
      → Post (Inv key base) (Inv key base) (close_turn c l)
  unfolding close_turn close_specific_turn dispatch_turn count_close
  close_turn-Inv {key} {base} {turn} c l o e =
      Post-after_write _ _ _ eou (Post-after_write _ _ _ committed (Post-write _ _ closed closed))
    where
      ids : Ids
      ids = hello_ids l.session.hello

      counted_state : Local
      counted_state = record l { session = without_turn c l.session }

      eou_state : Local
      eou_state = record counted_state { sent = eou_event ids c ∷ l.sent }

      dispatched : Local
      dispatched = (dispatch_turn c eou_state).1

      eou : Inv key base eou_state
      eou = Inv-write (eou_event ids c) (λ h. h) (closed-Inv c l o)

      after : Inv key base dispatched
      after = Inv-same (refl, refl, refl, refl, refl) refl eou

      snapshot : CommittedSnapshot
      snapshot = committed_snapshot c eou_state

      committed :
          Inv key base
            (record dispatched { sent = committed_event ids c snapshot ∷ dispatched.sent })
      committed = Inv-write (committed_event ids c snapshot) (λ h. h) after

      closed : Inv key base (record dispatched {
        sent = closed_event ids c ∷ committed_event ids c snapshot ∷ dispatched.sent;
      })
      closed =
          Inv-write (closed_event ids c)
            (λ h. (
              record {
                committed_ids = refl;
                committed_turn = refl;
                committed_end = refl;
                committed_decision = refl;
                committed_degraded = refl;
                committed_source = refl;
                eou_ids = refl;
                eou_turn = refl;
                eou_end = refl;
                eou_decision = refl;
              },
              inr (inr (subst (λ t. WasStarted t l.sent) (sym e) (WasStarted-Open o))),
              h,
            ))
            committed

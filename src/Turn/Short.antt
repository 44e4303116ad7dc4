-- ===== src/Turn/Short.antt =====
-- Proofs on VAD segments that are too short
-- (VadSegmentEnd in crates/speech-core-daemon/src/detectors/turn.rs).
use speech_core.Base.{
  ℕ, ◌-◌, ◌<◌, Bool, true, false, String, Option, none, some, [], ltb, ◌==◌, ◌≡◌, refl, sym, subst,
  if◌then◌else◌, is_none, is_some_and, map_some, and_then, arith,
}
use speech_core.Base.Maps.{lookup, lookup-update_self}
use speech_core.Base.Words.{saturating_add}
use speech_core.Progress.State.{ModelProgressMap, ModelProgressState}
use speech_core.Progress.Ops.{set_current_turn_id, turn_id_set}
use speech_core.Turn.Config.{TurnManagerConfig, ms_to_samples}
use speech_core.Turn.Signals.{VadSegmentEnd, ModelDrainHandle}
use speech_core.Turn.Local.{
  Env, Local, next_turn_id, OpenTurn, start_turn, tag_turn, note_turn, note_turn_opened,
}
use speech_core.Turn.Handlers.Shared.{is_stale, open_counted_turn, ensure_turn}
use speech_core.Turn.Handlers.Segment.{vad_too_short, live_segment_end, on_vad_segment_end}
use speech_core.Turn.Post.{good, Post-continue, Post-if}
use speech_core.Turn.Live.{
  IsLive, Succeeds, write-Succeeds, after_write-Succeeds, session_state, OfState,
}

-- The shared progress of the session, if there is one, names the turn as open.
abbrev NamesTurn : String → String → Local → Type 0
NamesTurn id turn_id l = OfState (λ s. s.current_turn_id ≡ some turn_id) (session_state id l)

-- A turn was started and is gone, without a close, and the shared progress still names it.
pub record IsDropped (id : String) (before after : Local) : Type 0 where
  pub no_turn : after.session.open_turn ≡ none
  pub started : after.session.turns_started ≡ saturating_add before.session.turns_started 1
  pub not_closed : after.session.turns_closed ≡ before.session.turns_closed
  pub still_named : NamesTurn id (next_turn_id before.session) after

-- The turn is open, with what a drop leaves of it.
record IsOpened (id : String) (start : ℕ) (before l : Local) : Type 0 where
  opened :
      l.session.open_turn
      ≡ some (record { turn_id = next_turn_id before.session; start_sample = start })
  started : l.session.turns_started ≡ saturating_add before.session.turns_started 1
  not_closed : l.session.turns_closed ≡ before.session.turns_closed
  named : NamesTurn id (next_turn_id before.session) l

set_current_turn_id-names :
    (id turn_id : String) (progress : Option ModelProgressMap)
    → OfState
        (λ s. s.current_turn_id ≡ some turn_id)
        (and_then (map_some progress (set_current_turn_id id (some turn_id))) (lookup id))
unfolding set_current_turn_id turn_id_set
set_current_turn_id-names id turn_id none = tt
set_current_turn_id-names id turn_id (some p) = rw lookup-update_self (go (lookup id p))
  where
    go :
        (found : Option ModelProgressState)
        → OfState
            (λ s. s.current_turn_id ≡ some turn_id)
            (map_some found (turn_id_set (some turn_id)))
    go none = tt
    go (some s) = refl

-- What `start_turn` does before the progress is told.
abbrev Started : ℕ → Local → Local → Type 0
Started start before l =
    (l.session.open_turn
      ≡ some (record { turn_id = next_turn_id before.session; start_sample = start }))
    × (l.session.turns_started ≡ saturating_add before.session.turns_started 1)
    × (l.session.turns_closed ≡ before.session.turns_closed)

note_turn_opened-IsOpened :
    (id : String) (baseline : ModelProgressMap → ℕ) (start : ℕ) (before l : Local)
    → Started start before l
    → Succeeds (IsOpened id start before) (note_turn_opened id baseline l)
unfolding note_turn_opened
note_turn_opened-IsOpened id baseline start before l h = go l.progress refl
  where
    go :
        (progress : Option ModelProgressMap)
        → l.progress ≡ progress
        → Succeeds (IsOpened id start before) (note_turn id baseline progress l)
    go none e = good tt l (record {
      opened = h.0;
      started = h.1;
      not_closed = h.2;
      named =
          subst
            (λ q.
              OfState (λ s. s.current_turn_id ≡ some (next_turn_id before.session))
                (and_then q (lookup id)))
            (sym e) tt;
    })
    go (some p) e = good tt _ (record {
      opened = h.0;
      started = h.1;
      not_closed = h.2;
      named =
          subst
            (λ t.
              OfState (λ s. s.current_turn_id ≡ some (next_turn_id before.session))
                (lookup id (tag_turn id t p)))
            (sym h.0) (set_current_turn_id-names id (next_turn_id before.session) (some p));
    })

still_none : {o : Option OpenTurn} → o ≡ none → is_none o ≡ false → ⊥
still_none {o = none} e h = cc
still_none {o = some _} e h = cc

contradictory : {b : Bool} → b ≡ true → b ≡ false → ⊥
contradictory {b = true} e h = cc
contradictory {b = false} e h = cc

module _ ⦃env : Env⦄ (live : IsLive env) where
  ensure_turn-IsOpened :
      (id source : String) (start : ℕ) (l : Local)
      → l.session.open_turn ≡ none
      → Succeeds (IsOpened id start l) (ensure_turn id start source l)
  unfolding ensure_turn open_counted_turn start_turn
  ensure_turn-IsOpened id source start l e =
      Post-if (is_none l.session.open_turn) _ _ l
        (λ _.
          Post-continue (write-Succeeds {Q = Started start l} _ _ live (refl, refl, refl)) λ _ m h.
            Post-continue (note_turn_opened-IsOpened id _ start l m h) λ _ n o. good true n o)
        (λ f. absurd (still_none e f))

  vad_too_short-IsDropped :
      (config : TurnManagerConfig) (s : VadSegmentEnd) (before l : Local)
      → IsOpened s.ids.stream_session_id s.start_sample before l
      → Succeeds (IsDropped s.ids.stream_session_id before) (vad_too_short config s l)
  unfolding vad_too_short
  vad_too_short-IsDropped config s before l o = after_write-Succeeds _ _ _ live (
      good [] _ (record {
        no_turn =
            subst
              (λ t.
                (if is_some_and t (λ u. u.start_sample == s.start_sample) then none else t) ≡ none)
              (sym o.opened) (ground arith);
        started = o.started;
        not_closed = o.not_closed;
        still_named = o.named;
      }))

  -- While the log's worker runs, the end of a VAD segment that is shorter than the least length,
  -- with no turn open and past the last close, starts a turn and drops it: the turn is counted as
  -- started and not as closed, none is open, and the session's progress, if there is one, still
  -- names the dropped turn as the current one.
  pub on_vad_segment_end-IsDropped :
      (config : TurnManagerConfig) (drain : Option ModelDrainHandle) (s : VadSegmentEnd) (l : Local)
      → l.session.open_turn ≡ none
      → is_stale s.decision_sample l.session ≡ false
      → s.end_sample - s.start_sample < ms_to_samples config.min_vad_speech_ms
      → Succeeds (IsDropped s.ids.stream_session_id l) (on_vad_segment_end config drain s l)
  unfolding on_vad_segment_end live_segment_end
  on_vad_segment_end-IsDropped config drain s l e fresh short =
      Post-if (is_stale s.decision_sample l.session) _ _ l (λ t. absurd (contradictory t fresh))
        λ _.
          Post-continue (ensure_turn-IsOpened s.ids.stream_session_id "vad" s.start_sample l e)
            λ _ m o. after_write-Succeeds _ _ _ live (
              Post-if (ltb (s.end_sample - s.start_sample) (ms_to_samples config.min_vad_speech_ms))
                _ _ _
                (λ _. vad_too_short-IsDropped config s l _ (record {
                  opened = o.opened;
                  started = o.started;
                  not_closed = o.not_closed;
                  named = o.named;
                }))
                (λ f. absurd (ground arith)))

-- ===== src/Turn/Handlers/Shared.antt =====
-- What several arms of TurnManager::handle_signal do alike
-- (crates/speech-core-daemon/src/detectors/turn.rs).
use speech_core.Base.{
  ℕ, ◌-◌, max, Bool, true, false, ◌&&◌, not, String, Option, some, leb, if◌then◌else◌, is_none,
  is_some_and, unwrap_or, map_some, opt_eq,
}
use speech_core.Progress.Ops.{snapshot_token_count_at_turn_start}
use speech_core.Turn.Local.{
  Env, Local, M, ◌>>=◌, ◌>>◌, return, get, start_turn, note_turn_opened, next_turn_id, TurnSession,
}
use speech_core.Turn.Align.Waits.{token_end}

-- The open turn's name, or the next one.
unfoldable pub turn_id_or_next : TurnSession → String
turn_id_or_next s = unwrap_or (map_some s.open_turn (λ t. t.turn_id)) (next_turn_id s)

-- The turn was closed at or past this decision already, and none is open.
unfoldable pub is_stale : ℕ → TurnSession → Bool
is_stale decision_sample s =
    is_none s.open_turn && is_some_and s.last_closed_decision_sample (λ c. leb decision_sample c)

-- The token from which the silence of a held turn counts, no older than the turn.
unfoldable pub hold_anchor : String → ℕ → Local → ℕ
hold_anchor id turn_start l = max (unwrap_or (token_end id l) turn_start) turn_start

-- Long enough without a token, and this silence has not fired before.
unfoldable pub hold_fires : ℕ → ℕ → ℕ → Option ℕ → Bool
hold_fires decision anchor threshold fired =
    leb threshold (decision - anchor) && not (opt_eq fired (some anchor))

module _ ⦃env : Env⦄ where
  unfoldable pub open_counted_turn : String → ℕ → String → M Bool
  open_counted_turn session_id start_sample source = do
    start_turn start_sample source
    note_turn_opened session_id λ p. unwrap_or (snapshot_token_count_at_turn_start session_id p) 0
    return true

  -- Open a turn if none is open; says whether it did.
  unfoldable pub ensure_turn : String → ℕ → String → M Bool
  ensure_turn session_id start_sample source = do
    l ← get
    if is_none l.session.open_turn
        then open_counted_turn session_id start_sample source
        else return false

-- ===== src/Progress/Ops.antt =====
-- The operations of ModelProgressMap (crates/speech-core-daemon/src/model.rs). Each looks its
-- session up and does nothing where the session is not known.
use speech_core.Base.{
  ℕ, ◌&&◌, not, String, Option, none, some, [], ◌∷◌, ◌++◌, leb, ◌==◌, if◌then◌else◌, length, max,
  is_none, is_some_and, unwrap_or, map_some, and_then,
}
use speech_core.Base.Int.{ℤ, pos, max_zero}
use speech_core.Base.Maps.{lookup, insert, remove, update}
use speech_core.Base.Words.{as_u32}
use speech_core.Progress.State.{
  Unicode, is_speech_evidence_text, CommittedTokenSnapshot, ModelProgressState, ModelProgressMap,
}

unfoldable pub fresh_state : ℕ → ModelProgressState
fresh_state generation = record {
  generation = generation;
  audio_committed_samples = 0;
  last_token_end_sample = none;
  buffered_ms = pos 0;
  committed_tokens = [];
  last_committed_text = "";
  committed_token_count = 0;
  revision = pos 0;
  current_turn_id = none;
  suppress_tokens_at_or_before_sample = none;
  last_dispatched_text = none;
  last_dispatched_turn_id = none;
  last_dispatched_turn_start_sample = none;
  last_dispatched_turn_end_sample = none;
  last_dispatched_baseline_token_count = none;
}

unfoldable pub start_session : String → ℕ → ModelProgressMap → ModelProgressMap
start_session session_id generation m = insert session_id (fresh_state generation) m

unfoldable pub update_audio : String → ℕ → ModelProgressMap → ModelProgressMap
update_audio session_id committed_samples m =
    update session_id (λ state. record state { audio_committed_samples = committed_samples }) m

unfoldable pub update_buffered_ms : String → ℤ → ModelProgressMap → ModelProgressMap
update_buffered_ms session_id buffered_ms m =
    update session_id (λ state. record state { buffered_ms = max_zero buffered_ms }) m

unfoldable pub record_token : String → ℕ → ModelProgressMap → ModelProgressMap
record_token session_id token_end_sample m =
    update session_id (λ state. record state { last_token_end_sample = some token_end_sample }) m

unfoldable pub get_audio : String → ModelProgressMap → Option ℕ
get_audio session_id m = map_some (lookup session_id m) (λ state. state.audio_committed_samples)

unfoldable pub last_token_end_sample : String → ModelProgressMap → Option ℕ
last_token_end_sample session_id m =
    and_then (lookup session_id m) (λ state. state.last_token_end_sample)

unfoldable pub get_buffered_ms : String → ModelProgressMap → Option ℤ
get_buffered_ms session_id m = map_some (lookup session_id m) (λ state. state.buffered_ms)

unfoldable pub committed_token_count : String → ModelProgressMap → ℕ
committed_token_count session_id m =
    unwrap_or (map_some (lookup session_id m) (λ state. state.committed_token_count)) 0

-- Opening a turn lifts the freeze of the turn before.
unfoldable pub turn_id_set : Option String → ModelProgressState → ModelProgressState
turn_id_set none state = record state { current_turn_id = none }
turn_id_set (some turn_id) state = record state {
  current_turn_id = some turn_id;
  suppress_tokens_at_or_before_sample = none;
}

unfoldable pub set_current_turn_id : String → Option String → ModelProgressMap → ModelProgressMap
set_current_turn_id session_id turn_id m = update session_id (turn_id_set turn_id) m

unfoldable pub frozen_through : ℕ → ModelProgressState → ModelProgressState
frozen_through sample state =
    let prev = unwrap_or state.suppress_tokens_at_or_before_sample 0 in
    record state { suppress_tokens_at_or_before_sample = some (max prev sample) }

unfoldable pub freeze_tokens_through : String → ℕ → ModelProgressMap → ModelProgressMap
freeze_tokens_through session_id sample m = update session_id (frozen_through sample) m

unfoldable pub current_turn_id : String → ModelProgressMap → Option String
current_turn_id session_id m = and_then (lookup session_id m) (λ state. state.current_turn_id)

-- The native stream's token count is ignored: the recorded snapshots own the count.
unfoldable pub update_committed_text : String → String → ℕ → ℤ → ModelProgressMap → ModelProgressMap
update_committed_text session_id text _ revision m =
    update session_id (λ state. record state { last_committed_text = text; revision = revision }) m

module _ ⦃u : Unicode⦄ where
  unfoldable pub token_recorded : CommittedTokenSnapshot → ModelProgressState → ModelProgressState
  token_recorded snapshot state =
      let is_punct_only = not (is_speech_evidence_text snapshot.text) in
      let tokens = state.committed_tokens ++ snapshot ∷ [] in
      if is_punct_only && is_none state.current_turn_id
      then state
      else if is_none state.current_turn_id
          && is_some_and state.suppress_tokens_at_or_before_sample (λ m. leb snapshot.end_sample m)
      then state
      else record state {
        committed_tokens = tokens;
        committed_token_count = as_u32 (length tokens);
      }

  unfoldable pub record_token_snapshot :
      String → CommittedTokenSnapshot → ModelProgressMap → ModelProgressMap
  record_token_snapshot session_id snapshot m = update session_id (token_recorded snapshot) m

unfoldable pub snapshot_token_count_at_turn_start : String → ModelProgressMap → Option ℕ
snapshot_token_count_at_turn_start session_id m =
    map_some (lookup session_id m) (λ state. state.committed_token_count)

unfoldable pub dispatched : String → String → ℕ → ℕ → ℕ → ModelProgressState → ModelProgressState
dispatched turn_id text turn_start turn_end baseline state = record state {
  last_dispatched_text = some text;
  last_dispatched_turn_id = some turn_id;
  last_dispatched_turn_start_sample = some turn_start;
  last_dispatched_turn_end_sample = some turn_end;
  last_dispatched_baseline_token_count = some baseline;
}

unfoldable pub record_dispatch :
    String → String → String → ℕ → ℕ → ℕ → ModelProgressMap → ModelProgressMap
record_dispatch session_id turn_id text turn_start turn_end baseline m =
    update session_id (dispatched turn_id text turn_start turn_end baseline) m

pub record Dispatch : Type 0 where
  pub text : String
  pub turn_id : String
  pub turn_start_sample : ℕ
  pub turn_end_sample : ℕ
  pub baseline_token_count : ℕ

-- Each `?` of the source leaves with `None` where its field was never set.
unfoldable pub state_dispatch : ModelProgressState → Option Dispatch
state_dispatch state = and_then state.last_dispatched_text λ text.
    and_then state.last_dispatched_turn_id λ turn_id.
      and_then state.last_dispatched_turn_start_sample λ turn_start.
        and_then state.last_dispatched_turn_end_sample λ turn_end.
          and_then state.last_dispatched_baseline_token_count λ baseline. some (record {
            text = text;
            turn_id = turn_id;
            turn_start_sample = turn_start;
            turn_end_sample = turn_end;
            baseline_token_count = baseline;
          })

unfoldable pub dispatched_snapshot : String → ModelProgressMap → Option Dispatch
dispatched_snapshot session_id m = and_then (lookup session_id m) state_dispatch

unfoldable pub remove_generation : String → ℕ → ModelProgressMap → ModelProgressMap
remove_generation session_id generation m =
    if is_some_and (lookup session_id m) (λ state. state.generation == generation)
    then remove session_id m
    else m

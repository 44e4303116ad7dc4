-- ===== src/Turn/Align.antt =====
-- The alignment before a close: align_model_for_close of
-- crates/speech-core-daemon/src/detectors/turn.rs, a phase at a time.
pub mod Waits
pub mod Untouched
pub mod Loops
pub mod Bounds
use speech_core.Base.{
  ℕ, zero, suc, ◌+◌, ◌-◌, ◌*◌, ◌/◌, min, max, Bool, true, false, ◌&&◌, not, String, Option, none,
  some, ltb, leb, if◌then◌else◌, is_some_and, unwrap_or, or_else, map_some, opt_eq, and_then,
}
use speech_core.Base.Int.{ℤ, le_pos}
use speech_core.Progress.Ops.{get_audio, get_buffered_ms}
use speech_core.Progress.State.{ModelProgressMap}
use speech_core.Turn.Config.{
  close_token_quiescence_ms, close_buffer_drained_ms, close_finalize_padding_ms,
  close_finalize_timeout_ms,
}
use speech_core.Turn.Signals.{
  Ids, ModelDrainRequest, ModelDrainResult, ModelDrainHandle, DrainReply,
}
use speech_core.Turn.Events.{CloseModelAlignment}
use speech_core.Turn.Local.{Env, Local}
use Waits.{
  ns_per_ms, elapsed_ms, remaining_timeout_ms, Boundary, token_end, finalized_extension,
  apply_trailing_token_extension, wait_for_model_progress_until, wait_for_token_quiescence_until,
}

-- The drain's part of the alignment; `result` is what came back, if a handle was there.
pub record DrainPhase : Type 0 where
  pub drain_attempted : Bool
  pub drain_succeeded : Bool
  pub drain_session_found : Option Bool
  pub drain_chunk_processed : Option Bool
  pub drain_until_sample : Option ℕ
  pub finalize_attempted : Bool
  pub finalize_ok : Bool
  pub finalize_timeout : Bool
  pub close_to_input_finished_ms : ℕ
  pub finalize_decode_ms : ℕ
  pub finalize_chunks : ℕ
  pub tokens_added_during_finalize : ℕ
  pub padding_ms : ℕ
  pub buffered_ms_at_close : Option ℤ

abbrev no_drain : DrainPhase
no_drain = record {
  drain_attempted = false;
  drain_succeeded = false;
  drain_session_found = none;
  drain_chunk_processed = none;
  drain_until_sample = none;
  finalize_attempted = false;
  finalize_ok = false;
  finalize_timeout = false;
  close_to_input_finished_ms = 0;
  finalize_decode_ms = 0;
  finalize_chunks = 0;
  tokens_added_during_finalize = 0;
  padding_ms = 0;
  buffered_ms_at_close = none;
}

unfoldable pub drain_phase : Option ModelDrainResult → DrainPhase
drain_phase none = record no_drain {
  drain_attempted = true;
  finalize_attempted = true;
  finalize_timeout = true;
}
drain_phase (some r) = record {
  drain_attempted = true;
  drain_succeeded = r.session_found;
  drain_session_found = some r.session_found;
  drain_chunk_processed = some r.chunk_processed;
  drain_until_sample = some r.drained_until_sample;
  finalize_attempted = true;
  finalize_ok = r.finalize_ok;
  finalize_timeout = r.finalize_timeout;
  close_to_input_finished_ms = r.close_to_input_finished_ms;
  finalize_decode_ms = r.finalize_decode_ms;
  finalize_chunks = r.finalize_chunks;
  tokens_added_during_finalize = r.tokens_added_during_finalize;
  padding_ms = r.padding_ms;
  buffered_ms_at_close = r.buffered_ms_at_close;
}

abbrev drain_request : Ids → ℕ → String → ℕ → ModelDrainRequest
drain_request ids target reason remaining = record {
  ids = ids;
  target_sample = target;
  reason = reason;
  timeout_ms = max remaining close_finalize_timeout_ms;
  finalize_turn = true;
  padding_ms = close_finalize_padding_ms;
}

-- The drain, if there is a handle: the model worker answers, time passes, the progress moves on.
unfoldable pub run_drain :
    Option ModelDrainHandle → Ids → ℕ → String → ℕ → Local → DrainPhase × Local
run_drain none ids target reason deadline l = (no_drain, l)
run_drain (some handle) ids target reason deadline l =
    let request = drain_request ids target reason (remaining_timeout_ms deadline l.now_ns) in
    let reply = handle.drain_session request l.now_ns l.progress in
    (
      drain_phase reply.result,
      record l {
        now_ns = l.now_ns + reply.elapsed_ns;
        progress = map_some l.progress (λ _. reply.progress);
      },
    )

-- What a close learns from the progress: where it ends, and how the waits went.
pub record ProgressPhase : Type 0 where
  pub boundary : Boundary
  pub audio_committed_sample : Option ℕ
  pub last_token_end_sample : Option ℕ
  pub buffered_ms : Option ℤ
  pub buffer_drained : Bool
  pub audio_caught_up : Bool
  pub token_quiescent : Bool
  pub token_quiescence_elapsed_ms : ℕ

abbrev is_drained : Option ℤ → Bool
is_drained buffered = is_some_and buffered (λ ms. le_pos ms close_buffer_drained_ms)

abbrev audio_committed : String → Local → Option ℕ
audio_committed id l = and_then l.progress (get_audio id)

abbrev buffered_or : String → Option ℤ → Local → Option ℤ
buffered_or id at_close l = or_else (and_then l.progress (get_buffered_ms id)) at_close

-- The model has flushed its tokens: a look at the progress is enough.
unfoldable pub finalized_phase : String → Option ℤ → Boundary → Local → ProgressPhase
finalized_phase id at_close b l = record {
  boundary = finalized_extension (token_end id l) b;
  audio_committed_sample = audio_committed id l;
  last_token_end_sample = token_end id l;
  buffered_ms = buffered_or id at_close l;
  buffer_drained = is_drained (buffered_or id at_close l);
  audio_caught_up = true;
  token_quiescent = true;
  token_quiescence_elapsed_ms = 0;
}

-- No `model_progress` handle: nothing is known and nothing is waited for.
abbrev blind_phase : Option ℤ → Boundary → ProgressPhase
blind_phase at_close b = record {
  boundary = b;
  audio_committed_sample = none;
  last_token_end_sample = none;
  buffered_ms = at_close;
  buffer_drained = true;
  audio_caught_up = true;
  token_quiescent = true;
  token_quiescence_elapsed_ms = 0;
}

unfoldable pub drained_well : DrainPhase → Bool
drained_well d = d.finalize_attempted && d.drain_succeeded && not d.finalize_timeout

module _ ⦃env : Env⦄ where
  -- No drain, or one that failed: wait for the audio, then for the tokens to come to rest.
  unfoldable pub waited_phase : String → Option ℤ → Boundary → ℕ → Local → ProgressPhase × Local
  waited_phase id at_close b deadline l =
      let (caught_up, l1) = wait_for_model_progress_until id b.decision_sample deadline l in
      let (rest, l2) =
        wait_for_token_quiescence_until id deadline (close_token_quiescence_ms * ns_per_ms) l1 in
      (
        record {
          boundary = apply_trailing_token_extension (token_end id l2) b.decision_sample b;
          audio_committed_sample = audio_committed id l1;
          last_token_end_sample = rest.last_token_end_sample;
          buffered_ms = buffered_or id at_close l1;
          buffer_drained = is_drained (buffered_or id at_close l1);
          audio_caught_up = caught_up;
          token_quiescent = rest.quiescent;
          token_quiescence_elapsed_ms = rest.elapsed_ms;
        },
        l2,
      )

  unfoldable pub phase_choice :
      Option ModelProgressMap → String → DrainPhase → Boundary → ℕ → Local → ProgressPhase × Local
  phase_choice none id d b deadline l = (blind_phase d.buffered_ms_at_close b, l)
  phase_choice (some _) id d b deadline l =
      if drained_well d
      then (finalized_phase id d.buffered_ms_at_close b l, l)
      else waited_phase id d.buffered_ms_at_close b deadline l

  unfoldable pub progress_phase : String → DrainPhase → Boundary → ℕ → Local → ProgressPhase × Local
  progress_phase id d b deadline l = phase_choice l.progress id d b deadline l

  unfoldable pub align_model_for_close :
      Option ModelDrainHandle → Ids → ℕ → ℕ → String → ℕ → Local → CloseModelAlignment × Local
  align_model_for_close drain ids end_sample decision_sample close_reason timeout_ms l =
      let budget = max timeout_ms close_finalize_timeout_ms in
      let deadline = l.now_ns + budget * ns_per_ms in
      let (d, l1) = run_drain drain ids decision_sample close_reason deadline l in
      let b : Boundary = record { end_sample = end_sample; decision_sample = decision_sample } in
      let (p, l2) = progress_phase ids.stream_session_id d b deadline l1 in
      (
        record {
          effective_end_sample = p.boundary.end_sample;
          effective_decision_sample = p.boundary.decision_sample;
          audio_target_sample = decision_sample;
          audio_committed_sample = p.audio_committed_sample;
          last_token_end_sample = p.last_token_end_sample;
          buffered_ms = p.buffered_ms;
          buffer_drained = p.buffer_drained;
          buffer_wait_elapsed_ms = 0;
          audio_caught_up = p.audio_caught_up;
          token_quiescent = p.token_quiescent;
          token_quiescence_elapsed_ms = p.token_quiescence_elapsed_ms;
          drain_attempted = d.drain_attempted;
          drain_succeeded = d.drain_succeeded;
          drain_session_found = d.drain_session_found;
          drain_chunk_processed = d.drain_chunk_processed;
          drain_until_sample = d.drain_until_sample;
          finalize_attempted = d.finalize_attempted;
          finalize_ok = d.finalize_ok;
          finalize_timeout = d.finalize_timeout;
          close_to_input_finished_ms = d.close_to_input_finished_ms;
          finalize_decode_ms = d.finalize_decode_ms;
          finalize_chunks = d.finalize_chunks;
          tokens_added_during_finalize = d.tokens_added_during_finalize;
          padding_ms = d.padding_ms;
          buffered_ms_at_close = d.buffered_ms_at_close;
          elapsed_ms = elapsed_ms l.now_ns l2.now_ns;
          budget_ms = budget;
        },
        l2,
      )

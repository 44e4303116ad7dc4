-- ===== src/Examples/Parts.antt =====
-- Runs of the alignment and the conversions (crates/speech-core-daemon/src/detectors/turn.rs), of
-- the progress (crates/speech-core-daemon/src/model.rs) and of the frame codec
-- (crates/speech-core-protocol/src/lib.rs).
use speech_core.Base.{List, ℕ, none, some, [], ◌∷◌, ◌≡◌, refl, arith}
use speech_core.Progress.Recording.{
  empty, started, token_snapshotted, turn_set, turn_dispatched, Everywhere, IsTallied,
  Recorded-IsTallied,
}
use speech_core.Progress.Ops.{
  start_session, set_current_turn_id, record_token_snapshot, record_dispatch,
}
use speech_core.Protocol.Types.{bytes_per_sample}
use speech_core.Protocol.Codec.{
  failed, payload_length_mismatch, fine, encode, decode, frame_bytes, expected_payload_len,
  checked_mul,
}
use speech_core.Protocol.RoundTrip.{
  OnFine, IsConsistent, decode-encode, decode-mismatch, decode-IsConsistent,
}
use speech_core.Turn.Align.{run_drain, align_model_for_close}
use speech_core.Turn.Align.Waits.{
  token_end, wait_for_model_progress_until, wait_for_token_quiescence_until,
}
use speech_core.Turn.Align.Loops.{
  WaitEnd, RestEnd, wait_for_model_progress_until-WaitEnd, wait_for_token_quiescence_until-RestEnd,
}
use speech_core.Turn.Align.Bounds.{
  IsLater, HasShortTail, boundary_of, align_model_for_close-IsLater,
  align_model_for_close-HasShortTail,
}
use speech_core.Examples.Data.{short_frame, env, ids, open_local, word, header_json, frame}

align_model_for_close-IsLater_example :
    IsLater
      (record { end_sample = 6000; decision_sample = 7000 })
      (boundary_of (align_model_for_close ⦃env = env⦄ none ids 6000 7000 "vad" 3000 open_local).0)
align_model_for_close-IsLater_example =
    align_model_for_close-IsLater ⦃env = env⦄ none ids 6000 7000 "vad" 3000 open_local (omega arith)

-- Without a drain handle nothing is flushed.
align_model_for_close-HasShortTail_example :
    HasShortTail
      (token_end "s" (align_model_for_close ⦃env = env⦄ none ids 6000 7000 "vad" 3000 open_local).1)
      (record { end_sample = 6000; decision_sample = 7000 })
      (boundary_of (align_model_for_close ⦃env = env⦄ none ids 6000 7000 "vad" 3000 open_local).0)
unfolding align_model_for_close run_drain
align_model_for_close-HasShortTail_example =
    align_model_for_close-HasShortTail ⦃env = env⦄ none ids 6000 7000 "vad" 3000 open_local refl

wait_for_model_progress_until-WaitEnd_example :
    WaitEnd "s" 8000 2000000 (wait_for_model_progress_until ⦃env = env⦄ "s" 8000 2000000 open_local)
wait_for_model_progress_until-WaitEnd_example =
    wait_for_model_progress_until-WaitEnd ⦃env = env⦄ "s" 8000 2000000 open_local

wait_for_token_quiescence_until-RestEnd_example :
    RestEnd ⦃env = env⦄ "s" 100000000 60000000 0
      (wait_for_token_quiescence_until ⦃env = env⦄ "s" 100000000 60000000 open_local)
wait_for_token_quiescence_until-RestEnd_example =
    wait_for_token_quiescence_until-RestEnd ⦃env = env⦄ "s" 100000000 60000000 open_local

Recorded-IsTallied_example : Everywhere IsTallied (
    record_dispatch "s" "s:turn:0" " hi" 100 6000 0 (
      record_token_snapshot ⦃u = env.unicode⦄ "s" word
        (set_current_turn_id "s" (some "s:turn:0") (start_session "s" 1 []))))
Recorded-IsTallied_example = Recorded-IsTallied ⦃u = env.unicode⦄ (
    turn_dispatched "s" "s:turn:0" " hi" 100 6000 0
      (token_snapshotted "s" word (turn_set "s" (some "s:turn:0") (started "s" 1 empty))))

decode-encode_example :
    (bytes : List ℕ) × (encode ⦃json = header_json⦄ frame ≡ fine bytes)
    × (decode ⦃json = header_json⦄ bytes ≡ fine frame)
unfolding expected_payload_len checked_mul bytes_per_sample
decode-encode_example =
    decode-encode ⦃json = header_json⦄ frame (123 ∷ 125 ∷ []) refl refl (omega arith) refl

decode-IsConsistent_example :
    OnFine IsConsistent
      (decode ⦃json = header_json⦄ (frame_bytes (123 ∷ 125 ∷ []) (1 ∷ 2 ∷ 3 ∷ 4 ∷ [])))
decode-IsConsistent_example =
    decode-IsConsistent ⦃json = header_json⦄ (frame_bytes (123 ∷ 125 ∷ []) (1 ∷ 2 ∷ 3 ∷ 4 ∷ []))

decode-mismatch_example :
    decode ⦃json = header_json⦄ (frame_bytes (123 ∷ 125 ∷ []) (1 ∷ 2 ∷ 3 ∷ []))
    ≡ failed (payload_length_mismatch 4 3)
unfolding expected_payload_len checked_mul bytes_per_sample
decode-mismatch_example =
    decode-mismatch ⦃json = header_json⦄ short_frame (123 ∷ 125 ∷ []) 4 refl (omega arith) refl
      (omega arith)

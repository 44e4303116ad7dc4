-- ===== src/Worker/Commands.antt =====
-- The commands of the detector worker (DetectorCommand, DetectorWorker::handle and what it calls of
-- crates/speech-core-daemon/src/detectors/mod.rs), and the samples of a frame.
use speech_core.Base.{
  ℕ, zero, suc, ◌+◌, ◌-◌, ◌*◌, Bool, true, false, not, String, Option, none, some, List, [], ◌∷◌,
  ltb, if◌then◌else◌, retain, length, map_some,
}
use speech_core.Base.Int.{ℤ, pos, negsuc}
use speech_core.Base.Words.{saturating_add}
use speech_core.Protocol.Types.{AudioFrame, pcm_f32le, pcm_s16le}
use speech_core.Turn.Config.{ms_to_samples}
use speech_core.Turn.Signals.{Ids, ModelDrainHandle, DetectorSignal, transcript_token_committed}
use speech_core.Turn.Local.{HelloState, Outcome, ok, err}
use speech_core.Turn.Manager.{TurnManager}
use speech_core.Turn.Manager.Sessions.{
  AudioGapReset, start_session, audio_gap_reset, end_session, finalize_all,
}
use speech_core.Vad.Config.{Float}
use speech_core.Worker.Interfaces.{AudioDetector, SmartTurn}
use speech_core.Worker.State.{
  detector_audio_gap_reset, DetectorWorker, WorkerEnv, W, ◌>>=◌, ◌>>◌, return, worker, set_rechecks,
  with_turns, with_smart_turn, with_detector, each_detector, log,
}
use speech_core.Worker.Events.{is_of}
use speech_core.Worker.Signals.{handle_signals, process_due_semantic_rechecks}

pub record TranscriptTokenSignal : Type 0 where
  pub ids : Ids
  pub token_index : ℕ  -- u32
  pub text : String
  pub start_sample : ℕ  -- u64
  pub end_sample : ℕ  -- u64
  pub decision_sample : ℕ  -- u64
  pub probability : Option ℕ  -- f32
  pub drain_handle : ModelDrainHandle

pub data DetectorCommand : Type 0 where
  start_detection : HelloState → DetectorCommand
  audio_frame : AudioFrame → ℕ → DetectorCommand
  token_committed : TranscriptTokenSignal → DetectorCommand
  end_detection : Ids → String → DetectorCommand
  gap_reset_command : AudioGapReset → DetectorCommand
  shutdown : DetectorCommand

unfoldable pub command_ids : DetectorCommand → Ids
command_ids (start_detection hello) = record {
  stream_id = hello.stream_id;
  stream_session_id = hello.stream_session_id;
  adapter_id = hello.adapter_id;
}
command_ids (audio_frame frame ingress) = record {
  stream_id = frame.header.stream_id;
  stream_session_id = frame.header.stream_session_id;
  adapter_id = frame.header.adapter_id;
}
command_ids (token_committed token) = token.ids
command_ids (end_detection ids reason) = ids
command_ids (gap_reset_command gap) = gap.ids
command_ids shutdown = record { stream_id = ""; stream_session_id = ""; adapter_id = "" }

-- `f32::from_le_bytes` keeps the bit pattern.
unfoldable pub words_f32 : List ℕ → Option (List ℕ)
words_f32 [] = some []
words_f32 (a ∷ b ∷ c ∷ d ∷ rest) =
    map_some (words_f32 rest) (λ xs. (a + b * 256 + c * 65536 + d * 16777216) ∷ xs)
words_f32 _ = none

abbrev pub signed_word : ℕ → ℤ
signed_word n = if ltb n 32768 then pos n else negsuc (65535 - n)

-- `f32::from(i16) / 32768.0`.
unfoldable pub words_s16 : Float → List ℕ → Option (List ℕ)
words_s16 float [] = some []
words_s16 float (a ∷ b ∷ rest) =
    map_some (words_s16 float rest)
      (λ xs. float.over (float.of_i16 (signed_word (a + b * 256))) (float.literal "32768.0") ∷ xs)
words_s16 float _ = none

-- `none` where the payload's length is not divisible by that of a sample.
unfoldable pub decode_frame_to_f32 : Float → AudioFrame → Option (List ℕ)
decode_frame_to_f32 float frame = elim frame.header.format as (λ _. Option (List ℕ)) [
  | pcm_f32le ↦ words_f32 frame.payload
  | pcm_s16le ↦ words_s16 float frame.payload
]

unfoldable pub signal_of_token : TranscriptTokenSignal → DetectorSignal
signal_of_token t = transcript_token_committed (record {
  detector = "nemotron_transcript";
  ids = t.ids;
  token_index = t.token_index;
  text = t.text;
  start_sample = t.start_sample;
  end_sample = t.end_sample;
  decision_sample = t.decision_sample;
  confidence = t.probability;
  drain_handle = t.drain_handle;
})

unfoldable pub new_worker : {D S : Type 0} → List D → Option S → TurnManager → DetectorWorker D S
new_worker detectors smart_turn turn_manager = record {
  detectors = detectors;
  smart_turn = smart_turn;
  turn_manager = turn_manager;
  semantic_rechecks = [];
  min_vad_speech_samples = ms_to_samples turn_manager.config.min_vad_speech_ms;
  sent = [];
}

module _ {D S : Type 0} ⦃detector : AudioDetector D⦄ ⦃smart : SmartTurn S⦄ ⦃env : WorkerEnv⦄ where
  unfoldable pub forget_rechecks : String → W D S (Unit {0})
  forget_rechecks id = do
    w ← worker
    set_rechecks (retain (λ r. not (is_of id r)) w.semantic_rechecks)

  -- One detector after the other, each one's signals before the next is called.
  unfoldable pub each_in_turn : (D → Outcome (List DetectorSignal) × D) → ℕ → ℕ → W D S (Unit {0})
  each_in_turn f index zero = return tt
  each_in_turn f index (suc count) = do
    signals ← with_detector index [] f
    handle_signals signals
    each_in_turn f (suc index) count

  unfoldable pub all_in_turn : (D → Outcome (List DetectorSignal) × D) → W D S (Unit {0})
  all_in_turn f w = each_in_turn f 0 (length w.detectors) w

  unfoldable pub end_session_inner : String → String → W D S (Unit {0})
  end_session_inner id reason = do
    forget_rechecks id
    w ← worker
    all_in_turn (detector.end id reason w.turn_manager.now_ns)
    with_smart_turn tt (smart.end id reason)
    with_turns (end_session ⦃env = env.turns⦄ id reason)

  unfoldable pub reset_for_gap : AudioGapReset → W D S (Unit {0})
  reset_for_gap gap = do
    forget_rechecks gap.ids.stream_session_id
    with_turns (audio_gap_reset ⦃env = env.turns⦄ gap)
    with_smart_turn tt (smart.skip gap)
    each_detector (detector.skip gap)
    log (
        detector_audio_gap_reset (record {
          ids = gap.ids;
          expected_sample_start = gap.expected_sample_start;
          observed_sample_start = gap.observed_sample_start;
          delta_samples = gap.delta_samples;
          reason = gap.reason;
        }))

  unfoldable pub start_parts : HelloState → W D S (Unit {0})
  start_parts hello = do
    forget_rechecks hello.stream_session_id
    with_turns (start_session ⦃env = env.turns⦄ hello)
    with_smart_turn tt (smart.start hello)
    each_detector (detector.start hello)

  -- A start that fails is undone, as far as that goes, and stays a failure.
  abbrev pub undone_if :
      String → Outcome (Unit {0}) × DetectorWorker D S → Outcome (Unit {0}) × DetectorWorker D S
  undone_if id (ok _, w) = (ok tt, w)
  undone_if id (err, w) = (err, (end_session_inner id "detector session start failed" w).1)

  unfoldable pub start_all : HelloState → W D S (Unit {0})
  start_all hello w = undone_if hello.stream_session_id (start_parts hello w)

  abbrev pub hear_samples : AudioFrame → ℕ → Option (List ℕ) → W D S (Unit {0})
  hear_samples frame ingress none w = (err, w)
  hear_samples frame ingress (some samples) w =
      (do
        with_smart_turn tt (smart.ingest frame samples ingress)
        all_in_turn (detector.ingest frame samples ingress)
        process_due_semantic_rechecks frame.header.stream_session_id
            (saturating_add frame.header.source_sample_start frame.header.sample_count))
        w

  unfoldable pub hear_frame : AudioFrame → ℕ → W D S (Unit {0})
  hear_frame frame ingress = hear_samples frame ingress (decode_frame_to_f32 env.float frame)

  -- The failure of the end of all sessions is not looked at.
  unfoldable pub finalize_worker : String → W D S (Unit {0})
  finalize_worker reason w =
      (ok tt, record w { turn_manager = (finalize_all ⦃env = env.turns⦄ reason w.turn_manager).1 })

  -- The outcome is the reply where the command has one, and is logged.
  unfoldable pub handle : DetectorCommand → W D S (Unit {0})
  handle (start_detection hello) = start_all hello
  handle (audio_frame frame ingress) = hear_frame frame ingress
  handle (token_committed token) = handle_signals (signal_of_token token ∷ [])
  handle (end_detection ids reason) = end_session_inner ids.stream_session_id reason
  handle (gap_reset_command gap) = reset_for_gap gap
  handle shutdown = finalize_worker "detector worker shutdown"

-- Whether the worker's thread ends.
unfoldable pub should_stop : DetectorCommand → Bool
should_stop shutdown = true
should_stop _ = false

-- ===== src/Vad/Local.antt =====
-- One session of the voice activity detector (VadSession of
-- crates/speech-core-daemon/src/detectors/vad.rs) and what its functions work on: the session and
-- the events sent. A function that fails keeps what it has changed, as `?` on a `&mut` borrow does.
use speech_core.Base.{
  ℕ, Bool, true, false, ◌&&◌, not, String, Option, none, List, [], ◌∷◌, if◌then◌else◌,
}
use speech_core.Turn.Local.{HelloState}
use speech_core.Vad.Config.{Float, SileroVadConfig}
use speech_core.Vad.Events.{VadEvent, is_logged}

-- What the detector uses: the operations on f32; the neural network, which opens from a path and
-- is known by what it answers to a window after those that it has had (the newest first), `none`
-- for an error; whether the log's worker has stopped when the newest of the events comes.
pub record VadEnv : Type 0 where
  pub float : Float
  pub opens : String → Bool
  pub compute : List (List ℕ) → List ℕ → Option ℕ
  pub logger_stopped : List VadEvent → Bool

pub record VadSession : Type 0 where
  pub hello : HelloState
  pub engine : List (List ℕ)
  pub config : SileroVadConfig
  pub buffer : List ℕ  -- f32
  pub next_vad_frame_sample_start : ℕ  -- u64
  pub in_speech : Bool
  pub onset_counter : ℕ  -- usize
  pub candidate_start_sample : Option ℕ
  pub silence_start_sample : Option ℕ
  pub silence_counter : ℕ  -- usize
  pub current_segment_start_sample : Option ℕ
  pub last_voice_sample_end : Option ℕ
  pub last_probability : Option ℕ  -- f32
  pub smoothed_probability : Option ℕ  -- f32
  pub last_raw_is_speech : Option Bool
  pub last_smoothed_in_speech : Option Bool
  pub last_segment_start_sample : Option ℕ
  pub last_segment_end_sample : Option ℕ
  pub last_segment_end_confidence : Option ℕ  -- f32
  pub acoustic_fallback_emitted : Bool
  pub low_silence_start_sample : Option ℕ
  pub forced_close_rearm_required : Bool
  pub frames_processed : ℕ  -- u64
  pub segment_index : ℕ  -- u32

unfoldable pub new_vad_session : HelloState → SileroVadConfig → VadSession
new_vad_session hello config = record {
  hello = hello;
  engine = [];
  config = config;
  buffer = [];
  next_vad_frame_sample_start = 0;
  in_speech = false;
  onset_counter = 0;
  candidate_start_sample = none;
  silence_start_sample = none;
  silence_counter = 0;
  current_segment_start_sample = none;
  last_voice_sample_end = none;
  last_probability = none;
  smoothed_probability = none;
  last_raw_is_speech = none;
  last_smoothed_in_speech = none;
  last_segment_start_sample = none;
  last_segment_end_sample = none;
  last_segment_end_confidence = none;
  acoustic_fallback_emitted = true;
  low_silence_start_sample = none;
  forced_close_rearm_required = false;
  frames_processed = 0;
  segment_index = 0;
}

unfoldable pub reset_after_forced_close : VadSession → VadSession
reset_after_forced_close s = record s {
  in_speech = false;
  onset_counter = 0;
  silence_counter = 0;
  silence_start_sample = none;
  candidate_start_sample = none;
  current_segment_start_sample = none;
  last_voice_sample_end = none;
  low_silence_start_sample = none;
  forced_close_rearm_required = true;
}

unfoldable pub release_forced_close_rearm : VadSession → VadSession
release_forced_close_rearm s = record s {
  forced_close_rearm_required = false;
  onset_counter = 0;
  candidate_start_sample = none;
}

unfoldable pub onset_can_arm : VadSession → Bool
onset_can_arm s = not s.forced_close_rearm_required

pub data VadError : Type 0 where
  requires_16k_mono unsupported_format engine_failed inference_failed log_stopped : VadError

pub data VadResult (A : Type 0) : Type 0 where
  done : A → VadResult A
  failed : VadError → VadResult A

-- `sent` has the newest event first.
pub record VadLocal : Type 0 where
  pub session : VadSession
  pub sent : List VadEvent

abbrev pub V : Type 0 → Type 0
V A = VadLocal → VadResult A × VadLocal

abbrev pub proceed : {A B : Type 0} → (A → V B) → VadResult A × VadLocal → VadResult B × VadLocal
proceed f (done a, l) = f a l
proceed f (failed e, l) = (failed e, l)

infixl 5 ◌>>=◌ ◌>>◌
abbrev pub ◌>>=◌ : {A B : Type 0} → V A → (A → V B) → V B
◌>>=◌ m f l = proceed f (m l)

abbrev pub ◌>>◌ : {A B : Type 0} → V A → V B → V B
m >> k = m >>= λ _. k

abbrev pub return : {A : Type 0} → A → V A
return a l = (done a, l)

abbrev pub session : V VadSession
session l = (done l.session, l)

abbrev pub modify : (VadSession → VadSession) → V (Unit {0})
modify f l = (done tt, record l { session = f l.session })

module _ ⦃env : VadEnv⦄ where
  unfoldable pub vad_written : VadEvent → List VadEvent → VadResult (Unit {0})
  vad_written e sent =
      if is_logged e && env.logger_stopped (e ∷ sent) then failed log_stopped else done tt

  unfoldable pub vad_write : VadEvent → V (Unit {0})
  vad_write e l = (vad_written e l.sent, record l { sent = e ∷ l.sent })

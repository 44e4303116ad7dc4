-- ===== src/Vad/Config.antt =====
-- The configuration of the voice activity detector
-- (crates/speech-core-daemon/src/detectors/vad.rs) and the operations on f32 that it uses. An f32
-- is its bit pattern, and the operations are a parameter.
use speech_core.Base.{ℕ, ◌*◌, max, Bool, false, not, ◌||◌, ◌&&◌, String, str_eq, if◌then◌else◌}
use speech_core.Base.Int.{ℤ}
use speech_core.Base.Words.{as_u32, u32_max}

pub record Float : Type 0 where
  pub literal : String → ℕ  -- a constant of the source
  pub of_usize : ℕ → ℕ
  pub of_i16 : ℤ → ℕ
  pub lt : ℕ → ℕ → Bool
  pub le : ℕ → ℕ → Bool
  pub minimum : ℕ → ℕ → ℕ
  pub maximum : ℕ → ℕ → ℕ
  pub clamp : ℕ → ℕ → ℕ → ℕ
  pub add : ℕ → ℕ → ℕ
  pub minus : ℕ → ℕ → ℕ
  pub times : ℕ → ℕ → ℕ
  pub over : ℕ → ℕ → ℕ
  pub sqrt : ℕ → ℕ
  pub mul_add : ℕ → ℕ → ℕ → ℕ

abbrev pub sample_rate : ℕ
sample_rate = 16000

abbrev pub frame_samples : ℕ
frame_samples = 512

abbrev pub frame_ms : ℕ
frame_ms = 32

pub record SileroVadConfig : Type 0 where
  pub model_path : String
  pub threshold : ℕ  -- f32
  pub onset_frames : ℕ  -- usize
  pub hangover_frames : ℕ  -- usize
  pub pre_speech_frames : ℕ  -- usize
  pub emit_frames : Bool
  pub smoothing_alpha : ℕ  -- f32
  pub stop_threshold : ℕ  -- f32
  pub fallback_threshold : ℕ  -- f32
  pub acoustic_fallback_silence_ms : ℕ  -- u32
  pub energy_enabled : Bool
  pub energy_threshold : ℕ  -- f32

unfoldable pub default_vad_config : Float → SileroVadConfig
default_vad_config float = record {
  model_path = "";
  threshold = float.literal "0.5";
  onset_frames = 2;
  hangover_frames = 3;
  pre_speech_frames = 5;
  emit_frames = false;
  smoothing_alpha = float.literal "0.1";
  stop_threshold = float.literal "0.2";
  fallback_threshold = float.literal "0.1";
  acoustic_fallback_silence_ms = u32_max;
  energy_enabled = false;
  energy_threshold = float.literal "0.01";
}

-- The product is one of u32 values, and wraps around.
unfoldable pub speech_end_silence_ms : SileroVadConfig → ℕ
speech_end_silence_ms config = as_u32 (as_u32 (max config.hangover_frames 1) * frame_ms)

-- `(0.0..=1.0).contains`.
abbrev pub is_unit : Float → ℕ → Bool
is_unit float x = float.le (float.literal "0.0") x && float.le x (float.literal "1.0")

pub data ConfigError : Type 0 where
  empty_path model_not_found bad_threshold bad_alpha bad_stop bad_fallback accepted : ConfigError

-- What SileroVadDetector::new answers for a configuration, with the path's existence given.
unfoldable pub check_config : Float → Bool → SileroVadConfig → ConfigError
check_config float exists config =
    if str_eq config.model_path ""
    then empty_path
    else if not exists
    then model_not_found
    else if not (is_unit float config.threshold)
    then bad_threshold
    else if not (is_unit float config.smoothing_alpha)
        || (float.le config.smoothing_alpha (float.literal "0.0")
            && float.le (float.literal "0.0") config.smoothing_alpha)
    then bad_alpha
    else if not (is_unit float config.stop_threshold)
    then bad_stop
    else if not (is_unit float config.fallback_threshold)
    then bad_fallback
    else accepted

-- ===== src/Smart/Session.antt =====
-- SmartTurnConfig and SmartTurnSession of
-- crates/speech-core-daemon/src/detectors/smart_turn.rs. An f32 is its bit pattern.
use speech_core.Base.{
  ℕ, zero, suc, ◌+◌, ◌-◌, ◌*◌, ◌/◌, min, max, ◌&&◌, String, List, [], ◌∷◌, ◌++◌, map, ltb, leb,
  ◌==◌, if◌then◌else◌, length, take, drop, replicate, retain,
}
use speech_core.Base.Words.{saturating_add, saturating_mul, u32_max}
use speech_core.Protocol.Types.{AudioFrame}
use speech_core.Turn.Local.{HelloState}
use speech_core.Vad.Config.{Float}

abbrev pub smart_sample_rate : ℕ
smart_sample_rate = 16000

abbrev pub window_samples : ℕ
window_samples = 128000

pub record SmartTurnConfig : Type 0 where
  pub model_path : String
  pub threshold : ℕ  -- f32
  pub timeout_ms : ℕ  -- u32
  pub cpu_count : ℕ  -- usize
  pub max_audio_secs : ℕ  -- u32
  pub pre_speech_ms : ℕ  -- u32
  pub recheck_interval_ms : ℕ  -- u32
  pub recheck_max_attempts : ℕ  -- u32
  pub recheck_offsets_ms : List ℕ

unfoldable pub default_smart_config : Float → SmartTurnConfig
default_smart_config float = record {
  model_path = "";
  threshold = float.literal "0.5";
  timeout_ms = 250;
  cpu_count = 1;
  max_audio_secs = 8;
  pre_speech_ms = 500;
  recheck_interval_ms = 0;
  recheck_max_attempts = 0;
  recheck_offsets_ms = 96 ∷ 192 ∷ 384 ∷ 768 ∷ 1536 ∷ [];
}

-- `slice::sort_unstable`, by insertion.
abbrev pub insert_sorted : ℕ → List ℕ → List ℕ
insert_sorted n [] = n ∷ []
insert_sorted n (m ∷ rest) =
    let later = insert_sorted n rest in if leb n m then n ∷ m ∷ rest else m ∷ later

abbrev pub sorted : List ℕ → List ℕ
sorted [] = []
sorted (n ∷ rest) = insert_sorted n (sorted rest)

-- `Vec::dedup`: of equal neighbours the first stays.
abbrev pub dedup_after : ℕ → List ℕ → List ℕ
dedup_after n [] = []
dedup_after n (m ∷ rest) =
    let skipped = dedup_after n rest in
    let kept = dedup_after m rest in if n == m then skipped else m ∷ kept

abbrev pub dedup : List ℕ → List ℕ
dedup [] = []
dedup (n ∷ rest) = n ∷ dedup_after n rest

-- The multiples of an interval, from the given attempt on.
abbrev pub attempts : ℕ → ℕ → ℕ → List ℕ
attempts zero attempt interval = []
attempts (suc left) attempt interval =
    min (interval * attempt) u32_max ∷ attempts left (attempt + 1) interval

unfoldable pub configured_offsets : SmartTurnConfig → List ℕ
configured_offsets c =
    if ltb 0 (length c.recheck_offsets_ms)
    then c.recheck_offsets_ms
    else if ltb 0 c.recheck_interval_ms && ltb 0 c.recheck_max_attempts
    then attempts c.recheck_max_attempts 1 c.recheck_interval_ms
    else []

unfoldable pub effective_recheck_offsets_ms : SmartTurnConfig → List ℕ
effective_recheck_offsets_ms c =
    retain (λ offset. ltb 0 offset) (dedup (sorted (configured_offsets c)))

unfoldable pub recheck_offsets_samples : SmartTurnConfig → List ℕ
recheck_offsets_samples c =
    map (λ offset_ms. saturating_mul offset_ms smart_sample_rate / 1000)
      (effective_recheck_offsets_ms c)

pub record SmartTurnSession : Type 0 where
  pub hello : HelloState
  pub audio : List ℕ  -- f32
  pub first_sample : ℕ  -- u64
  pub max_audio_samples : ℕ  -- usize
  pub pre_speech_samples : ℕ  -- usize
  pub predictions : ℕ  -- u64
  pub timeouts : ℕ  -- u64
  pub errors : ℕ  -- u64

unfoldable pub new_smart_session : HelloState → ℕ → ℕ → SmartTurnSession
new_smart_session hello max_audio_secs pre_speech_ms = record {
  hello = hello;
  audio = [];
  first_sample = 0;
  max_audio_samples = saturating_mul max_audio_secs smart_sample_rate;
  pre_speech_samples = saturating_mul pre_speech_ms smart_sample_rate / 1000;
  predictions = 0;
  timeouts = 0;
  errors = 0;
}

abbrev pub limit : SmartTurnSession → ℕ
limit s = min s.max_audio_samples window_samples

unfoldable pub audio_end : SmartTurnSession → ℕ
audio_end s = saturating_add s.first_sample (length s.audio)

unfoldable pub trim_to_limit : SmartTurnSession → SmartTurnSession
trim_to_limit s =
    if ltb (limit s) (length s.audio)
    then record s {
      audio = drop (length s.audio - limit s) s.audio;
      first_sample = saturating_add s.first_sample (length s.audio - limit s);
    }
    else s

-- The audio with the samples that start at `start`, where `zero_sample` fills a gap.
unfoldable pub joined_audio : ℕ → ℕ → List ℕ → SmartTurnSession → List ℕ
joined_audio zero_sample start samples s =
    let current_end = audio_end s in
    let expected_end = saturating_add start (length samples) in
    let overlap = current_end - start in
    let extended =
      (if ltb current_end start
        then s.audio ++ replicate (start - current_end) zero_sample
        else s.audio)
      ++ samples in
    let new_end = saturating_add s.first_sample (length extended) in
    if ltb start current_end
    then (if leb (length samples) overlap then s.audio else s.audio ++ drop overlap samples)
    else if ltb new_end expected_end
    then extended ++ replicate (expected_end - new_end) zero_sample
    else extended

-- The first samples of an empty buffer set its place.
unfoldable pub placed : ℕ → SmartTurnSession → SmartTurnSession
placed start s = record s { first_sample = if length s.audio == 0 then start else s.first_sample }

unfoldable pub push_smart_samples : ℕ → AudioFrame → List ℕ → SmartTurnSession → SmartTurnSession
push_smart_samples zero_sample frame samples s =
    let start = frame.header.source_sample_start in
    let here = placed start s in
    trim_to_limit (record here { audio = joined_audio zero_sample start samples here })

unfoldable pub segment_for_prediction : ℕ → SmartTurnSession → List ℕ
segment_for_prediction end_sample s =
    let clamped_end = max (min end_sample (audio_end s)) s.first_sample in
    let end_index = clamped_end - s.first_sample in
    let wanted_start = end_index - limit s in
    let start_index = wanted_start - min s.pre_speech_samples wanted_start in
    drop start_index (take end_index s.audio)

unfoldable pub clear_through : ℕ → SmartTurnSession → SmartTurnSession
clear_through end_sample s =
    let drained = min (end_sample - s.first_sample) (length s.audio) in
    if leb end_sample s.first_sample then s else record s {
      audio = drop drained s.audio;
      first_sample = saturating_add s.first_sample drained;
    }

-- What a gap does to its session.
unfoldable pub smart_gap_taken : ℕ → SmartTurnSession → SmartTurnSession
smart_gap_taken observed_sample_start s = record s {
  audio = [];
  first_sample = observed_sample_start;
}

-- ===== src/Turn/Times.antt =====
-- Proofs on the conversions between milliseconds and samples, and on the end of the turn of a
-- session that ends (crates/speech-core-daemon/src/detectors/turn.rs).
use speech_core.Base.{ℕ, ◌≤◌, Option, none, some, ◌≡◌, ◌⊎◌, arith}
use speech_core.Base.Words.{u32_max}
use speech_core.Turn.Config.{samples_to_ms, ms_to_samples}
use speech_core.Turn.Manager.Sessions.{session_end_sample}

-- Every duration of the configuration, which is a u32, survives the way to samples and back.
samples_to_ms-ms_to_samples : (ms : ℕ) → ms ≤ u32_max → samples_to_ms (ms_to_samples ms) ≡ ms
unfolding samples_to_ms ms_to_samples
samples_to_ms-ms_to_samples ms h = ground arith

-- An optional sample is not after the other.
abbrev UpTo : ℕ → Option ℕ → Type 0
UpTo n none = Unit
UpTo n (some sample) = sample ≤ n

-- The turn of a session that ends ends at the latest of its start, its last token and its last VAD
-- end: none of the three is later, and it is one of them.
session_end_sample-latest :
    (start : ℕ) (token vad : Option ℕ)
    → let e = session_end_sample start token vad in
      (start ≤ e) × UpTo e token × UpTo e vad × ((e ≡ start) ⊎ ((some e ≡ token) ⊎ (some e ≡ vad)))
unfolding session_end_sample
session_end_sample-latest start none none = ground arith
session_end_sample-latest start (some t) none = ground arith
session_end_sample-latest start none (some v) = ground arith
session_end_sample-latest start (some t) (some v) = ground arith

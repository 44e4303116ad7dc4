-- ===== src/Smart/Timeline.antt =====
-- Proofs on the samples that a session of the semantic turn detector holds
-- (SmartTurnSession::push_samples of crates/speech-core-daemon/src/detectors/smart_turn.rs).
use speech_core.Base.{
  ℕ, ◌+◌, ◌-◌, ◌≤◌, max, none, List, [], ◌∷◌, ltb, ◌==◌, ◌≡◌, refl, ◌∙◌, ap, if◌then◌else◌,
  if_cases, length, length-drop, arith,
}
use speech_core.Protocol.Types.{AudioFrame}
use speech_core.Smart.Session.{
  SmartTurnSession, limit, trim_to_limit, joined_audio, placed, push_smart_samples,
}
use speech_core.Smart.Samples.{nth, nth-drop, sample_at, heard}
use speech_core.Smart.Joined.{joined_audio-nth, joined_audio-end}

-- The end of what a session holds, where that is short of the largest u64.
abbrev pub end_of : SmartTurnSession → ℕ
end_of s = s.first_sample + length s.audio

trim_to_limit-sample_at :
    (n : ℕ) (s : SmartTurnSession)
    → end_of s ≤ 18446744073709551615
    → (trim_to_limit s).first_sample ≤ n
    → sample_at n (trim_to_limit s) ≡ sample_at n s
unfolding trim_to_limit
trim_to_limit-sample_at n s fits =
    if_cases (λ t. t.first_sample ≤ n → sample_at n t ≡ sample_at n s)
      (ltb (limit s) (length s.audio))
      (λ long from. ground (arith, nth-drop dropped s.audio (n - (s.first_sample + dropped))))
      λ short from. refl
  where
    dropped : ℕ
    dropped = length s.audio - limit s

trim_to_limit-first_sample :
    (s : SmartTurnSession)
    → end_of s ≤ 18446744073709551615
    → s.first_sample ≤ (trim_to_limit s).first_sample
unfolding trim_to_limit
trim_to_limit-first_sample s fits =
    if_cases (λ (t : SmartTurnSession). s.first_sample ≤ t.first_sample)
      (ltb (limit s) (length s.audio)) (λ long. omega arith) λ short. omega arith

joined_audio-sample_at :
    (z start : ℕ) (samples : List ℕ) (s : SmartTurnSession) (n : ℕ)
    → end_of s ≤ 18446744073709551615
    → start + length samples ≤ 18446744073709551615
    → s.first_sample ≤ n
    → sample_at n (record s { audio = joined_audio z start samples s })
      ≡ heard z start samples (end_of s) n (sample_at n s)
joined_audio-sample_at z start samples s n held fits from =
    ground (arith, joined_audio-nth z start samples s (n - s.first_sample) held fits)

-- The oldest samples go, so that the limit is kept.
trim_to_limit-IsTrimmed :
    (s : SmartTurnSession)
    → end_of s ≤ 18446744073709551615
    → (end_of (trim_to_limit s) ≡ end_of s) × (length (trim_to_limit s).audio ≤ limit s)
unfolding trim_to_limit
trim_to_limit-IsTrimmed s fits =
    if_cases (λ t. (end_of t ≡ end_of s) × (length t.audio ≤ limit s))
      (ltb (limit s) (length s.audio))
      (λ long. (
        omega (arith, length-drop (length s.audio - limit s) s.audio),
        omega (arith, length-drop (length s.audio - limit s) s.audio),
      ))
      λ short. (refl, ground arith)

-- Nothing is known of the samples of an empty buffer, wherever it stands.
placed-sample_at :
    (start n : ℕ) (s : SmartTurnSession) → sample_at n (placed start s) ≡ sample_at n s
unfolding placed
placed-sample_at start n s = go s.audio
  where
    go :
        (audio : List ℕ)
        → (if ltb n (if length audio == 0 then start else s.first_sample)
            then none
            else nth audio (n - (if length audio == 0 then start else s.first_sample)))
          ≡ (if ltb n s.first_sample then none else nth audio (n - s.first_sample))
    go [] = ground arith
    go (x ∷ xs) = ground arith

-- Once a session has taken a frame's samples, it ends at the later of its end and theirs, and holds
-- no more than its limit. Of each sample from its new first one on it holds what it had; past its
-- old end, silence up to the frame's first sample and then the frame's samples.
pub push_smart_samples-sample_at :
    (zero_sample : ℕ) (frame : AudioFrame) (samples : List ℕ) (s : SmartTurnSession) (n : ℕ)
    → end_of (placed frame.header.source_sample_start s) ≤ 18446744073709551615
    → frame.header.source_sample_start + length samples ≤ 18446744073709551615
    → (push_smart_samples zero_sample frame samples s).first_sample ≤ n
    → (end_of (push_smart_samples zero_sample frame samples s)
        ≡ max
            (end_of (placed frame.header.source_sample_start s))
            (frame.header.source_sample_start + length samples))
      × (length (push_smart_samples zero_sample frame samples s).audio ≤ limit s)
      × (sample_at n (push_smart_samples zero_sample frame samples s)
          ≡ heard zero_sample frame.header.source_sample_start samples
              (end_of (placed frame.header.source_sample_start s))
              n
              (sample_at n s))
unfolding push_smart_samples placed
push_smart_samples-sample_at z frame samples s n held fits from = (
  trimmed.0 ∙ joined_audio-end z start samples here held fits,
  trimmed.1,
  trim_to_limit-sample_at n whole whole_fits from
      ∙ (joined_audio-sample_at z start samples here n held fits here_from
          ∙ ap (heard z start samples (end_of here) n) (placed-sample_at start n s)),
)
  where
    start : ℕ
    start = frame.header.source_sample_start

    here : SmartTurnSession
    here = placed start s

    whole : SmartTurnSession
    whole = record here { audio = joined_audio z start samples here }

    whole_fits : end_of whole ≤ 18446744073709551615
    whole_fits = omega (arith, joined_audio-end z start samples here held fits)

    trimmed :
        (end_of (trim_to_limit whole) ≡ end_of whole)
        × (length (trim_to_limit whole).audio ≤ limit s)
    trimmed = trim_to_limit-IsTrimmed whole whole_fits

    here_from : here.first_sample ≤ n
    here_from = omega (arith, trim_to_limit-first_sample whole whole_fits, from)

-- ===== src/Smart/Segment.antt =====
-- Proofs on the audio that the semantic turn detector hands to its model
-- (SmartTurnSession::segment_for_prediction of
-- crates/speech-core-daemon/src/detectors/smart_turn.rs).
use speech_core.Base.{
  ℕ, zero, suc, ◌+◌, ◌-◌, ◌≤◌, min, max, List, [], ◌∷◌, ◌≡◌, refl, sym, ◌∙◌, ap, subst, length,
  take, drop, ltb, if_cases, arith,
}
use speech_core.Base.Words.{saturating_add}
use speech_core.Protocol.Types.{AudioFrame}
use speech_core.Smart.Session.{
  SmartTurnSession, limit, audio_end, joined_audio, trim_to_limit, placed, push_smart_samples,
  segment_for_prediction,
}
use speech_core.Smart.Samples.{heard, sample_at}
use speech_core.Smart.Timeline.{end_of, push_smart_samples-sample_at}

take_equal : (xs : List ℕ) (m n : ℕ) → m ≡ n → take m xs ≡ take n xs
take_equal xs m n e = ap (λ k. take k xs) e

take-min : (n : ℕ) (xs : List ℕ) → take (min n (length xs)) xs ≡ take n xs
take-min zero xs = take_equal xs (min 0 (length xs)) 0 (omega arith)
take-min (suc n) [] = take_equal [] (min (suc n) 0) 0 (omega arith)
take-min (suc n) (x ∷ xs) =
    take_equal (x ∷ xs) (min (suc n) (suc (length xs))) (suc (min n (length xs))) (omega arith)
    ∙ ap (λ t. x ∷ t) (take-min n xs)

-- With no more than the limit there is nothing to cut off at the start.
segment_for_prediction-take :
    (end_sample : ℕ) (s : SmartTurnSession)
    → end_of s ≤ 18446744073709551615
    → length s.audio ≤ limit s
    → segment_for_prediction end_sample s ≡ take (end_sample - s.first_sample) s.audio
unfolding segment_for_prediction audio_end
segment_for_prediction-take end_sample s fits bounded =
    ap (λ start. drop start (take end_index s.audio)) start_zero
    ∙ take_equal s.audio end_index (min (end_sample - s.first_sample) (length s.audio))
        (omega arith)
    ∙ take-min (end_sample - s.first_sample) s.audio
  where
    end_index : ℕ
    end_index =
        max (min end_sample (saturating_add s.first_sample (length s.audio))) s.first_sample
        - s.first_sample

    start_zero : (end_index - limit s) - min s.pre_speech_samples (end_index - limit s) ≡ 0
    start_zero = omega arith

push-limit :
    (z : ℕ) (frame : AudioFrame) (samples : List ℕ) (s : SmartTurnSession)
    → limit (push_smart_samples z frame samples s) ≡ limit s
unfolding push_smart_samples trim_to_limit placed
push-limit z frame samples s =
    if_cases (λ (t : SmartTurnSession). limit t ≡ limit s)
      (ltb (limit s) (
        length (
          joined_audio z frame.header.source_sample_start samples
            (placed frame.header.source_sample_start s))))
      (λ long. refl) λ short. refl

-- After a frame, the segment for a decision is all of the audio held before the decision's sample:
-- neither the length of a window nor the time before speech (`pre_speech_samples`) cuts anything
-- off or adds anything.
pub segment_for_prediction-push_smart_samples :
    (zero_sample : ℕ) (frame : AudioFrame) (samples : List ℕ) (s : SmartTurnSession) (decision : ℕ)
    → end_of (placed frame.header.source_sample_start s) ≤ 18446744073709551615
    → frame.header.source_sample_start + length samples ≤ 18446744073709551615
    → segment_for_prediction decision (push_smart_samples zero_sample frame samples s)
      ≡ take
          (decision - (push_smart_samples zero_sample frame samples s).first_sample)
          (push_smart_samples zero_sample frame samples s).audio
segment_for_prediction-push_smart_samples z frame samples s decision held fits =
    segment_for_prediction-take decision pushed (omega (arith, known.0))
      (subst (λ m. length pushed.audio ≤ m) (sym (push-limit z frame samples s)) known.1)
  where
    pushed : SmartTurnSession
    pushed = push_smart_samples z frame samples s

    known :
        (end_of pushed
          ≡ max
              (end_of (placed frame.header.source_sample_start s))
              (frame.header.source_sample_start + length samples))
        × (length pushed.audio ≤ limit s)
        × (sample_at pushed.first_sample pushed
            ≡ heard z frame.header.source_sample_start samples
                (end_of (placed frame.header.source_sample_start s))
                pushed.first_sample
                (sample_at pushed.first_sample s))
    known =
        push_smart_samples-sample_at z frame samples s pushed.first_sample held fits (omega arith)

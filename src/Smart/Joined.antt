-- ===== src/Smart/Joined.antt =====
-- Proofs on the audio that a session of the semantic turn detector makes of the samples of a frame
-- (SmartTurnSession::push_samples of crates/speech-core-daemon/src/detectors/smart_turn.rs).
use speech_core.Base.{
  ℕ, ◌+◌, ◌-◌, ◌<◌, ◌≤◌, max, false, List, ◌++◌, ltb, leb, ◌≡◌, sym, subst, if◌then◌else◌, if_cases,
  length, length-append, length-drop, drop, replicate, arith,
}
use speech_core.Base.Words.{saturating_add}
use speech_core.Smart.Session.{SmartTurnSession, audio_end, joined_audio}
use speech_core.Smart.Samples.{
  nth, nth-append, nth-drop, nth-replicate, nth_beyond, length-replicate, heard,
}

-- What follows the audio of a session from its end `e` on.
abbrev extended : ℕ → ℕ → List ℕ → List ℕ → ℕ → List ℕ
extended z start samples audio e =
    (if ltb e start then audio ++ replicate (start - e) z else audio) ++ samples

-- The audio that a session has after its end `e` is known.
abbrev joined_at : ℕ → ℕ → List ℕ → SmartTurnSession → ℕ → List ℕ
joined_at z start samples s e =
    let longer = extended z start samples s.audio e in
    if ltb start e
    then (if leb (length samples) (e - start) then s.audio else s.audio ++ drop (e - start) samples)
    else if ltb (saturating_add s.first_sample (length longer))
        (saturating_add start (length samples))
    then longer
      ++ replicate
          (saturating_add start (length samples) - saturating_add s.first_sample (length longer)) z
    else longer

-- Silence fills a gap up to the frame's start, so that no samples are wanting at its end.
not_short :
    (z start first : ℕ) (samples audio : List ℕ)
    → first + length audio ≤ start
    → start + length samples ≤ 18446744073709551615
    → ltb
        (saturating_add first (length (extended z start samples audio (first + length audio))))
        (saturating_add start (length samples))
      ≡ false
not_short z start first samples audio h fits =
    if_cases
      (λ xs.
        ltb (saturating_add first (length (xs ++ samples))) (saturating_add start (length samples))
        ≡ false)
      (ltb (first + length audio) start)
      (λ gap. ground (
        arith,
        length-append (audio ++ replicate (start - (first + length audio)) z) samples,
        length-append audio (replicate (start - (first + length audio)) z),
        length-replicate (start - (first + length audio)) z,
      ))
      λ next. ground (arith, length-append audio samples)

-- The samples begin before the end of the audio and end within it, or reach past it; or they
-- begin at its end or later.
joined_audio-cases :
    (P : List ℕ → Type 0) (z start : ℕ) (samples : List ℕ) (s : SmartTurnSession)
    → s.first_sample + length s.audio ≤ 18446744073709551615
    → start + length samples ≤ 18446744073709551615
    → (start < s.first_sample + length s.audio
        → length samples ≤ s.first_sample + length s.audio - start
        → P s.audio)
    → (start < s.first_sample + length s.audio
        → s.first_sample + length s.audio - start < length samples
        → P (s.audio ++ drop (s.first_sample + length s.audio - start) samples))
    → (s.first_sample + length s.audio ≤ start
        → P (extended z start samples s.audio (s.first_sample + length s.audio)))
    → P (joined_audio z start samples s)
unfolding joined_audio audio_end
joined_audio-cases P z start samples s held fits within past next =
    subst (λ e. P (joined_at z start samples s e)) (ground arith)
      (if_cases P (ltb start e)
        (λ before.
          if_cases P (leb (length samples) (e - start)) (λ c. within (ground arith) (ground arith))
            λ c. past (ground arith) (ground arith))
        λ after.
          subst
            (λ short. P (
              if short
              then longer
                ++ replicate
                    (saturating_add start (length samples)
                      - saturating_add s.first_sample (length longer))
                    z
              else longer))
            (sym (not_short z start s.first_sample samples s.audio (ground arith) fits))
            (next (ground arith)))
  where
    e : ℕ
    e = s.first_sample + length s.audio

    longer : List ℕ
    longer = extended z start samples s.audio e

pub joined_audio-nth :
    (z start : ℕ) (samples : List ℕ) (s : SmartTurnSession) (k : ℕ)
    → s.first_sample + length s.audio ≤ 18446744073709551615
    → start + length samples ≤ 18446744073709551615
    → nth (joined_audio z start samples s) k
      ≡ heard z start samples (s.first_sample + length s.audio) (s.first_sample + k) (nth s.audio k)
joined_audio-nth z start samples s k held fits =
    joined_audio-cases
      (λ xs. nth xs k ≡ heard z start samples e (s.first_sample + k) (nth s.audio k)) z start
      samples s held fits
      (λ before covered.
        ground (arith, nth_beyond s.audio k, nth_beyond samples (s.first_sample + k - start)))
      (λ before longer. ground (
        arith,
        nth-append s.audio (drop (e - start) samples) k,
        nth-drop (e - start) samples (k - length s.audio),
      ))
      λ h.
        if_cases
          (λ xs.
            nth (xs ++ samples) k ≡ heard z start samples e (s.first_sample + k) (nth s.audio k))
          (ltb e start)
          (λ gap. ground (
            arith,
            nth-append (s.audio ++ replicate (start - e) z) samples k,
            nth-append s.audio (replicate (start - e) z) k,
            nth-replicate (start - e) z (k - length s.audio),
            length-append s.audio (replicate (start - e) z),
            length-replicate (start - e) z,
          ))
          λ gapless. ground (arith, nth-append s.audio samples k)
  where
    e : ℕ
    e = s.first_sample + length s.audio

-- The audio then ends where the later of the two ends.
pub joined_audio-end :
    (z start : ℕ) (samples : List ℕ) (s : SmartTurnSession)
    → s.first_sample + length s.audio ≤ 18446744073709551615
    → start + length samples ≤ 18446744073709551615
    → s.first_sample + length (joined_audio z start samples s)
      ≡ max (s.first_sample + length s.audio) (start + length samples)
joined_audio-end z start samples s held fits =
    joined_audio-cases (λ xs. s.first_sample + length xs ≡ max e (start + length samples)) z start
      samples s held fits (λ before covered. omega arith)
      (λ before longer.
        omega (
          arith,
          length-append s.audio (drop (e - start) samples),
          length-drop (e - start) samples,
        ))
      λ h.
        if_cases (λ xs. s.first_sample + length (xs ++ samples) ≡ max e (start + length samples))
          (ltb e start)
          (λ gap. ground (
            arith,
            length-append (s.audio ++ replicate (start - e) z) samples,
            length-append s.audio (replicate (start - e) z),
            length-replicate (start - e) z,
          ))
          λ gapless. ground (arith, length-append s.audio samples)
  where
    e : ℕ
    e = s.first_sample + length s.audio

-- ===== src/Worker/Decode.antt =====
-- Proofs on the samples of a frame (decode_frame_to_f32 of
-- crates/speech-core-daemon/src/detectors/mod.rs).
use speech_core.Base.{
  ℕ, suc, ◌*◌, ◌%◌, Option, none, some, List, [], ◌∷◌, ◌≡◌, ◌≢◌, refl, length, map_some, arith, ◌+◌,
}
use speech_core.Protocol.Types.{AudioFrame, PcmFormat, pcm_f32le, pcm_s16le, bytes_per_sample}
use speech_core.Vad.Config.{Float}
use speech_core.Worker.Commands.{decode_frame_to_f32, words_f32, words_s16}

-- All bytes make up samples of this width, or they do not come out even.
data Decoded (width bytes : ℕ) : Option (List ℕ) → Type 0 where
  whole : (samples : List ℕ) → length samples * width ≡ bytes → Decoded width bytes (some samples)
  uneven : bytes % width ≢ 0 → Decoded width bytes none

one_more :
    (width bytes total : ℕ) (x : List ℕ → ℕ) (rest : Option (List ℕ))
    → ((count : ℕ) → count * width ≡ bytes → suc count * width ≡ total)
    → (total % width ≡ 0 → bytes % width ≡ 0)
    → Decoded width bytes rest
    → Decoded width total (map_some rest (λ xs. x xs ∷ xs))
one_more width bytes total x _ up down (whole samples e) = whole _ (up (length samples) e)
one_more width bytes total x _ up down (uneven odd) = uneven (λ h. odd (down h))

words_f32-Decoded : (bytes : List ℕ) → Decoded 4 (length bytes) (words_f32 bytes)
unfolding words_f32
words_f32-Decoded [] = whole [] refl
words_f32-Decoded (a ∷ []) = uneven (λ h. omega arith)
words_f32-Decoded (a ∷ b ∷ []) = uneven (λ h. omega arith)
words_f32-Decoded (a ∷ b ∷ c ∷ []) = uneven (λ h. omega arith)
words_f32-Decoded (a ∷ b ∷ c ∷ d ∷ rest) =
    one_more 4 (length rest) _ (λ _. a + b * 256 + c * 65536 + d * 16777216) (words_f32 rest)
      (λ count e. omega arith) (λ h. omega arith) (words_f32-Decoded rest)

words_s16-Decoded :
    (float : Float) (bytes : List ℕ) → Decoded 2 (length bytes) (words_s16 float bytes)
unfolding words_s16
words_s16-Decoded float [] = whole [] refl
words_s16-Decoded float (a ∷ []) = uneven (λ h. omega arith)
words_s16-Decoded float (a ∷ b ∷ rest) =
    one_more 2 (length rest) _ _ (words_s16 float rest) (λ count e. omega arith) (λ h. omega arith)
      (words_s16-Decoded float rest)

-- A frame is refused exactly when the payload's length is not divisible by that of a sample in the
-- frame's format; otherwise there is one sample for each such piece of the payload.
decode_frame_to_f32-Decoded :
    (float : Float) (frame : AudioFrame)
    → Decoded
        (bytes_per_sample frame.header.format)
        (length frame.payload)
        (decode_frame_to_f32 float frame)
unfolding decode_frame_to_f32 bytes_per_sample
decode_frame_to_f32-Decoded float frame = go frame.header.format
  where
    go :
        (format : PcmFormat)
        → Decoded
            (bytes_per_sample format)
            (length frame.payload)
            (elim format as (λ _. Option (List ℕ)) [
              | pcm_f32le ↦ words_f32 frame.payload
              | pcm_s16le ↦ words_s16 float frame.payload
            ])
    go pcm_f32le = words_f32-Decoded frame.payload
    go pcm_s16le = words_s16-Decoded float frame.payload

-- ===== src/Turn/Align/Bounds.antt =====
-- Proofs on the samples that a close goes by (align_model_for_close of
-- crates/speech-core-daemon/src/detectors/turn.rs).
use speech_core.Base.{
  ℕ, ◌≤◌, ◌<◌, ◌⊎◌, inl, inr, refl, ltb→lt, Bool, false, String, Option, none, some, ltb, leb, ◌≡◌,
  if_cases, if_both, arith, ◌&&◌, not,
}
use speech_core.Base.Words.{saturating_add}
use speech_core.Turn.Config.{ms_to_samples}
use speech_core.Turn.Signals.{Ids, ModelDrainHandle}
use speech_core.Turn.Events.{CloseModelAlignment}
use speech_core.Turn.Local.{Env, Local}
use speech_core.Turn.Align.Waits.{
  Boundary, extend_to, finalized_extension, apply_trailing_token_extension, token_end,
}
use speech_core.Turn.Align.{
  DrainPhase, ProgressPhase, drained_well, finalized_phase, waited_phase, phase_choice,
  progress_phase, align_model_for_close,
}

-- The samples `b` are those of `a`, or later ones, in the same order.
pub record Extends (a b : Boundary) : Type 0 where
  pub end_later : a.end_sample ≤ b.end_sample
  pub decision_later : a.decision_sample ≤ b.decision_sample
  pub ordered : a.end_sample ≤ a.decision_sample → b.end_sample ≤ b.decision_sample

-- The end, the decision and their order after a close.
abbrev pub IsLater : Boundary → Boundary → Type 0
IsLater a b =
    (a.end_sample ≤ b.end_sample)
    × (b.end_sample ≤ b.decision_sample)
    × (a.decision_sample ≤ b.decision_sample)

-- The end stays, or moves to the end of the last token, in the 320 ms after the decision at most.
abbrev pub HasShortTail : Option ℕ → Boundary → Boundary → Type 0
HasShortTail last a b =
    (b.end_sample ≡ a.end_sample)
    ⊎ ((last ≡ some b.end_sample)
        × (a.end_sample < b.end_sample)
        × (b.end_sample ≤ saturating_add a.decision_sample (ms_to_samples 320)))

abbrev pub boundary_of : CloseModelAlignment → Boundary
boundary_of a = record {
  end_sample = a.effective_end_sample;
  decision_sample = a.effective_decision_sample;
}

-- The model has flushed its tokens, as the alignment reports it.
abbrev pub was_flushed : CloseModelAlignment → Bool
was_flushed a = a.finalize_attempted && a.drain_succeeded && not a.finalize_timeout

same-Extends : (a : Boundary) → Extends a a
same-Extends a = record { end_later = omega arith; decision_later = omega arith; ordered = λ h. h }

extend_to-Extends : (e : ℕ) (a : Boundary) → Extends a (extend_to e a)
extend_to-Extends e a =
    if_cases (Extends a) (ltb a.end_sample e)
      (λ h. record {
        end_later = ground arith;
        decision_later = ground arith;
        ordered = λ o. ground arith;
      })
      (λ h. same-Extends a)

finalized_extension-Extends : (e : Option ℕ) (a : Boundary) → Extends a (finalized_extension e a)
unfolding finalized_extension
finalized_extension-Extends none a = same-Extends a
finalized_extension-Extends (some e) a = extend_to-Extends e a

apply_trailing_token_extension-Extends :
    (e : Option ℕ) (decision : ℕ) (a : Boundary)
    → Extends a (apply_trailing_token_extension e decision a)
unfolding apply_trailing_token_extension
apply_trailing_token_extension-Extends none decision a = same-Extends a
apply_trailing_token_extension-Extends (some e) decision a =
    if_both (Extends a) (leb e (saturating_add decision (ms_to_samples 320)))
      (extend_to-Extends e a) (same-Extends a)

apply_trailing_token_extension-HasShortTail :
    (e : Option ℕ) (a : Boundary)
    → HasShortTail e a (apply_trailing_token_extension e a.decision_sample a)
unfolding apply_trailing_token_extension
apply_trailing_token_extension-HasShortTail none a = inl refl
apply_trailing_token_extension-HasShortTail (some e) a =
    if_cases (HasShortTail (some e) a)
      (leb e (saturating_add a.decision_sample (ms_to_samples 320)))
      (λ h.
        if_cases (HasShortTail (some e) a) (ltb a.end_sample e)
          (λ later. inr (refl, ltb→lt _ _ later, ground arith)) (λ _. inl refl))
      (λ _. inl refl)

module _ ⦃env : Env⦄ where
  progress_phase-Extends :
      (id : String) (d : DrainPhase) (a : Boundary) (deadline : ℕ) (l : Local)
      → Extends a (progress_phase id d a deadline l).0.boundary
  unfolding progress_phase phase_choice finalized_phase waited_phase
  progress_phase-Extends id d a deadline l =
      elim l.progress as (λ p. Extends a (phase_choice p id d a deadline l).0.boundary) [
        | none ↦ same-Extends a
        | some _ ↦
            if_both (λ (r : ProgressPhase × Local). Extends a r.0.boundary) (drained_well d)
              (finalized_extension-Extends (token_end id l) a)
              (apply_trailing_token_extension-Extends _ a.decision_sample a)
      ]

  progress_phase-HasShortTail :
      (id : String) (d : DrainPhase) (a : Boundary) (deadline : ℕ) (l : Local)
      → drained_well d ≡ false
      → HasShortTail
          (token_end id (progress_phase id d a deadline l).1)
          a
          (progress_phase id d a deadline l).0.boundary
  unfolding progress_phase phase_choice waited_phase
  progress_phase-HasShortTail id d a deadline l e =
      elim l.progress
        as (λ p.
          HasShortTail (token_end id (phase_choice p id d a deadline l).1) a
            (phase_choice p id d a deadline l).0.boundary) [
              | none ↦ inl refl
              | some _ ↦
                  if_cases
                    (λ (r : ProgressPhase × Local). HasShortTail (token_end id r.1) a r.0.boundary)
                    (drained_well d) (λ t. cc)
                    (λ _. apply_trailing_token_extension-HasShortTail _ a)
            ]

  pub align_model_for_close-Extends :
      (drain : Option ModelDrainHandle) (ids : Ids) (end_sample decision_sample : ℕ)
      (close_reason : String) (timeout_ms : ℕ) (l : Local)
      → Extends
          (record { end_sample = end_sample; decision_sample = decision_sample })
          (boundary_of
            (align_model_for_close drain ids end_sample decision_sample close_reason timeout_ms
              l).0)
  unfolding align_model_for_close
  align_model_for_close-Extends drain ids end_sample decision_sample close_reason timeout_ms l =
      progress_phase-Extends _ _ _ _ _

  -- An aligned close that is asked for an end at or before its decision never ends the turn before
  -- that end nor decides it before that decision, and ends it at or before it decides it.
  pub align_model_for_close-IsLater :
      (drain : Option ModelDrainHandle) (ids : Ids) (end_sample decision_sample : ℕ)
      (close_reason : String) (timeout_ms : ℕ) (l : Local)
      → end_sample ≤ decision_sample
      → IsLater
          (record { end_sample = end_sample; decision_sample = decision_sample })
          (boundary_of
            (align_model_for_close drain ids end_sample decision_sample close_reason timeout_ms
              l).0)
  align_model_for_close-IsLater drain ids end_sample decision_sample close_reason timeout_ms l h =
      let e =
        align_model_for_close-Extends drain ids end_sample decision_sample close_reason timeout_ms
          l in
      (e.end_later, e.ordered h, e.decision_later)

  -- Without a drain that flushed the model, an aligned close ends a turn at the end it was asked
  -- for, or at a later end of the last token that is there after the waits, within 320 ms after the
  -- decision it was asked for.
  pub align_model_for_close-HasShortTail :
      (drain : Option ModelDrainHandle) (ids : Ids) (end_sample decision_sample : ℕ)
      (close_reason : String) (timeout_ms : ℕ) (l : Local)
      → was_flushed
          (align_model_for_close drain ids end_sample decision_sample close_reason timeout_ms l).0
        ≡ false
      → HasShortTail
          (token_end ids.stream_session_id
            (align_model_for_close drain ids end_sample decision_sample close_reason timeout_ms
              l).1)
          (record { end_sample = end_sample; decision_sample = decision_sample })
          (boundary_of
            (align_model_for_close drain ids end_sample decision_sample close_reason timeout_ms
              l).0)
  unfolding align_model_for_close drained_well
  align_model_for_close-HasShortTail drain ids end_sample decision_sample close_reason timeout_ms l
        e =
      progress_phase-HasShortTail _ _ _ _ _ e

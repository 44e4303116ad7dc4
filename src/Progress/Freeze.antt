-- ===== src/Progress/Freeze.antt =====
-- Proofs on the freeze of a session's tokens between turns
-- (ModelProgressMap of crates/speech-core-daemon/src/model.rs).
use speech_core.Base.{
  ℕ, ◌≤◌, max, true, false, ◌&&◌, not, String, none, some, [], ◌∷◌, ◌++◌, leb, ◌≡◌, ◌⊎◌, inl, inr,
  refl, if_cases, unwrap_or, arith,
}
use speech_core.Progress.State.{
  Unicode, is_speech_evidence_text, CommittedTokenSnapshot, ModelProgressState,
}
use speech_core.Progress.Ops.{turn_id_set, frozen_through, token_recorded}

module _ ⦃u : Unicode⦄ where
  -- After a close, with no turn open and the tokens frozen through a sample, a token that ends at
  -- or before that sample is not recorded, and neither is mere punctuation; the next turn to open
  -- lifts the freeze, and then the same token is recorded at the end.
  token_recorded-frozen_through :
      (snapshot : CommittedTokenSnapshot) (sample : ℕ) (turn_id : String) (s : ModelProgressState)
      → (snapshot.end_sample ≤ sample) ⊎ (is_speech_evidence_text snapshot.text ≡ false)
      → let closed = frozen_through sample (turn_id_set none s) in
        (token_recorded snapshot closed ≡ closed)
        × ((token_recorded snapshot (turn_id_set (some turn_id) closed)).committed_tokens
            ≡ s.committed_tokens ++ snapshot ∷ [])
  unfolding token_recorded frozen_through turn_id_set
  token_recorded-frozen_through snapshot sample turn_id s h = (
    if_cases (λ t. t ≡ closed) (not (is_speech_evidence_text snapshot.text) && true) (λ _. refl)
        (λ e.
          if_cases (λ t. t ≡ closed)
            (leb snapshot.end_sample
              (max (unwrap_or s.suppress_tokens_at_or_before_sample 0) sample))
            (λ _. refl) (λ f. absurd (out h e f))),
    if_cases (λ (t : ModelProgressState). t.committed_tokens ≡ s.committed_tokens ++ snapshot ∷ [])
        (not (is_speech_evidence_text snapshot.text) && false) (λ e. absurd (ground arith))
        (λ _. refl),
  )
    where
      closed : ModelProgressState
      closed = frozen_through sample (turn_id_set none s)

      out :
          (snapshot.end_sample ≤ sample) ⊎ (is_speech_evidence_text snapshot.text ≡ false)
          → (not (is_speech_evidence_text snapshot.text) && true) ≡ false
          → leb snapshot.end_sample (max (unwrap_or s.suppress_tokens_at_or_before_sample 0) sample)
            ≡ false
          → ⊥
      out (inl h) e f = ground arith
      out (inr h) e f = ground arith

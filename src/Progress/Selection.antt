-- ===== src/Progress/Selection.antt =====
-- Proofs on the tokens that the committed text of a turn is cut from
-- (ModelProgressMap::per_turn_committed_snapshot of crates/speech-core-daemon/src/model.rs).
use speech_core.Base.{Bool, true, List, [], ◌∷◌, ◌≡◌, retain}
use speech_core.Progress.State.{Unicode, is_speech_evidence_text, CommittedTokenSnapshot}

module _ ⦃u : Unicode⦄ where
  abbrev pub words_of : List CommittedTokenSnapshot → List CommittedTokenSnapshot
  words_of ts = retain (λ t. is_speech_evidence_text t.text) ts

  abbrev pub BeginsWithWord : List CommittedTokenSnapshot → Type 0
  BeginsWithWord [] = Unit
  BeginsWithWord (t ∷ ts) = is_speech_evidence_text t.text ≡ true

  -- The tokens begin with a word, and their words are those of `all` that the turn takes in.
  abbrev pub IsTextOf :
      (CommittedTokenSnapshot → Bool)
      → List CommittedTokenSnapshot
      → List CommittedTokenSnapshot
      → Type 0
  IsTextOf taken all chosen =
      BeginsWithWord chosen × (words_of chosen ≡ words_of (retain taken all))

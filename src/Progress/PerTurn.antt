-- ===== src/Progress/PerTurn.antt =====
-- The committed text of one turn, cut from the tokens of a session:
-- ModelProgressMap::per_turn_committed_snapshot of crates/speech-core-daemon/src/model.rs.
use Prim.Native.String
use speech_core.Base.{
  ℕ, ◌+◌, Bool, ◌&&◌, ◌||◌, not, String, Option, none, some, List, [], ◌∷◌, ◌++◌, leb, ltb, ◌==◌,
  if◌then◌else◌, length, retain, last, map_some,
}
use speech_core.Base.Int.{ℤ}
use speech_core.Base.Maps.{lookup}
use speech_core.Base.Words.{as_u32}
use speech_core.Progress.State.{
  Unicode, is_speech_evidence_text, CommittedTokenSnapshot, ModelProgressState, ModelProgressMap,
}

-- The token belongs to the turn by its index and its samples.
abbrev pub in_turn : ℕ → ℕ → ℕ → CommittedTokenSnapshot → Bool
in_turn baseline turn_start turn_end t =
    leb baseline t.index
    && (ltb turn_start t.end_sample || baseline == 0)
    && leb t.start_sample turn_end

module _ ⦃u : Unicode⦄ where
  -- The walk over the tokens after the last selected one: punctuation at the expected index,
  -- up to the first gap, the first word, or a token that begins before the last one ends.
  unfoldable pub trailing_punctuation :
      ℕ → ℕ → List CommittedTokenSnapshot → List CommittedTokenSnapshot
  trailing_punctuation expected last_end [] = []
  trailing_punctuation expected last_end (t ∷ ts) =
      let skipped = trailing_punctuation expected last_end ts in
      let taken = trailing_punctuation (as_u32 (expected + 1)) last_end ts in
      if ltb t.index expected
      then skipped
      else if not (t.index == expected)
      then []
      else if is_speech_evidence_text t.text
      then []
      else if ltb t.start_sample last_end
      then []
      else t ∷ taken

  unfoldable pub with_tail :
      Option CommittedTokenSnapshot
      → List CommittedTokenSnapshot
      → List CommittedTokenSnapshot
      → List CommittedTokenSnapshot
  with_tail none tokens selected = selected
  with_tail (some l) tokens selected =
      selected ++ trailing_punctuation (as_u32 (l.index + 1)) l.end_sample tokens

  unfoldable pub drop_leading_punctuation :
      List CommittedTokenSnapshot → List CommittedTokenSnapshot
  drop_leading_punctuation [] = []
  drop_leading_punctuation (t ∷ ts) =
      let rest = drop_leading_punctuation ts in
      if is_speech_evidence_text t.text then t ∷ ts else rest

  unfoldable pub select_tokens :
      ℕ → ℕ → ℕ → List CommittedTokenSnapshot → List CommittedTokenSnapshot
  select_tokens baseline turn_start turn_end tokens =
      let selected = retain (in_turn baseline turn_start turn_end) tokens in
      drop_leading_punctuation (with_tail (last selected) tokens selected)

-- `join("")` over the tokens' texts.
unfoldable pub joined_text : List CommittedTokenSnapshot → String
joined_text [] = ""
joined_text (t ∷ ts) = String.◌++◌ t.text (joined_text ts)

pub record CommittedSnapshot : Type 0 where
  pub text : String
  pub token_count : ℕ  -- u32
  pub revision : ℤ  -- i32

module _ ⦃u : Unicode⦄ where
  unfoldable pub state_snapshot : ℕ → ℕ → ℕ → ModelProgressState → CommittedSnapshot
  state_snapshot baseline turn_start turn_end state =
      let selected = select_tokens baseline turn_start turn_end state.committed_tokens in
      record {
        text = joined_text selected;
        token_count = as_u32 (length selected);
        revision = state.revision;
      }

  unfoldable pub per_turn_committed_snapshot :
      String → ℕ → ℕ → ℕ → ModelProgressMap → Option CommittedSnapshot
  per_turn_committed_snapshot session_id baseline turn_start turn_end m =
      map_some (lookup session_id m) (state_snapshot baseline turn_start turn_end)

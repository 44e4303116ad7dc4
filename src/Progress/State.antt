-- ===== src/Progress/State.antt =====
-- The records of crates/speech-core-daemon/src/model.rs that the model worker and the turn
-- manager share. The `Arc<Mutex<HashMap>>` is a map that is passed from call to call; its lock
-- is taken to succeed, since no holder panics.
use Prim.Native.Char.{Char}
use speech_core.Base.{ℕ, Bool, false, String, Option, List, ◌||◌}
use speech_core.Base.Int.{ℤ}

-- `char::is_alphanumeric`: the table of the Unicode standard that Rust's `char` carries.
pub record Unicode : Type 0 where
  pub is_alphanumeric : Char → Bool

-- `text.chars().any(p)`.
unfoldable pub any_char : (Char → Bool) → String → Bool
any_char p String.[] = false
any_char p (String.◌∷◌ c s) = p c || any_char p s

module _ ⦃u : Unicode⦄ where
  -- A text with a letter or a digit, which is evidence of speech.
  unfoldable pub is_speech_evidence_text : String → Bool
  is_speech_evidence_text text = any_char u.is_alphanumeric text

pub record CommittedTokenSnapshot : Type 0 where
  pub index : ℕ  -- u32
  pub text : String
  pub start_sample : ℕ  -- u64
  pub end_sample : ℕ  -- u64

pub record ModelProgressState : Type 0 where
  pub generation : ℕ  -- u64
  pub audio_committed_samples : ℕ  -- u64
  pub last_token_end_sample : Option ℕ  -- u64
  pub buffered_ms : ℤ  -- i64
  pub committed_tokens : List CommittedTokenSnapshot
  pub last_committed_text : String
  pub committed_token_count : ℕ  -- u32
  pub revision : ℤ  -- i32
  pub current_turn_id : Option String
  pub suppress_tokens_at_or_before_sample : Option ℕ  -- u64
  pub last_dispatched_text : Option String
  pub last_dispatched_turn_id : Option String
  pub last_dispatched_turn_start_sample : Option ℕ  -- u64
  pub last_dispatched_turn_end_sample : Option ℕ  -- u64
  pub last_dispatched_baseline_token_count : Option ℕ  -- u32

abbrev pub ModelProgressMap : Type 0
ModelProgressMap = List (String × ModelProgressState)

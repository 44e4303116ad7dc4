-- ===== src/Turn/Local.antt =====
-- One session of the turn manager (TurnSession of
-- crates/speech-core-daemon/src/detectors/turn.rs) and what a handler works on: the session, the
-- model's shared progress, the events sent and the clock. A handler that fails keeps what it has
-- changed, as `?` on a `&mut` borrow does.
use Prim.Native.String
use speech_core.Base.{ℕ, Bool, false, ◌&&◌, String, Option, none, some, List, ◌∷◌, if◌then◌else◌}
use speech_core.Base.Decimal.{decimal}
use speech_core.Base.Words.{saturating_add}
use speech_core.Protocol.Types.{SourceKind, PcmFormat, TimestampProvenance}
use speech_core.Progress.State.{Unicode, ModelProgressMap}
use speech_core.Progress.Ops.{set_current_turn_id}
use speech_core.Turn.Signals.{Ids}
use speech_core.Turn.Events.{Event, is_durable, turn_started}
pub use speech_core.Base.Work.{Outcome, ok, err, Work, continue, ◌>>=◌, ◌>>◌, return}

pub record HelloState : Type 0 where
  pub adapter_id : String
  pub stream_id : String
  pub stream_session_id : String
  pub source_kind : SourceKind
  pub sample_rate_hz : ℕ  -- u32
  pub channels : ℕ  -- u16
  pub format : PcmFormat
  pub timestamp_provenance : TimestampProvenance
  pub generation : ℕ  -- u64

abbrev pub hello_ids : HelloState → Ids
hello_ids hello = record {
  stream_id = hello.stream_id;
  stream_session_id = hello.stream_session_id;
  adapter_id = hello.adapter_id;
}

pub record OpenTurn : Type 0 where
  pub turn_id : String
  pub start_sample : ℕ  -- u64

pub record SemanticDecisionState : Type 0 where
  pub detector : String
  pub end_sample : ℕ  -- u64
  pub decision_sample : ℕ  -- u64
  pub complete : Bool
  pub available : Bool
  pub timed_out : Bool
  pub probability : Option ℕ

pub record TurnSession : Type 0 where
  pub hello : HelloState
  pub open_turn : Option OpenTurn
  pub next_turn_index : ℕ  -- u64
  pub turns_started : ℕ  -- u64
  pub turns_closed : ℕ  -- u64
  pub in_speech : Bool
  pub saw_vad_signal : Bool
  pub last_vad_start_sample : Option ℕ
  pub last_vad_end_sample : Option ℕ
  pub last_vad_end_decision_sample : Option ℕ
  pub last_closed_end_sample : Option ℕ
  pub last_closed_decision_sample : Option ℕ
  pub last_semantic_decision : Option SemanticDecisionState
  pub last_human_hold_token_anchor : Option ℕ
  pub current_turn_start_token_count : ℕ  -- u32

unfoldable pub new_session : HelloState → TurnSession
new_session hello = record {
  hello = hello;
  open_turn = none;
  next_turn_index = 0;
  turns_started = 0;
  turns_closed = 0;
  in_speech = false;
  saw_vad_signal = false;
  last_vad_start_sample = none;
  last_vad_end_sample = none;
  last_vad_end_decision_sample = none;
  last_closed_end_sample = none;
  last_closed_decision_sample = none;
  last_semantic_decision = none;
  last_human_hold_token_anchor = none;
  current_turn_start_token_count = 0;
}

unfoldable pub turn_id_text : String → ℕ → String
turn_id_text session_id index = String.◌++◌ session_id (String.◌++◌ ":turn:" (decimal index))

unfoldable pub next_turn_id : TurnSession → String
next_turn_id s = turn_id_text s.hello.stream_session_id s.next_turn_index

-- What runs beside the turn manager: the table of characters; whether the log's worker has
-- stopped when the newest of the events comes; what the model worker has made of the shared
-- progress when a sleep ends that began at a time; by how much that sleep runs over.
pub record Env : Type 0 where
  pub unicode : Unicode
  pub logger_stopped : List Event → Bool
  pub worker : ℕ → ModelProgressMap → ModelProgressMap
  pub overshoot_ns : ℕ → ℕ

-- `sent` has the newest event first; `progress` is `none` without a `model_progress` handle.
pub record Local : Type 0 where
  pub session : TurnSession
  pub progress : Option ModelProgressMap
  pub sent : List Event
  pub now_ns : ℕ

-- An error is that the log's worker has stopped; no other arises here.
abbrev pub M : Type 0 → Type 0
M A = Work Local A

abbrev pub get : M Local
get l = (ok l, l)

abbrev pub modify : (TurnSession → TurnSession) → M (Unit {0})
modify f l = (ok tt, record l { session = f l.session })

module _ ⦃env : Env⦄ where
  -- Subscribers see an event before the log's worker takes it, and also where the worker is gone.
  unfoldable pub written : Event → List Event → Outcome (Unit {0})
  written e sent = if is_durable e && env.logger_stopped (e ∷ sent) then err else ok tt

  unfoldable pub write : Event → M (Unit {0})
  write e l = (written e l.sent, record l { sent = e ∷ l.sent })

  unfoldable pub start_turn : ℕ → String → M (Unit {0})
  start_turn start_sample source = do
    l ← get
    let turn_id = next_turn_id l.session
    modify λ s. record s {
      next_turn_index = saturating_add s.next_turn_index 1;
      turns_started = saturating_add s.turns_started 1;
      open_turn = some (record { turn_id = turn_id; start_sample = start_sample });
    }
    write (
        turn_started (record {
          ids = hello_ids l.session.hello;
          turn_id = turn_id;
          source = source;
          start_sample = start_sample;
        }))

abbrev pub tag_turn : String → Option OpenTurn → ModelProgressMap → ModelProgressMap
tag_turn session_id none p = p
tag_turn session_id (some turn) p = set_current_turn_id session_id (some turn.turn_id) p

abbrev pub note_turn : String → (ModelProgressMap → ℕ) → Option ModelProgressMap → M (Unit {0})
note_turn session_id baseline none l = (ok tt, l)
note_turn session_id baseline (some p) l = (
  ok tt,
  record l {
    session = record (l.session) { current_turn_start_token_count = baseline p };
    progress = some (tag_turn session_id l.session.open_turn p);
  },
)

-- Beside `start_turn`: the count of tokens before the turn, and the turn's name in the progress.
unfoldable pub note_turn_opened : String → (ModelProgressMap → ℕ) → M (Unit {0})
note_turn_opened session_id baseline l = note_turn session_id baseline l.progress l

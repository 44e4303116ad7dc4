-- ===== src/Turn/Invariant.antt =====
-- What holds of a session and of the events between two signals
-- (crates/speech-core-daemon/src/detectors/turn.rs).
mod Session
mod Closing
mod Shared
mod Segment
mod Others
pub mod Manager
pub mod Reach
use speech_core.Base.{ℕ, ◌+◌, ◌≤◌, String, Option, none, some, List, [], ◌∷◌, ◌≡◌, ◌⊎◌}
use speech_core.Base.Words.{u64_max, saturating_add}
use speech_core.Turn.Events.{
  Event, TurnEouEvent, TranscriptCommittedEvent, TurnClosedEvent, turn_started, turn_eou,
  transcript_committed, turn_closed,
}
use speech_core.Turn.Local.{Local, TurnSession, OpenTurn, turn_id_text}

-- The three events of one close agree.
pub record SameClose (c : TurnClosedEvent) (t : TranscriptCommittedEvent) (e : TurnEouEvent)
    : Type 0 where
  pub committed_ids : t.ids ≡ c.ids
  pub committed_turn : t.turn_id ≡ c.turn_id
  pub committed_end : t.end_sample ≡ c.end_sample
  pub committed_decision : t.decision_sample ≡ c.decision_sample
  pub committed_degraded : t.is_degraded ≡ c.degraded
  pub committed_source : t.close_source ≡ c.source
  pub eou_ids : e.ids ≡ c.ids
  pub eou_turn : e.turn_id ≡ c.turn_id
  pub eou_end : e.end_sample ≡ c.end_sample
  pub eou_decision : e.decision_sample ≡ c.decision_sample

-- Right before a `turn_closed` stand the turn's `transcript_committed` and `turn_eou`.
abbrev pub FollowsCommit : TurnClosedEvent → List Event → Type 0
FollowsCommit c (transcript_committed t ∷ turn_eou e ∷ sent) = SameClose c t e
FollowsCommit c _ = ⊥

abbrev pub Starts : String → Event → Type 0
Starts turn_id (turn_started e) = e.turn_id ≡ turn_id
Starts turn_id _ = ⊥

-- The turn was started by one of the events.
abbrev pub WasStarted : String → List Event → Type 0
WasStarted turn_id [] = ⊥
WasStarted turn_id (e ∷ sent) = Starts turn_id e ⊎ WasStarted turn_id sent

-- Every `turn_closed` follows its commit, and names a turn that was started before.
abbrev pub IsOrdered : List Event → Type 0
IsOrdered [] = Unit
IsOrdered (turn_closed c ∷ sent) = FollowsCommit c sent × WasStarted c.turn_id sent × IsOrdered sent
IsOrdered (_ ∷ sent) = IsOrdered sent

-- The open turn is the last that was started: it has the index before the next one, and more
-- turns were started than closed (until the counters stop at their bound).
abbrev pub IsLatest : String → TurnSession → List Event → Option OpenTurn → Type 0
IsLatest key s sent none = Unit
IsLatest key s sent (some turn) =
    (i : ℕ) × (turn.turn_id ≡ turn_id_text key i)
    × (i ≤ u64_max)
    × (s.turns_started ≡ saturating_add i 1)
    × (s.turns_closed ≤ i)
    × WasStarted turn.turn_id sent

pub record IsCounted (key : String) (s : TurnSession) (sent : List Event) : Type 0 where
  pub named : s.hello.stream_session_id ≡ key
  pub indexed : s.next_turn_index ≡ s.turns_started
  pub bounded : s.turns_started ≤ u64_max
  pub closed_started : s.turns_closed ≤ s.turns_started
  pub latest : IsLatest key s sent s.open_turn

-- The invariant over the work on one session: `base` are the events before it.
pub record Inv (key : String) (base : List Event) (l : Local) : Type 0 where
  pub counted : IsCounted key l.session l.sent
  pub ordered : IsOrdered l.sent
  pub grown : (turn_id : String) → WasStarted turn_id base → WasStarted turn_id l.sent

-- The same, with a certain turn open.
pub record Open (key : String) (base : List Event) (turn : OpenTurn) (l : Local) : Type 0 where
  pub inv : Inv key base l
  pub is_open : l.session.open_turn ≡ some turn

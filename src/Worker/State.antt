-- ===== src/Worker/State.antt =====
-- The state of the detector worker, its events, and the ways in which it calls what it owns
-- (DetectorWorker of crates/speech-core-daemon/src/detectors/mod.rs).
use speech_core.Base.{ℕ, zero, suc, Bool, String, Option, none, some, List, [], ◌∷◌, if◌then◌else◌}
use speech_core.Base.Int.{ℤ}
use speech_core.Turn.Signals.{Ids}
use speech_core.Turn.Local.{Env, Outcome, ok, err}
use speech_core.Turn.Manager.{TurnManager}
use speech_core.Vad.Config.{Float}
pub use speech_core.Base.Work.{Work, continue, ◌>>=◌, ◌>>◌, return}

pub record SemanticRecheckState : Type 0 where
  pub ids : Ids
  pub start_sample : ℕ  -- u64
  pub end_sample : ℕ  -- u64
  pub initial_decision_sample : ℕ  -- u64
  pub pending_decision_samples : List ℕ
  pub confidence : Option ℕ  -- f32

pub record DetectorAudioGapResetEvent : Type 0 where
  pub ids : Ids
  pub expected_sample_start : ℕ
  pub observed_sample_start : ℕ
  pub delta_samples : ℤ
  pub reason : String

pub record DetectorErrorEvent : Type 0 where
  pub ids : Ids
  pub detector : String
  pub message : String

pub record SmartTurnSkippedEvent : Type 0 where
  pub ids : Ids
  pub start_sample : ℕ
  pub end_sample : ℕ
  pub decision_sample : ℕ
  pub reason : String
  pub observed_speech_samples : ℕ
  pub min_required_samples : ℕ

pub record SemanticRecheckScheduledEvent : Type 0 where
  pub ids : Ids
  pub start_sample : ℕ
  pub end_sample : ℕ
  pub initial_decision_sample : ℕ
  pub next_decision_sample : ℕ
  pub pending_decision_samples : List ℕ

pub record SemanticRecheckCancelledEvent : Type 0 where
  pub ids : Ids
  pub start_sample : ℕ
  pub end_sample : ℕ
  pub initial_decision_sample : ℕ
  pub reason : String

pub record SemanticRecheckExhaustedEvent : Type 0 where
  pub ids : Ids
  pub start_sample : ℕ
  pub end_sample : ℕ
  pub initial_decision_sample : ℕ
  pub final_decision_sample : ℕ
  pub confidence : Option ℕ

-- The stamps of the clock are left out, as the `detector` of the last four,
-- "pipecat_smart_turn_v3".
pub data WorkerEvent : Type 0 where
  detector_audio_gap_reset : DetectorAudioGapResetEvent → WorkerEvent
  detector_error : DetectorErrorEvent → WorkerEvent
  smart_turn_skipped : SmartTurnSkippedEvent → WorkerEvent
  smart_turn_recheck_scheduled : SemanticRecheckScheduledEvent → WorkerEvent
  smart_turn_recheck_cancelled : SemanticRecheckCancelledEvent → WorkerEvent
  smart_turn_recheck_exhausted : SemanticRecheckExhaustedEvent → WorkerEvent

-- `D` stands for the detectors, `S` for the semantic one. Each part keeps the events that it has
-- sent; `sent` has those of the worker itself, the newest first.
pub record DetectorWorker (D S : Type 0) : Type 0 where
  pub detectors : List D
  pub smart_turn : Option S
  pub turn_manager : TurnManager
  pub semantic_rechecks : List SemanticRecheckState
  pub min_vad_speech_samples : ℕ  -- u64
  pub sent : List WorkerEvent

-- Whether the log's worker has stopped when the newest of the events comes.
pub record WorkerEnv : Type 0 where
  pub turns : Env
  pub float : Float
  pub logger_stopped : List WorkerEvent → Bool

abbrev pub W : Type 0 → Type 0 → Type 0 → Type 0
W D S A = Work (DetectorWorker D S) A

module _ {D : Type 0} where
  -- `for detector in &mut self.detectors`, which a failure ends.
  abbrev also : D → Outcome (Unit {0}) × List D → Outcome (Unit {0}) × List D
  also d r = (r.0, d ∷ r.1)

  unfoldable pub one_by_one : (D → Outcome (Unit {0}) × D) → List D → Outcome (Unit {0}) × List D
  one_by_one f [] = (ok tt, [])
  one_by_one f (d ∷ ds) =
      let rest = one_by_one f ds in
      let r = f d in
      elim r.0 as (λ _. Outcome (Unit {0}) × List D) [
        | ok _ ↦ also r.1 rest
        | err ↦ (err, r.1 ∷ ds)
      ]

  -- `self.detectors[index]`, for an index within the length.
  abbrev pub at_index : {A : Type 0} → ℕ → A → (D → Outcome A × D) → List D → Outcome A × List D
  at_index i a f [] = (ok a, [])
  at_index zero a f (d ∷ ds) = let r = f d in (r.0, r.1 ∷ ds)
  at_index (suc i) a f (d ∷ ds) = let r = at_index i a f ds in (r.0, d ∷ r.1)

module _ {D S : Type 0} where
  abbrev pub worker : W D S (DetectorWorker D S)
  worker w = (ok w, w)

  unfoldable pub set_rechecks : List SemanticRecheckState → W D S (Unit {0})
  set_rechecks rechecks w = (ok tt, record w { semantic_rechecks = rechecks })

  unfoldable pub with_turns : {A : Type 0} → (TurnManager → Outcome A × TurnManager) → W D S A
  with_turns f w = let (r, turns) = f w.turn_manager in (r, record w { turn_manager = turns })

  -- `if let Some(smart_turn) = &mut self.smart_turn`.
  abbrev smart_turn_after : {A : Type 0} → Outcome A × S → W D S A
  smart_turn_after r w = (r.0, record w { smart_turn = some r.1 })

  abbrev pub smart_turn_or : {A : Type 0} → A → (S → Outcome A × S) → Option S → W D S A
  smart_turn_or a f none = return a
  smart_turn_or a f (some s) = smart_turn_after (f s)

  unfoldable pub with_smart_turn : {A : Type 0} → A → (S → Outcome A × S) → W D S A
  with_smart_turn a f w = smart_turn_or a f w.smart_turn w

  unfoldable pub each_detector : (D → Outcome (Unit {0}) × D) → W D S (Unit {0})
  each_detector f w =
      let (r, detectors) = one_by_one f w.detectors in (r, record w { detectors = detectors })

  unfoldable pub with_detector : {A : Type 0} → ℕ → A → (D → Outcome A × D) → W D S A
  with_detector i a f w =
      let (r, detectors) = at_index i a f w.detectors in (r, record w { detectors = detectors })

  module _ ⦃env : WorkerEnv⦄ where
    unfoldable pub log : WorkerEvent → W D S (Unit {0})
    log e w =
        (if env.logger_stopped (e ∷ w.sent) then err else ok tt, record w { sent = e ∷ w.sent })

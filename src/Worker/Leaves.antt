-- ===== src/Worker/Leaves.antt =====
-- Postconditions of the detector worker's functions (Worker/State), on success and on failure.
use speech_core.Base.{
  ℕ, Bool, true, not, Option, none, some, List, [], ◌∷◌, ◌≡◌, if_both, if_cases, All, retain,
  str_eq,
}
use speech_core.Turn.Signals.{DetectorAction, reset_eou_state}
use speech_core.Turn.Local.{Outcome, ok, err}
use speech_core.Turn.Manager.{TurnManager}
use speech_core.Worker.Interfaces.{AudioDetector, SmartTurn}
use speech_core.Worker.State.{
  SemanticRecheckState, WorkerEvent, DetectorWorker, WorkerEnv, W, continue, set_rechecks,
  with_turns, with_smart_turn, smart_turn_or, each_detector, with_detector, log,
}
use speech_core.Worker.Events.{is_of}
use speech_core.Worker.Signals.{apply_action, apply_actions}

-- The work leaves a worker with P, and on success a result with V.
pub data Leaves {D S A : Type 0} (P : DetectorWorker D S → Type 0) (V : A → Type 0)
    : Outcome A × DetectorWorker D S → Type 0 where
  gives : (a : A) (w : DetectorWorker D S) → V a → P w → Leaves P V (ok a, w)
  stops : (w : DetectorWorker D S) → P w → Leaves P V (err, w)

-- Any result will do.
abbrev pub Anything : {A : Type 0} → A → Type 0
Anything a = Unit

module _ {D S : Type 0} {P : DetectorWorker D S → Type 0} where
  pub Leaves-continue :
      {A B : Type 0} {V : A → Type 0} {U : B → Type 0} {f : A → W D S B}
      {r : Outcome A × DetectorWorker D S}
      → Leaves P V r
      → ((a : A) (w : DetectorWorker D S) → V a → P w → Leaves P U (f a w))
      → Leaves P U (continue f r)
  Leaves-continue (gives a w v p) k = k a w v p
  Leaves-continue (stops w p) k = stops w p

  pub Leaves-state :
      {A : Type 0} {V : A → Type 0} {r : Outcome A × DetectorWorker D S} → Leaves P V r → P r.1
  Leaves-state (gives a w v p) = p
  Leaves-state (stops w p) = p

  pub Leaves-outcome :
      {A : Type 0} (o : Outcome A) (w : DetectorWorker D S) → P w → Leaves P Anything (o, w)
  Leaves-outcome (ok a) w p = gives a w tt p
  Leaves-outcome err w p = stops w p

pub All-retain :
    {A : Type 0} (Q : A → Type 0) (p : A → Bool) (xs : List A) → All Q xs → All Q (retain p xs)
All-retain Q p [] all = tt
All-retain Q p (x ∷ xs) all =
    if_both (All Q) (p x) (all.0, All-retain Q p xs all.1) (All-retain Q p xs all.1)

-- What is retained passes the test.
pub retain-passes : {A : Type 0} (p : A → Bool) (xs : List A) → All (λ x. p x ≡ true) (retain p xs)
retain-passes p [] = tt
retain-passes p (x ∷ xs) =
    if_cases (All (λ x. p x ≡ true)) (p x) (λ e. (e, retain-passes p xs)) λ _. retain-passes p xs

-- All rechecks satisfy Q, under a least length of segments.
pub record Rechecks (D S : Type 0) (Q : SemanticRecheckState → Type 0) (least : ℕ)
    (w : DetectorWorker D S) : Type 0 where
  pub all : All Q w.semantic_rechecks
  pub same_least : w.min_vad_speech_samples ≡ least

module _ {D S : Type 0} (Q : SemanticRecheckState → Type 0) (least : ℕ) where
  abbrev pub Keeps : {A : Type 0} → Outcome A × DetectorWorker D S → Type 0
  Keeps r = Leaves (Rechecks D S Q least) Anything r

  pub set_rechecks-Keeps :
      (rechecks : List SemanticRecheckState) (w : DetectorWorker D S)
      → Rechecks D S Q least w
      → All Q rechecks
      → Keeps (set_rechecks rechecks w)
  unfolding set_rechecks
  set_rechecks-Keeps rechecks w p all =
      gives tt _ tt (record { all = all; same_least = p.same_least })

  pub with_turns-Keeps :
      {A : Type 0} (f : TurnManager → Outcome A × TurnManager) (w : DetectorWorker D S)
      → Rechecks D S Q least w
      → Keeps (with_turns f w)
  unfolding with_turns
  with_turns-Keeps f w p =
      Leaves-outcome (f w.turn_manager).0 _ (record { all = p.all; same_least = p.same_least })

  pub with_smart_turn-Keeps :
      {A : Type 0} (a : A) (f : S → Outcome A × S) (w : DetectorWorker D S)
      → Rechecks D S Q least w
      → Keeps (with_smart_turn a f w)
  unfolding with_smart_turn
  with_smart_turn-Keeps {A} a f w p = go w.smart_turn
    where
      go : (o : Option S) → Keeps (smart_turn_or a f o w)
      go none = gives a w tt p
      go (some s) = Leaves-outcome (f s).0 _ (record { all = p.all; same_least = p.same_least })

  pub each_detector-Keeps :
      (f : D → Outcome (Unit {0}) × D) (w : DetectorWorker D S)
      → Rechecks D S Q least w
      → Keeps (each_detector f w)
  unfolding each_detector
  each_detector-Keeps f w p = Leaves-outcome _ _ (record { all = p.all; same_least = p.same_least })

  pub with_detector-Keeps :
      {A : Type 0} (i : ℕ) (a : A) (f : D → Outcome A × D) (w : DetectorWorker D S)
      → Rechecks D S Q least w
      → Keeps (with_detector i a f w)
  unfolding with_detector
  with_detector-Keeps i a f w p =
      Leaves-outcome _ _ (record { all = p.all; same_least = p.same_least })

  pub log-Keeps :
      ⦃env : WorkerEnv⦄ (e : WorkerEvent) (w : DetectorWorker D S)
      → Rechecks D S Q least w
      → Keeps (log e w)
  unfolding log
  log-Keeps e w p = Leaves-outcome _ _ (record { all = p.all; same_least = p.same_least })

  module _ ⦃detector : AudioDetector D⦄ ⦃smart : SmartTurn S⦄ ⦃env : WorkerEnv⦄ where
    -- An action takes rechecks away, and adds none.
    apply_action-Keeps :
        (action : DetectorAction) (w : DetectorWorker D S)
        → Rechecks D S Q least w
        → Keeps (apply_action action w)
    unfolding apply_action
    apply_action-Keeps (reset_eou_state r) w p =
        Leaves-continue
          (set_rechecks-Keeps _ w p (
            if_both (All Q) (str_eq r.reason "vad_speech_start") p.all
              (All-retain Q (λ k. not (is_of r.ids.stream_session_id k)) _ p.all)))
          λ _ w1 _ p1.
            Leaves-continue (with_smart_turn-Keeps tt _ w1 p1)
              λ _ w2 _ p2. each_detector-Keeps _ w2 p2

    pub apply_actions-Keeps :
        (actions : List DetectorAction) (w : DetectorWorker D S)
        → Rechecks D S Q least w
        → Keeps (apply_actions actions w)
    unfolding apply_actions
    apply_actions-Keeps [] w p = gives tt w tt p
    apply_actions-Keeps (a ∷ rest) w p =
        Leaves-continue (apply_action-Keeps a w p) λ _ w1 _ p1. apply_actions-Keeps rest w1 p1

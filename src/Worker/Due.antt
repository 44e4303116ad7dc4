-- ===== src/Worker/Due.antt =====
-- Proofs on the rechecks that are due when audio comes (process_due_semantic_rechecks of
-- crates/speech-core-daemon/src/detectors/mod.rs).
use speech_core.Base.{
  ℕ, not, ◌&&◌, ◌||◌, String, Option, none, some, List, [], ◌∷◌, ◌++◌, ◌≡◌, refl, if◌then◌else◌,
  if_both, All, All-append, ltb,
}
use speech_core.Turn.Local.{Outcome, ok}
use speech_core.Worker.Interfaces.{AudioDetector, SmartTurn}
use speech_core.Worker.State.{SemanticRecheckState, DetectorWorker, WorkerEnv, W}
use speech_core.Worker.Events.{is_of, is_empty}
use speech_core.Worker.Signals.{
  close_rechecked, reschedule, recheck_due, recheck_at, recheck_all, recheck_with,
  process_due_semantic_rechecks,
}
use speech_core.Worker.Rechecks.{Lasts, predict-Keeps}
use speech_core.Worker.Leaves.{
  Leaves, gives, Leaves-continue, Rechecks, Keeps, set_rechecks-Keeps, with_turns-Keeps, log-Keeps,
  apply_actions-Keeps,
}

-- The work keeps the rechecks, and gives a list of such.
abbrev KeepsList :
    {D S : Type 0} (Q : SemanticRecheckState → Type 0)
    → ℕ
    → Outcome (List SemanticRecheckState) × DetectorWorker D S
    → Type 0
KeepsList {D} {S} Q least r = Leaves (Rechecks D S Q least) (All Q) r

abbrev Kept :
    (D S : Type 0) (Q : SemanticRecheckState → Type 0)
    → ℕ
    → W D S (List SemanticRecheckState)
    → Type 0
Kept D S Q least m = (w : DetectorWorker D S) → Rechecks D S Q least w → KeepsList Q least (m w)

module _ {D S : Type 0} ⦃detector : AudioDetector D⦄ ⦃smart : SmartTurn S⦄ ⦃env : WorkerEnv⦄ where
  module _ (Q : SemanticRecheckState → Type 0) (least : ℕ) where
    close_rechecked-Kept :
        (r : SemanticRecheckState) (at : ℕ) → Kept D S Q least (close_rechecked r at)
    unfolding close_rechecked
    close_rechecked-Kept r at w p =
        Leaves-continue (with_turns-Keeps Q least _ w p) λ actions w1 _ p1.
          Leaves-continue (apply_actions-Keeps Q least actions w1 p1) λ _ w2 _ p2. gives [] w2 tt p2

    reschedule-Kept : (r : SemanticRecheckState) (at : ℕ) → Q r → Kept D S Q least (reschedule r at)
    unfolding reschedule
    reschedule-Kept r at q w p = Leaves-continue (log-Keeps Q least _ w p) λ _ w1 _ p1.
        gives _ w1 (if_both (All Q) (is_empty r.pending_decision_samples) tt (q, tt)) p1

    recheck_due-Kept :
        (r : SemanticRecheckState) (at : ℕ) → Q r → Kept D S Q least (recheck_due r at)
    unfolding recheck_due
    recheck_due-Kept r at q w p = Leaves-continue (predict-Keeps Q least _ _ _ _ w p) λ d w1 _ p1.
        Leaves-continue (with_turns-Keeps Q least _ w1 p1) λ _ w2 _ p2.
          if_both (λ (m : W D S (List SemanticRecheckState)). KeepsList Q least (m w2))
            (d.available && d.complete) (close_rechecked-Kept r at w2 p2)
            (if_both (λ (m : W D S (List SemanticRecheckState)). KeepsList Q least (m w2))
              d.available (reschedule-Kept r at q w2 p2) (gives [] w2 tt p2))

    recheck_at-Kept :
        (id : String) (audio_end : ℕ) (r : SemanticRecheckState)
        → Lasts Q
        → Q r
        → Kept D S Q least (recheck_at id audio_end r)
    unfolding recheck_at
    recheck_at-Kept id audio_end r lasts q w p = go r.pending_decision_samples refl
      where
        go :
            (pending : List ℕ)
            → r.pending_decision_samples ≡ pending
            → Leaves (Rechecks D S Q least) (All Q) (
                (elim pending as (λ _. W D S (List SemanticRecheckState)) [
                  | [] ↦ λ w1. (ok [], w1)
                  | next ∷ later ↦
                      if not (is_of id r) || ltb audio_end next
                      then (λ w1. (ok (r ∷ []), w1))
                      else recheck_due (record r { pending_decision_samples = later }) next
                ])
                  w)
        go [] e = gives [] w tt p
        go (next ∷ later) e =
            if_both (λ (m : W D S (List SemanticRecheckState)). KeepsList Q least (m w))
              (not (is_of id r) || ltb audio_end next) (gives (r ∷ []) w (q, tt) p)
              (recheck_due-Kept _ next (lasts r next later e q) w p)

    recheck_all-Keeps :
        (id : String) (audio_end : ℕ) (rs keep : List SemanticRecheckState) (w : DetectorWorker D S)
        → Lasts Q
        → All Q rs
        → All Q keep
        → Rechecks D S Q least w
        → Keeps Q least (recheck_all id audio_end rs keep w)
    unfolding recheck_all
    recheck_all-Keeps id audio_end [] keep w lasts all kept p =
        set_rechecks-Keeps Q least keep w p kept
    recheck_all-Keeps id audio_end (r ∷ rs) keep w lasts all kept p =
        Leaves-continue (recheck_at-Kept id audio_end r lasts all.0 w p) λ more w1 new p1.
          recheck_all-Keeps id audio_end rs (keep ++ more) w1 lasts all.1
            (All-append Q keep more kept new) p1

    pub process_due-Keeps :
        (id : String) (audio_end : ℕ) (w : DetectorWorker D S)
        → Lasts Q
        → Rechecks D S Q least w
        → Keeps Q least (process_due_semantic_rechecks id audio_end w)
    unfolding process_due_semantic_rechecks
    process_due-Keeps id audio_end w lasts p = go w.smart_turn
      where
        go : (o : Option S) → Keeps Q least (recheck_with id audio_end o w)
        go none = gives tt w tt p
        go (some _) =
            Leaves-continue (set_rechecks-Keeps Q least [] w p tt) λ _ w1 _ p1.
              recheck_all-Keeps id audio_end w.semantic_rechecks [] w1 lasts p.all tt p1

-- ===== src/Turn/Align/Untouched.antt =====
-- Proofs on what the waits of Turn/Align leave alone
-- (crates/speech-core-daemon/src/detectors/turn.rs).
use speech_core.Base.{leb, ◌-◌, ℕ, zero, suc, String, ◌≡◌, refl, Option, none, some, if_both, ◌∙◌}
use speech_core.Base.Int.{ℤ}
use speech_core.Turn.Signals.{Ids, ModelDrainHandle}
use speech_core.Turn.Local.{Env, Local}
use speech_core.Turn.Align.Waits.{
  committed_audio, still_since, pause, sleep, progress_loop, wait_for_model_progress_until,
  wait_for_model_progress, quiescence_loop, wait_for_token_quiescence_until, Boundary, token_end,
}
use speech_core.Turn.Align.{
  drained_well, run_drain, DrainPhase, waited_phase, phase_choice, progress_phase,
  align_model_for_close,
}

pub record SameBut (l l' : Local) : Type 0 where
  pub session : l'.session ≡ l.session
  pub sent : l'.sent ≡ l.sent

-- The same of a result with the state after it.
pub record Keeps {A : Type 0} (l : Local) (r : A × Local) : Type 0 where
  pub after : SameBut l r.1

abbrev pub unchanged : (l : Local) → SameBut l l
unchanged l = record { session = refl; sent = refl }

trans : {a b c : Local} → SameBut a b → SameBut b c → SameBut a c
trans p q = record { session = q.session ∙ p.session; sent = q.sent ∙ p.sent }

stay : {A : Type 0} {a : A} (l : Local) → Keeps l (a, l)
stay l = record { after = unchanged l }

follow : {A : Type 0} {l l' : Local} {r : A × Local} → SameBut l l' → Keeps l' r → Keeps l r
follow p q = record { after = trans p q.after }

module _ ⦃env : Env⦄ where
  sleep-SameBut : (pause : ℕ) (l : Local) → SameBut l (sleep pause l)
  unfolding sleep
  sleep-SameBut pause l = record { session = refl; sent = refl }

  progress_loop-SameBut :
      (fuel : ℕ) (id : String) (target deadline : ℕ) (l : Local)
      → Keeps l (progress_loop fuel id target deadline l)
  unfolding progress_loop
  progress_loop-SameBut zero id target deadline l = stay l
  progress_loop-SameBut (suc fuel) id target deadline l =
      if_both (Keeps l) (leb target (committed_audio id l)) (stay l) (
        if_both (Keeps l) (leb deadline l.now_ns) (stay l)
          (follow (sleep-SameBut _ l) (progress_loop-SameBut fuel id target deadline (sleep _ l))))

  quiescence_loop-SameBut :
      (fuel : ℕ) (id : String) (deadline stable started : ℕ) (seen : Option ℕ) (since : ℕ)
      (l : Local)
      → Keeps l (quiescence_loop fuel id deadline stable started seen since l)
  unfolding quiescence_loop
  quiescence_loop-SameBut zero id deadline stable started seen since l = stay l
  quiescence_loop-SameBut (suc fuel) id deadline stable started seen since l =
      let since' = still_since (token_end id l) seen since l.now_ns in
      if_both (Keeps l) (leb deadline l.now_ns) (stay l) (
        if_both (Keeps l) (leb stable (l.now_ns - since')) (stay l) (
          follow (sleep-SameBut (pause deadline stable since' l.now_ns) l) (
            quiescence_loop-SameBut fuel id deadline stable started (token_end id l) since'
              (sleep _ l))))

  wait_for_model_progress_until-SameBut :
      (id : String) (target deadline : ℕ) (l : Local)
      → Keeps l (wait_for_model_progress_until id target deadline l)
  unfolding wait_for_model_progress_until
  wait_for_model_progress_until-SameBut id target deadline l =
      progress_loop-SameBut _ id target deadline l

  wait_for_token_quiescence_until-SameBut :
      (id : String) (deadline stable : ℕ) (l : Local)
      → Keeps l (wait_for_token_quiescence_until id deadline stable l)
  unfolding wait_for_token_quiescence_until
  wait_for_token_quiescence_until-SameBut id deadline stable l =
      quiescence_loop-SameBut _ id deadline stable _ _ _ l

  pub wait_for_model_progress-SameBut :
      (id : String) (target timeout : ℕ) (l : Local)
      → SameBut l (wait_for_model_progress id target timeout l)
  unfolding wait_for_model_progress
  wait_for_model_progress-SameBut id target timeout l =
      (wait_for_model_progress_until-SameBut id target _ l).after

  run_drain-SameBut :
      (drain : Option ModelDrainHandle) (ids : Ids) (target : ℕ) (reason : String) (deadline : ℕ)
      (l : Local)
      → Keeps l (run_drain drain ids target reason deadline l)
  unfolding run_drain
  run_drain-SameBut none ids target reason deadline l = stay l
  run_drain-SameBut (some handle) ids target reason deadline l = record {
    after = record { session = refl; sent = refl };
  }

  waited_phase-SameBut :
      (id : String) (at_close : Option ℤ) (b : Boundary) (deadline : ℕ) (l : Local)
      → Keeps l (waited_phase id at_close b deadline l)
  unfolding waited_phase
  waited_phase-SameBut id at_close b deadline l = record {
    after =
        trans (wait_for_model_progress_until-SameBut id b.decision_sample deadline l).after
          (wait_for_token_quiescence_until-SameBut id deadline _ _).after;
  }

  progress_phase-SameBut :
      (id : String) (d : DrainPhase) (b : Boundary) (deadline : ℕ) (l : Local)
      → Keeps l (progress_phase id d b deadline l)
  unfolding progress_phase phase_choice
  progress_phase-SameBut id d b deadline l =
      elim l.progress as (λ p. Keeps l (phase_choice p id d b deadline l)) [
        | none ↦ stay l
        | some p ↦
            if_both (Keeps l) (drained_well d) (stay l)
              (waited_phase-SameBut id d.buffered_ms_at_close b deadline l)
      ]

  pub align_model_for_close-SameBut :
      (drain : Option ModelDrainHandle) (ids : Ids) (end_sample decision_sample : ℕ)
      (reason : String) (timeout : ℕ) (l : Local)
      → SameBut l (align_model_for_close drain ids end_sample decision_sample reason timeout l).1
  unfolding align_model_for_close
  align_model_for_close-SameBut drain ids end_sample decision_sample reason timeout l =
      trans (run_drain-SameBut drain ids decision_sample reason _ l).after
        (progress_phase-SameBut ids.stream_session_id _ _ _ _).after

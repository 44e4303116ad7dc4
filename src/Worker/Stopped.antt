-- ===== src/Worker/Stopped.antt =====
-- Proofs on the end of the detector worker's thread (DetectorIngress::start of
-- crates/speech-core-daemon/src/detectors/mod.rs).
use speech_core.Base.{
  Bool, true, false, ◌&&◌, ◌||◌, String, none, List, [], ◌∷◌, ◌++◌, ◌≡◌, refl, sym, ap, subst,
  if◌then◌else◌, if_both,
}
use speech_core.Base.Maps.{lookup}
use speech_core.Turn.Live.{IsLive}
use speech_core.Turn.Finalize.{finalize_all-IsGone}
use speech_core.Worker.Interfaces.{AudioDetector, SmartTurn}
use speech_core.Worker.State.{DetectorWorker, WorkerEnv}
use speech_core.Worker.Commands.{
  DetectorCommand, start_detection, audio_frame, token_committed, end_detection, gap_reset_command,
  shutdown, should_stop, handle, finalize_worker,
}
use speech_core.Worker.Queue.{
  LoopPhase, taking_controls, taking_audio, finished, QueueState, new_queue, is_end_session,
  handle_next, after_all, drain_audio, take_control, take_audio, loop_step, offer_frame,
  send_request,
}
use speech_core.Worker.Histories.{
  Delivered, begun, requested, taken_in, dropped, unlogged, left, stepped,
}
use speech_core.Worker.Thread.{worker_after, end_thread}

-- A shutdown is among the commands handled, with those handled after it.
pub record HasShutdown (handled : List DetectorCommand) : Type 0 where
  pub after : List DetectorCommand
  pub before : List DetectorCommand
  pub split : handled ≡ after ++ shutdown ∷ before

HasShutdown-more :
    (c : DetectorCommand) (h : List DetectorCommand) → HasShutdown h → HasShutdown (c ∷ h)
HasShutdown-more c h s = record {
  after = c ∷ s.after;
  before = s.before;
  split = ap (λ t. c ∷ t) s.split;
}

HasShutdown-after_all : (a h : List DetectorCommand) → HasShutdown h → HasShutdown (after_all a h)
HasShutdown-after_all [] h s = s
HasShutdown-after_all (c ∷ rest) h s = HasShutdown-after_all rest (c ∷ h) (HasShutdown-more c h s)

should_stop-HasShutdown :
    (c : DetectorCommand) (h : List DetectorCommand) → should_stop c ≡ true → HasShutdown (c ∷ h)
unfolding should_stop
should_stop-HasShutdown shutdown h e = record { after = []; before = h; split = refl }
should_stop-HasShutdown (start_detection hello) h e = cc
should_stop-HasShutdown (audio_frame frame ingress) h e = cc
should_stop-HasShutdown (token_committed token) h e = cc
should_stop-HasShutdown (end_detection ids reason) h e = cc
should_stop-HasShutdown (gap_reset_command gap) h e = cc

-- The loop ends itself only after a shutdown.
abbrev IsGraceful : QueueState → Type 0
IsGraceful q = q.graceful_shutdown ≡ true → HasShutdown q.handled

handle_next-IsGraceful :
    (c : DetectorCommand) (q : QueueState) → IsGraceful q → IsGraceful (handle_next c q)
unfolding handle_next
handle_next-IsGraceful c q was = go q.graceful_shutdown refl
  where
    go :
        (b : Bool)
        → q.graceful_shutdown ≡ b
        → (b || should_stop c) ≡ true
        → HasShutdown (c ∷ q.handled)
    go true e h = HasShutdown-more c q.handled (was e)
    go false e h = should_stop-HasShutdown c q.handled h

drain_audio-IsGraceful : (q : QueueState) → IsGraceful q → IsGraceful (drain_audio q)
unfolding drain_audio
drain_audio-IsGraceful q was h = HasShutdown-after_all q.audio q.handled (was h)

take_control-IsGraceful : (q : QueueState) → IsGraceful q → IsGraceful (take_control q)
unfolding take_control
take_control-IsGraceful q was = go q.control
  where
    go :
        (l : List DetectorCommand)
        → IsGraceful (elim l as (λ _. QueueState) [
          | [] ↦ record q {
            control_closed = q.control_closed || q.disconnected;
            phase = if q.graceful_shutdown then finished else taking_audio;
          }
          | c ∷ rest ↦ handle_next c (
              if is_end_session c
              then drain_audio (record q { control = rest })
              else record q { control = rest })
        ])
    go [] = was
    go (c ∷ rest) = handle_next-IsGraceful c _ (
        if_both IsGraceful (is_end_session c)
          (drain_audio-IsGraceful (record q { control = rest }) was) was)

take_audio-IsGraceful : (q : QueueState) → IsGraceful q → IsGraceful (take_audio q)
unfolding take_audio
take_audio-IsGraceful q was = go q.audio
  where
    go :
        (l : List DetectorCommand)
        → IsGraceful (elim l as (λ _. QueueState) [
          | [] ↦ record q {
            audio_closed = q.audio_closed || q.disconnected;
            phase =
                if q.control_closed && (q.audio_closed || q.disconnected)
                then finished
                else taking_controls;
          }
          | c ∷ rest ↦ record (handle_next c (record q { audio = rest })) {
            phase =
                if (handle_next c (record q { audio = rest })).graceful_shutdown
                  || (q.control_closed && q.audio_closed)
                then finished
                else taking_controls;
          }
        ])
    go [] = was
    go (c ∷ rest) = handle_next-IsGraceful c (record q { audio = rest }) was

loop_step-IsGraceful : (q : QueueState) → IsGraceful q → IsGraceful (loop_step q)
unfolding loop_step
loop_step-IsGraceful q was = go q.phase
  where
    go :
        (phase : LoopPhase)
        → IsGraceful (elim phase as (λ _. QueueState) [
          | taking_controls ↦ take_control q
          | taking_audio ↦ take_audio q
          | finished ↦ q
        ])
    go taking_controls = take_control-IsGraceful q was
    go taking_audio = take_audio-IsGraceful q was
    go finished = was

Delivered-IsGraceful :
    (cs fs : List DetectorCommand) (q : QueueState) → Delivered cs fs q → IsGraceful q
unfolding new_queue send_request offer_frame
Delivered-IsGraceful _ _ _ begun = λ h. cc
Delivered-IsGraceful _ _ _ (requested r cs fs q past) = Delivered-IsGraceful cs fs q past
Delivered-IsGraceful _ _ _ (taken_in n ingress logged frame cs fs q past room) =
    if_both IsGraceful _ (Delivered-IsGraceful cs fs q past) (
      if_both IsGraceful logged (Delivered-IsGraceful cs fs q past)
        (Delivered-IsGraceful cs fs q past))
Delivered-IsGraceful _ _ _ (unlogged n ingress frame cs fs q past full) =
    if_both IsGraceful _ (Delivered-IsGraceful cs fs q past) (Delivered-IsGraceful cs fs q past)
Delivered-IsGraceful _ _ _ (dropped n ingress frame cs fs q past full) =
    if_both IsGraceful _ (Delivered-IsGraceful cs fs q past) (Delivered-IsGraceful cs fs q past)
Delivered-IsGraceful _ _ _ (left cs fs q past) = Delivered-IsGraceful cs fs q past
Delivered-IsGraceful _ _ _ (stepped cs fs q past) =
    loop_step-IsGraceful q (Delivered-IsGraceful cs fs q past)

-- What the thread leaves of the worker: no turn session, unless a command came after a shutdown.
pub data ThreadEnd {D S : Type 0} (handled : List DetectorCommand) (w : DetectorWorker D S)
    : Type 0 where
  all_ended : ((key : String) → lookup key w.turn_manager.sessions ≡ none) → ThreadEnd handled w
  went_on :
      (c : DetectorCommand) (after before : List DetectorCommand)
      → handled ≡ c ∷ after ++ shutdown ∷ before
      → ThreadEnd handled w

module _ {D S : Type 0} ⦃detector : AudioDetector D⦄ ⦃smart : SmartTurn S⦄ ⦃env : WorkerEnv⦄
    (live : IsLive env.turns) where
  finalize_worker-IsEmpty :
      (reason key : String) (w : DetectorWorker D S)
      → lookup key (finalize_worker reason w).1.turn_manager.sessions ≡ none
  unfolding finalize_worker
  finalize_worker-IsEmpty reason key w =
      (finalize_all-IsGone ⦃env = env.turns⦄ live reason key w.turn_manager).1

  shut_down :
      (after before handled : List DetectorCommand) (w : DetectorWorker D S)
      → handled ≡ after ++ shutdown ∷ before
      → ThreadEnd handled (worker_after handled w)
  unfolding worker_after handle
  shut_down [] before handled w e =
      subst (λ h. ThreadEnd h (worker_after h w)) (sym e)
        (all_ended
          (λ key. finalize_worker-IsEmpty "detector worker shutdown" key (worker_after before w)))
  shut_down (c ∷ after) before handled w e = went_on c after before e

  -- While the log's worker runs, whoever has sent what and when, the detector worker's thread
  -- leaves the turn manager without a session when its loop ends, by a shutdown or because the
  -- senders are gone, unless it handled another command after the shutdown.
  pub end_thread-ThreadEnd :
      (cs fs : List DetectorCommand) (q : QueueState) (w : DetectorWorker D S)
      → Delivered cs fs q
      → ThreadEnd q.handled (end_thread q w)
  unfolding end_thread
  end_thread-ThreadEnd cs fs q w history = go q.graceful_shutdown refl
    where
      last : DetectorWorker D S
      last = worker_after q.handled w

      go :
          (b : Bool)
          → q.graceful_shutdown ≡ b
          → ThreadEnd q.handled
              (if b then last else (finalize_worker "detector worker channel closed" last).1)
      go true e =
          let s = Delivered-IsGraceful cs fs q history e in
          shut_down s.after s.before q.handled w s.split
      go false e =
          all_ended (λ key. finalize_worker-IsEmpty "detector worker channel closed" key last)

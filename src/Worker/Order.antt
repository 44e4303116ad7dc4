-- ===== src/Worker/Order.antt =====
-- Proofs on the end of a session in the loop of the detector worker (DetectorIngress of
-- crates/speech-core-daemon/src/detectors/mod.rs).
use speech_core.Base.{
  ◌||◌, List, [], ◌∷◌, ◌++◌, ◌≡◌, refl, sym, ◌∙◌, ap, subst, if◌then◌else◌, All, String,
}
use mathlib.Core.List.{append-nil}
use speech_core.Turn.Signals.{Ids}
use speech_core.Worker.Commands.{DetectorCommand, end_detection}
use speech_core.Worker.Queue.{
  LoopPhase, taking_controls, taking_audio, finished, QueueState, is_end_session, handle_next,
  after_all, drain_audio, take_control, take_audio, loop_step,
}
use speech_core.Worker.Histories.{IsControl, controls_in, frames_in, Delivered, IsFifo}
use speech_core.Worker.Fifo.{drained-IsFifo, Delivered-IsFifo}

-- The loop takes a control command.
loop_step-take_control : (q : QueueState) → q.phase ≡ taking_controls → loop_step q ≡ take_control q
unfolding loop_step
loop_step-take_control q at =
    ap
      (λ (phase : LoopPhase). elim phase as (λ _. QueueState) [
        | taking_controls ↦ take_control q
        | taking_audio ↦ take_audio q
        | finished ↦ q
      ])
      at

take_control-end :
    (ids : Ids) (reason : String) (rest : List DetectorCommand) (q : QueueState)
    → q.control ≡ end_detection ids reason ∷ rest
    → take_control q
      ≡ handle_next (end_detection ids reason) (drain_audio (record q { control = rest }))
unfolding take_control is_end_session
take_control-end ids reason rest q e =
    ap
      (λ (l : List DetectorCommand). elim l as (λ _. QueueState) [
        | [] ↦ record q {
          control_closed = q.control_closed || q.disconnected;
          phase = if q.graceful_shutdown then finished else taking_audio;
        }
        | c ∷ others ↦ handle_next c (
            if is_end_session c
            then drain_audio (record q { control = others })
            else record q { control = others })
      ])
      e

-- Whoever has sent what and when, a loop that takes the end of a session has by then handled all
-- frames ever taken in, in their order, and all control commands sent before it, in theirs.
pub loop_step-end_detection :
    (ids : Ids) (reason : String) (rest cs fs : List DetectorCommand) (q : QueueState)
    → Delivered cs fs q
    → q.phase ≡ taking_controls
    → q.control ≡ end_detection ids reason ∷ rest
    → ((loop_step q).handled ≡ end_detection ids reason ∷ after_all q.audio q.handled)
      × (frames_in (loop_step q).handled ≡ fs)
      × (controls_in (loop_step q).handled ++ rest ≡ cs)
unfolding handle_next drain_audio
loop_step-end_detection ids reason rest cs fs q history at first =
    subst
      (λ (t : QueueState).
        (t.handled ≡ end_detection ids reason ∷ after_all q.audio q.handled)
        × (frames_in t.handled ≡ fs)
        × (controls_in t.handled ++ rest ≡ cs))
      (sym (loop_step-take_control q at ∙ take_control-end ids reason rest q first))
      (refl, sym (append-nil _) ∙ after.3, after.2)
  where
    fifo : IsFifo cs fs q
    fifo = Delivered-IsFifo cs fs q history

    after :
        IsFifo cs fs
          (handle_next (end_detection ids reason) (drain_audio (record q { control = rest })))
    after =
        drained-IsFifo (end_detection ids reason) rest cs fs q tt
          (subst (All IsControl) first fifo.0).1 fifo.1
          (subst (λ l. controls_in q.handled ++ l ≡ cs) first fifo.2) fifo.3

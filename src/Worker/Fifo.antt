-- ===== src/Worker/Fifo.antt =====
-- Proofs that the loop of the detector worker handles each of its channels in order
-- (DetectorIngress of crates/speech-core-daemon/src/detectors/mod.rs).
use speech_core.Base.{
  ◌&&◌, ◌||◌, List, [], ◌∷◌, ◌++◌, ◌≡◌, refl, sym, ◌∙◌, ap, subst, if◌then◌else◌, if_both, All,
  All-append,
}
use mathlib.Core.List.{append-nil, append_assoc}
use speech_core.Protocol.Types.{AudioFrame}
use speech_core.Daemon.Streams.{from_dropped_frame}
use speech_core.Worker.Commands.{DetectorCommand, audio_frame, gap_reset_command}
use speech_core.Worker.Queue.{
  LoopPhase, taking_controls, taking_audio, finished, QueueState, new_queue, is_end_session,
  handle_next, after_all, drain_audio, take_control, take_audio, loop_step, offer_frame, command_of,
  send_request,
}
use speech_core.Worker.Histories.{
  IsFrame, IsControl, controls_in, frames_in, Delivered, IsFifo, controls_in-control,
  frames_in-frame, frames_in-after_all, command_of-IsControl, begun, requested, taken_in, dropped,
  unlogged, left, stepped,
}

handle_next-control :
    (c : DetectorCommand) (rest cs fs : List DetectorCommand) (q : QueueState)
    → IsControl c
    → All IsControl rest
    → All IsFrame q.audio
    → controls_in q.handled ++ c ∷ rest ≡ cs
    → frames_in q.handled ++ q.audio ≡ fs
    → IsFifo cs fs (handle_next c (record q { control = rest }))
unfolding handle_next
handle_next-control c rest cs fs q i controls frames same_controls same_frames =
    let one = controls_in-control c q.handled i in
    (
      controls,
      frames,
      ap (λ t. t ++ rest) one.0
          ∙ append_assoc (controls_in q.handled) (c ∷ []) rest
          ∙ same_controls,
      ap (λ t. t ++ q.audio) one.1 ∙ same_frames,
    )

handle_next-frame :
    (c : DetectorCommand) (rest cs fs : List DetectorCommand) (q : QueueState)
    → IsFrame c
    → All IsFrame rest
    → All IsControl q.control
    → controls_in q.handled ++ q.control ≡ cs
    → frames_in q.handled ++ c ∷ rest ≡ fs
    → IsFifo cs fs (handle_next c (record q { audio = rest }))
unfolding handle_next
handle_next-frame c rest cs fs q i frames controls same_controls same_frames =
    let one = frames_in-frame c q.handled i in
    (
      controls,
      frames,
      ap (λ t. t ++ q.control) one.0 ∙ same_controls,
      ap (λ t. t ++ rest) one.1 ∙ append_assoc (frames_in q.handled) (c ∷ []) rest ∙ same_frames,
    )

-- An end is handled after all the frames that wait.
pub drained-IsFifo :
    (c : DetectorCommand) (rest cs fs : List DetectorCommand) (q : QueueState)
    → IsControl c
    → All IsControl rest
    → All IsFrame q.audio
    → controls_in q.handled ++ c ∷ rest ≡ cs
    → frames_in q.handled ++ q.audio ≡ fs
    → IsFifo cs fs (handle_next c (drain_audio (record q { control = rest })))
unfolding drain_audio
drained-IsFifo c rest cs fs q i controls frames same_controls same_frames =
    let all = frames_in-after_all q.audio q.handled frames in
    handle_next-control c rest cs fs (drain_audio q) i controls tt
      (ap (λ t. t ++ c ∷ rest) all.0 ∙ same_controls)
      (append-nil (frames_in (after_all q.audio q.handled)) ∙ all.1 ∙ same_frames)

take_control-IsFifo :
    (cs fs : List DetectorCommand) (q : QueueState) → IsFifo cs fs q → IsFifo cs fs (take_control q)
unfolding take_control
take_control-IsFifo cs fs q (controls, frames, same_controls, same_frames) =
    go q.control controls same_controls
  where
    go :
        (l : List DetectorCommand)
        → All IsControl l
        → controls_in q.handled ++ l ≡ cs
        → IsFifo cs fs (elim l as (λ _. QueueState) [
          | [] ↦ record q {
            control_closed = q.control_closed || q.disconnected;
            phase = if q.graceful_shutdown then finished else taking_audio;
          }
          | c ∷ rest ↦ handle_next c (
              if is_end_session c
              then drain_audio (record q { control = rest })
              else record q { control = rest })
        ])
    go [] all e = (controls, frames, same_controls, same_frames)
    go (c ∷ rest) all e =
        if_both (λ t. IsFifo cs fs (handle_next c t)) (is_end_session c)
          (drained-IsFifo c rest cs fs q all.0 all.1 frames e same_frames)
          (handle_next-control c rest cs fs q all.0 all.1 frames e same_frames)

take_audio-IsFifo :
    (cs fs : List DetectorCommand) (q : QueueState) → IsFifo cs fs q → IsFifo cs fs (take_audio q)
unfolding take_audio
take_audio-IsFifo cs fs q (controls, frames, same_controls, same_frames) =
    go q.audio frames same_frames
  where
    go :
        (l : List DetectorCommand)
        → All IsFrame l
        → frames_in q.handled ++ l ≡ fs
        → IsFifo cs fs (elim l as (λ _. QueueState) [
          | [] ↦ record q {
            audio_closed = q.audio_closed || q.disconnected;
            phase =
                if q.control_closed && (q.audio_closed || q.disconnected)
                then finished
                else taking_controls;
          }
          | c ∷ rest ↦ record (handle_next c (record q { audio = rest })) {
            phase =
                if (handle_next c (record q { audio = rest })).graceful_shutdown
                  || (q.control_closed && q.audio_closed)
                then finished
                else taking_controls;
          }
        ])
    go [] all e = (controls, frames, same_controls, same_frames)
    go (c ∷ rest) all e = handle_next-frame c rest cs fs q all.0 all.1 controls same_controls e

loop_step-IsFifo :
    (cs fs : List DetectorCommand) (q : QueueState) → IsFifo cs fs q → IsFifo cs fs (loop_step q)
unfolding loop_step
loop_step-IsFifo cs fs q fifo = go q.phase
  where
    go :
        (phase : LoopPhase)
        → IsFifo cs fs (elim phase as (λ _. QueueState) [
          | taking_controls ↦ take_control q
          | taking_audio ↦ take_audio q
          | finished ↦ q
        ])
    go taking_controls = take_control-IsFifo cs fs q fifo
    go taking_audio = take_audio-IsFifo cs fs q fifo
    go finished = fifo

-- A command sent goes to the end of its channel.
sent-IsFifo :
    (c : DetectorCommand) (cs fs : List DetectorCommand) (q : QueueState)
    → IsControl c
    → IsFifo cs fs q
    → IsFifo (cs ++ c ∷ []) fs (record q { control = q.control ++ c ∷ [] })
sent-IsFifo c cs fs q i (controls, frames, same_controls, same_frames) = (
  All-append IsControl q.control (c ∷ []) controls (i, tt),
  frames,
  sym (append_assoc (controls_in q.handled) q.control (c ∷ []))
      ∙ ap (λ t. t ++ c ∷ []) same_controls,
  same_frames,
)

abbrev gap_for : AudioFrame → DetectorCommand
gap_for frame = gap_reset_command (from_dropped_frame frame "detector_worker_audio_queue_full")

abbrev overflow : AudioFrame → QueueState → QueueState
overflow frame q = record q { control = q.control ++ gap_for frame ∷ [] }

pub Delivered-IsFifo :
    (cs fs : List DetectorCommand) (q : QueueState) → Delivered cs fs q → IsFifo cs fs q
unfolding new_queue send_request offer_frame
Delivered-IsFifo _ _ _ begun = (tt, tt, refl, refl)
Delivered-IsFifo _ _ _ (requested r cs fs q before) =
    sent-IsFifo (command_of r) cs fs q (command_of-IsControl r) (Delivered-IsFifo cs fs q before)
Delivered-IsFifo _ _ _ (taken_in n ingress logged frame cs fs q before room) =
    subst
      (λ b. IsFifo cs (fs ++ audio_frame frame ingress ∷ []) (
        if b
        then record q { audio = q.audio ++ audio_frame frame ingress ∷ [] }
        else if logged
        then overflow frame q
        else q))
      (sym room)
      (let fifo = Delivered-IsFifo cs fs q before in
        (
          fifo.0,
          All-append IsFrame q.audio (audio_frame frame ingress ∷ []) fifo.1 (tt, tt),
          fifo.2,
          sym (append_assoc (frames_in q.handled) q.audio (audio_frame frame ingress ∷ []))
              ∙ ap (λ t. t ++ audio_frame frame ingress ∷ []) fifo.3,
        ))
Delivered-IsFifo _ _ _ (dropped n ingress frame cs fs q before full) =
    subst
      (λ b. IsFifo (cs ++ gap_for frame ∷ []) fs (
        if b
        then record q { audio = q.audio ++ audio_frame frame ingress ∷ [] }
        else overflow frame q))
      (sym full) (sent-IsFifo (gap_for frame) cs fs q tt (Delivered-IsFifo cs fs q before))
Delivered-IsFifo _ _ _ (unlogged n ingress frame cs fs q before full) =
    subst
      (λ b.
        IsFifo cs fs
          (if b then record q { audio = q.audio ++ audio_frame frame ingress ∷ [] } else q))
      (sym full) (Delivered-IsFifo cs fs q before)
Delivered-IsFifo _ _ _ (left cs fs q before) = Delivered-IsFifo cs fs q before
Delivered-IsFifo _ _ _ (stepped cs fs q before) =
    loop_step-IsFifo cs fs q (Delivered-IsFifo cs fs q before)

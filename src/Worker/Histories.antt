-- ===== src/Worker/Histories.antt =====
-- The histories of the channels to the detector worker (DetectorIngress of
-- crates/speech-core-daemon/src/detectors/mod.rs), and the commands of each channel among those
-- handled.
use speech_core.Base.{
  ℕ, max, Bool, true, false, List, [], ◌∷◌, ◌++◌, ◌≡◌, refl, sym, ◌∙◌, ap, ltb, length, All,
}
use mathlib.Core.List.{append-nil, append_assoc}
use speech_core.Protocol.Types.{AudioFrame}
use speech_core.Daemon.Streams.{from_dropped_frame}
use speech_core.Worker.Commands.{
  DetectorCommand, start_detection, audio_frame, token_committed, end_detection, gap_reset_command,
  shutdown,
}
use speech_core.Worker.Queue.{
  QueueState, new_queue, after_all, loop_step, offer_frame, Request, start_request, token_request,
  end_request, reset_request, shutdown_request, command_of, send_request,
}

abbrev pub IsFrame : DetectorCommand → Type 0
IsFrame (audio_frame frame ingress) = Unit
IsFrame _ = ⊥

abbrev pub IsControl : DetectorCommand → Type 0
IsControl (audio_frame frame ingress) = ⊥
IsControl _ = Unit

-- The control commands, and the frames, among those handled (the newest first), the oldest first.
abbrev pub controls_in : List DetectorCommand → List DetectorCommand
controls_in [] = []
controls_in (audio_frame frame ingress ∷ rest) = controls_in rest
controls_in (c ∷ rest) = controls_in rest ++ c ∷ []

abbrev pub frames_in : List DetectorCommand → List DetectorCommand
frames_in [] = []
frames_in (audio_frame frame ingress ∷ rest) = frames_in rest ++ audio_frame frame ingress ∷ []
frames_in (c ∷ rest) = frames_in rest

-- The histories of a queue, with the control commands sent and the frames taken in so far: others
-- send, at any time, while the loop makes its steps.
pub data Delivered : List DetectorCommand → List DetectorCommand → QueueState → Type 0 where
  begun : Delivered [] [] new_queue
  requested :
      (r : Request) (cs fs : List DetectorCommand) (q : QueueState)
      → Delivered cs fs q
      → Delivered (cs ++ command_of r ∷ []) fs (send_request r q)
  taken_in :
      (n ingress : ℕ) (logged : Bool) (frame : AudioFrame) (cs fs : List DetectorCommand)
      (q : QueueState)
      → Delivered cs fs q
      → ltb (length q.audio) (max n 1) ≡ true
      → Delivered cs (fs ++ audio_frame frame ingress ∷ []) (offer_frame n logged frame ingress q)
  dropped :
      (n ingress : ℕ) (frame : AudioFrame) (cs fs : List DetectorCommand) (q : QueueState)
      → Delivered cs fs q
      → ltb (length q.audio) (max n 1) ≡ false
      → Delivered
          (cs
            ++ gap_reset_command (from_dropped_frame frame "detector_worker_audio_queue_full") ∷ [])
          fs
          (offer_frame n true frame ingress q)
  unlogged :
      (n ingress : ℕ) (frame : AudioFrame) (cs fs : List DetectorCommand) (q : QueueState)
      → Delivered cs fs q
      → ltb (length q.audio) (max n 1) ≡ false
      → Delivered cs fs (offer_frame n false frame ingress q)
  left :
      (cs fs : List DetectorCommand) (q : QueueState)
      → Delivered cs fs q
      → Delivered cs fs (record q { disconnected = true })
  stepped :
      (cs fs : List DetectorCommand) (q : QueueState)
      → Delivered cs fs q
      → Delivered cs fs (loop_step q)

-- Each channel is handled in the order in which it was sent.
abbrev pub IsFifo : List DetectorCommand → List DetectorCommand → QueueState → Type 0
IsFifo cs fs q =
    All IsControl q.control
    × All IsFrame q.audio
    × (controls_in q.handled ++ q.control ≡ cs)
    × (frames_in q.handled ++ q.audio ≡ fs)

pub controls_in-control :
    (c : DetectorCommand) (h : List DetectorCommand)
    → IsControl c
    → (controls_in (c ∷ h) ≡ controls_in h ++ c ∷ []) × (frames_in (c ∷ h) ≡ frames_in h)
controls_in-control (start_detection hello) h i = (refl, refl)
controls_in-control (audio_frame frame ingress) h i = absurd i
controls_in-control (token_committed token) h i = (refl, refl)
controls_in-control (end_detection ids reason) h i = (refl, refl)
controls_in-control (gap_reset_command gap) h i = (refl, refl)
controls_in-control shutdown h i = (refl, refl)

pub frames_in-frame :
    (c : DetectorCommand) (h : List DetectorCommand)
    → IsFrame c
    → (controls_in (c ∷ h) ≡ controls_in h) × (frames_in (c ∷ h) ≡ frames_in h ++ c ∷ [])
frames_in-frame (start_detection hello) h i = absurd i
frames_in-frame (audio_frame frame ingress) h i = (refl, refl)
frames_in-frame (token_committed token) h i = absurd i
frames_in-frame (end_detection ids reason) h i = absurd i
frames_in-frame (gap_reset_command gap) h i = absurd i
frames_in-frame shutdown h i = absurd i

-- Frames that are handled one after the other.
pub frames_in-after_all :
    (a h : List DetectorCommand)
    → All IsFrame a
    → (controls_in (after_all a h) ≡ controls_in h) × (frames_in (after_all a h) ≡ frames_in h ++ a)
frames_in-after_all [] h all = (refl, sym (append-nil (frames_in h)))
frames_in-after_all (c ∷ rest) h all =
    let one = frames_in-frame c h all.0 in
    let others = frames_in-after_all rest (c ∷ h) all.1 in
    (
      others.0 ∙ one.0,
      others.1 ∙ ap (λ t. t ++ rest) one.1 ∙ append_assoc (frames_in h) (c ∷ []) rest,
    )

pub command_of-IsControl : (r : Request) → IsControl (command_of r)
unfolding command_of
command_of-IsControl (start_request hello) = tt
command_of-IsControl (token_request token) = tt
command_of-IsControl (end_request hello reason) = tt
command_of-IsControl (reset_request gap) = tt
command_of-IsControl shutdown_request = tt

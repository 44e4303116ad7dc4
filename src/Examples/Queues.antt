-- ===== src/Examples/Queues.antt =====
-- A run of the channels to the detector worker (DetectorIngress of
-- crates/speech-core-daemon/src/detectors/mod.rs).
use speech_core.Base.{[], ◌∷◌, ◌++◌, ◌≡◌, refl, max, ltb, length, true}
use speech_core.Turn.Local.{hello_ids}
use speech_core.Worker.Commands.{start_detection, audio_frame, end_detection, shutdown}
use speech_core.Worker.Queue.{
  QueueState, taking_controls, new_queue, start_request, end_request, shutdown_request, command_of,
  send_request, offer_frame, handle_next, after_all, take_control, loop_step, is_end_session,
}
use speech_core.Worker.Histories.{
  Delivered, begun, requested, taken_in, stepped, controls_in, frames_in,
}
use speech_core.Worker.Order.{loop_step-end_detection}
use speech_core.Worker.Thread.{end_thread}
use speech_core.Worker.Stopped.{ThreadEnd, end_thread-ThreadEnd}
use speech_core.Worker.Interfaces.{vad_detector}
use speech_core.Examples.Vads.{vad_env}
use speech_core.Examples.Workers.{never_complete, worker_env, busy}
use speech_core.Examples.Data.{hello, frame}

abbrev started_queue : QueueState
started_queue = send_request (start_request hello) new_queue

abbrev heard_queue : QueueState
heard_queue = offer_frame 4 true frame 7 started_queue

-- The loop has taken the start of the session, and its end and a frame wait.
abbrev ending_queue : QueueState
ending_queue = loop_step (send_request (end_request hello "left") heard_queue)

room : ltb (length started_queue.audio) (max 4 1) ≡ true
unfolding send_request new_queue
room = refl

history :
    Delivered
      (start_detection hello ∷ end_detection (hello_ids hello) "left" ∷ [])
      (audio_frame frame 7 ∷ [])
      ending_queue
unfolding command_of
history = stepped _ _ _ (
    requested (end_request hello "left") _ _ _
      (taken_in 4 7 true frame _ _ _ (requested (start_request hello) _ _ _ begun) room))

ending_phase : ending_queue.phase ≡ taking_controls
unfolding loop_step take_control handle_next send_request offer_frame new_queue command_of
    is_end_session
ending_phase = refl

ending_first : ending_queue.control ≡ end_detection (hello_ids hello) "left" ∷ []
unfolding loop_step take_control handle_next send_request offer_frame new_queue command_of
    is_end_session
ending_first = refl

loop_step-end_detection_example :
    ((loop_step ending_queue).handled
      ≡ end_detection (hello_ids hello) "left" ∷ after_all ending_queue.audio ending_queue.handled)
    × (frames_in (loop_step ending_queue).handled ≡ audio_frame frame 7 ∷ [])
    × (controls_in (loop_step ending_queue).handled ++ []
        ≡ start_detection hello ∷ end_detection (hello_ids hello) "left" ∷ [])
loop_step-end_detection_example =
    loop_step-end_detection (hello_ids hello) "left" []
      (start_detection hello ∷ end_detection (hello_ids hello) "left" ∷ [])
      (audio_frame frame 7 ∷ []) ending_queue history ending_phase ending_first

-- A session is started, and then the worker is shut down.
abbrev stopped_queue : QueueState
stopped_queue = loop_step (send_request shutdown_request (loop_step started_queue))

shutdown_history : Delivered (start_detection hello ∷ shutdown ∷ []) [] stopped_queue
unfolding command_of
shutdown_history =
    stepped _ _ _ (
      requested shutdown_request _ _ _
        (stepped _ _ _ (requested (start_request hello) _ _ _ begun)))

stopped_test : stopped_queue.handled ≡ shutdown ∷ start_detection hello ∷ []
unfolding loop_step take_control handle_next send_request new_queue command_of is_end_session
stopped_test = refl

end_thread-ThreadEnd_example : ThreadEnd stopped_queue.handled (
    end_thread ⦃detector = vad_detector vad_env⦄ ⦃smart = never_complete⦄ ⦃env = worker_env⦄
      stopped_queue busy)
end_thread-ThreadEnd_example =
    end_thread-ThreadEnd ⦃detector = vad_detector vad_env⦄ ⦃smart = never_complete⦄
      ⦃env = worker_env⦄ (λ _. refl) (start_detection hello ∷ shutdown ∷ []) [] stopped_queue busy
      shutdown_history

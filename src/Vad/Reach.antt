-- ===== src/Vad/Reach.antt =====
-- Proofs that every session of a voice activity detector stays tracked, whatever calls come
-- (crates/speech-core-daemon/src/detectors/vad.rs).
use speech_core.Base.{
  ℕ, not, ◌||◌, String, str_eq, Option, none, some, List, [], ◌≡◌, refl, sym, ◌∙◌, subst, if_both,
  ◌==◌,
}
use speech_core.Base.Maps.{lookup, insert, remove}
use speech_core.Protocol.Types.{AudioFrame}
use speech_core.Turn.Signals.{DetectorSignal, DetectorAction, reset_eou_state}
use speech_core.Turn.Local.{HelloState}
use speech_core.Turn.Manager.Sessions.{AudioGapReset}
use speech_core.Vad.Config.{SileroVadConfig, sample_rate}
use speech_core.Vad.Local.{VadEnv, VadSession, VadResult, done, new_vad_session}
use speech_core.Vad.Yields.{IsLogging}
use speech_core.Vad.Tracked.{IsSized}
use speech_core.Vad.Windows.{DrainEnd-Remains, ingest_samples-DrainEnd}
use speech_core.Vad.Changes.{push_samples, action_taken, gap_taken}
use speech_core.Vad.Detector.{
  VadDetector, change_session, handle_action, vad_gap_reset, ingest_samples, on_session,
  ingest_frame, end_vad_session, finish_vad_session, is_supported, start_vad_session,
}
use speech_core.Vad.History.{
  VadReachable, made, announced, fed, finished, acted, skipped, new_detector,
}
use speech_core.Vad.Reset.{
  IsOf, AllOf, insert-AllOf, remove-AllOf, new_vad_session-IsTracked, action_taken-IsTracked,
  action_taken-config, gap_taken-IsTracked,
}

-- Every session is under the detector's configuration, which stays, and tracked.
pub record IsWatched (config : SileroVadConfig) (d : VadDetector) : Type 0 where
  pub same_config : d.config ≡ config
  pub sessions : AllOf config d.sessions

module _ (config : SileroVadConfig) where
  change_session-IsWatched :
      (id : String) (f : VadSession → VadSession) (d : VadDetector)
      → ((s : VadSession) → IsOf config s → IsOf config (f s))
      → IsWatched config d
      → IsWatched config (change_session id f d)
  unfolding change_session
  change_session-IsWatched id f d keeps w = go (lookup id d.sessions) refl
    where
      go :
          (found : Option VadSession)
          → lookup id d.sessions ≡ found
          → IsWatched config (elim found as (λ _. VadDetector) [
            | none ↦ d
            | some s ↦ record d { sessions = insert id (f s) d.sessions }
          ])
      go none e = w
      go (some s) e = record {
        same_config = w.same_config;
        sessions = insert-AllOf config id (f s) d.sessions (keeps s (w.sessions id s e)) w.sessions;
      }

  handle_action-IsWatched :
      (action : DetectorAction) (d : VadDetector)
      → IsWatched config d
      → IsWatched config (handle_action action d)
  unfolding handle_action
  handle_action-IsWatched (reset_eou_state r) d w =
      if_both (IsWatched config) (str_eq r.reason "vad_speech_start") w (
        change_session-IsWatched r.ids.stream_session_id (action_taken r.reason) d
          (λ s is. record {
            tracked = action_taken-IsTracked r.reason s is.tracked;
            same_config = action_taken-config r.reason s ∙ is.same_config;
          })
          w)

  vad_gap_reset-IsWatched :
      (gap : AudioGapReset) (d : VadDetector)
      → IsWatched config d
      → IsWatched config (vad_gap_reset gap d)
  unfolding vad_gap_reset gap_taken
  vad_gap_reset-IsWatched gap d w =
      change_session-IsWatched gap.ids.stream_session_id (gap_taken gap.observed_sample_start) d
        (λ s is. record {
          tracked = gap_taken-IsTracked gap.observed_sample_start s is.tracked;
          same_config = is.same_config;
        })
        w

module _ ⦃env : VadEnv⦄ (config : SileroVadConfig) where
  start_vad_session-IsWatched :
      (hello : HelloState) (d : VadDetector)
      → IsWatched config d
      → IsWatched config (start_vad_session hello d).1
  unfolding start_vad_session new_vad_session
  start_vad_session-IsWatched hello d w =
      if_both (λ (r : VadResult (Unit {0}) × VadDetector). IsWatched config r.1)
        (not (hello.sample_rate_hz == sample_rate) || not (hello.channels == 1))
        (record { same_config = w.same_config; sessions = w.sessions })
        (if_both (λ (r : VadResult (Unit {0}) × VadDetector). IsWatched config r.1)
          (not (is_supported hello.format))
          (record { same_config = w.same_config; sessions = w.sessions })
          (if_both (λ (r : VadResult (Unit {0}) × VadDetector). IsWatched config r.1)
            (not (env.opens d.config.model_path)) w
            (record {
              same_config = w.same_config;
              sessions =
                  insert-AllOf config hello.stream_session_id (new_vad_session hello d.config)
                    d.sessions
                    (record {
                      tracked = new_vad_session-IsTracked hello d.config;
                      same_config = w.same_config;
                    })
                    w.sessions;
            })))

  end_vad_session-IsWatched :
      (id reason : String) (now_ns : ℕ) (d : VadDetector)
      → IsWatched config d
      → IsWatched config (end_vad_session id reason now_ns d).1
  unfolding end_vad_session
  end_vad_session-IsWatched id reason now_ns d w = go (lookup id d.sessions)
    where
      go :
          (found : Option VadSession)
          → IsWatched config
              (elim found as (λ _. VadResult (List DetectorSignal) × VadDetector) [
                | none ↦ (done [], d)
                | some s ↦
                    let r =
                      finish_vad_session reason now_ns (record { session = s; sent = d.sent }) in
                    (r.0, record d { sessions = remove id d.sessions; sent = r.1.sent })
              ]).1
      go none = w
      go (some s) = record {
        same_config = w.same_config;
        sessions = remove-AllOf config id d.sessions w.sessions;
      }

module _ ⦃env : VadEnv⦄ (live : IsLogging env) (config : SileroVadConfig)
    (sized : IsSized config) where
  ingest_frame-IsWatched :
      (frame : AudioFrame) (samples : List ℕ) (ingress : ℕ) (d : VadDetector)
      → IsWatched config d
      → IsWatched config (ingest_frame frame samples ingress d).1
  unfolding ingest_frame on_session push_samples
  ingest_frame-IsWatched frame samples ingress d w =
      go (lookup frame.header.stream_session_id d.sessions) refl
    where
      id : String
      id = frame.header.stream_session_id

      go :
          (found : Option VadSession)
          → lookup id d.sessions ≡ found
          → IsWatched config
              (elim found as (λ _. VadResult (List DetectorSignal) × VadDetector) [
                | none ↦ (done [], d)
                | some s ↦
                    let r =
                      ingest_samples frame samples ingress
                        (record { session = s; sent = d.sent }) in
                    (r.0, record d { sessions = insert id r.1.session d.sessions; sent = r.1.sent })
              ]).1
      go none e = w
      go (some s) e =
          let is = w.sessions id s e in
          let rest = DrainEnd-Remains (
            ingest_samples-DrainEnd live frame samples ingress
              (record { session = s; sent = d.sent }) is.tracked
              (subst IsSized (sym is.same_config) sized)) in
          record {
            same_config = w.same_config;
            sessions =
                insert-AllOf config id _ d.sessions
                  (record {
                    tracked = rest.tracked;
                    same_config = rest.same_config ∙ is.same_config;
                  })
                  w.sessions;
          }

  -- While the log's worker runs, in every history of a detector each session is tracked: one in
  -- speech has a segment and no onset, a quiet one neither a segment nor a silence, the counters
  -- stay short of their limits, and a fallback is only ever due for a segment that is known.
  pub VadReachable-IsWatched : (d : VadDetector) → VadReachable config d → IsWatched config d
  unfolding new_detector lookup
  VadReachable-IsWatched _ made = record { same_config = refl; sessions = λ id s h. cc }
  VadReachable-IsWatched _ (announced {d} hello past) =
      start_vad_session-IsWatched config hello d (VadReachable-IsWatched d past)
  VadReachable-IsWatched _ (fed {d} frame samples ingress past) =
      ingest_frame-IsWatched frame samples ingress d (VadReachable-IsWatched d past)
  VadReachable-IsWatched _ (finished {d} id reason now_ns past) =
      end_vad_session-IsWatched config id reason now_ns d (VadReachable-IsWatched d past)
  VadReachable-IsWatched _ (acted {d} action past) =
      handle_action-IsWatched config action d (VadReachable-IsWatched d past)
  VadReachable-IsWatched _ (skipped {d} gap past) =
      vad_gap_reset-IsWatched config gap d (VadReachable-IsWatched d past)

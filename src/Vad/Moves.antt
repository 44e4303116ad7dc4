-- ===== src/Vad/Moves.antt =====
-- Proofs that the changes which a window makes in a voice activity session are the moves of the
-- machine in Vad/Machine (VadSession of crates/speech-core-daemon/src/detectors/vad.rs).
use speech_core.Base.{
  ℕ, suc, ◌<◌, ◌≤◌, max, true, false, ◌&&◌, none, List, [], ◌∷◌, ◌++◌, ◌≡◌, refl, subst, leb,
  if◌then◌else◌, arith, if_cases, if_both,
}
use speech_core.Base.Words.{u64_max, saturating_add}
use speech_core.Vad.Config.{Float}
use speech_core.Vad.Local.{VadSession, onset_can_arm, release_forced_close_rearm}
use speech_core.Vad.Levels.{
  Levels, is_low, is_voiced, is_loud, release_if_low, voice_heard, silence_heard, segment_ended,
  onset_heard, segment_started,
}
use speech_core.Vad.Machine.{
  control_of, Phase, Mark, opened, present, ended, Hearing, lull_if, machine_step, phase_of,
  windows_of, hearing_of,
}
use speech_core.Vad.Tracked.{IsSized, IsTracked}

saturating_add-suc : (n limit : ℕ) → n < max limit 1 → limit ≤ u64_max → saturating_add n 1 ≡ suc n
saturating_add-suc n limit below sized = omega arith

-- The speech step's part of a move: the lull that it may bring is signalled after it.
abbrev pub with_lull : Hearing → VadSession → List Mark → Phase × List Mark
with_lull h s marks = (phase_of (control_of s), marks ++ (if s.in_speech then [] else lull_if h))

module _ (float : Float) (v : Levels) (s : VadSession) (t : IsTracked (control_of s)) where
  -- The session's move is that of the machine.
  abbrev pub IsMove : VadSession → List Mark → Type 0
  IsMove after marks =
      with_lull (hearing_of float v s) after marks
      ≡ machine_step (windows_of s.config) (hearing_of float v s) (phase_of (control_of s))

  pub voice_heard-IsMove :
      s.in_speech ≡ true → is_voiced float v ≡ true → IsMove (voice_heard v s) (present ∷ [])
  unfolding phase_of machine_step voice_heard
  voice_heard-IsMove e voiced = simp (e, voiced)

  pub silence_heard-IsMove :
      s.in_speech ≡ true
      → is_voiced float v ≡ false
      → IsSized s.config
      → leb (max s.config.hangover_frames 1) (saturating_add s.silence_counter 1) ≡ false
      → IsMove (silence_heard v s) []
  unfolding phase_of machine_step silence_heard
  silence_heard-IsMove e voiced sized below =
      let next =
        saturating_add-suc s.silence_counter s.config.hangover_frames t.below_hangover
          sized.hangover in
      let short = subst (λ n. leb (max s.config.hangover_frames 1) n ≡ false) next below in
      simp (e, voiced, next, short)

  pub segment_ended-IsMove :
      s.in_speech ≡ true
      → is_voiced float v ≡ false
      → IsSized s.config
      → leb (max s.config.hangover_frames 1) (saturating_add s.silence_counter 1) ≡ true
      → IsMove (segment_ended v (record (silence_heard v s) { in_speech = false })) (ended ∷ [])
  unfolding phase_of machine_step silence_heard segment_ended
  segment_ended-IsMove e voiced sized over =
      let next =
        saturating_add-suc s.silence_counter s.config.hangover_frames t.below_hangover
          sized.hangover in
      let long = subst (λ n. leb (max s.config.hangover_frames 1) n ≡ true) next over in
      simp (e, voiced, t.speech_armed e, t.speech_onset e, long)

  pub forgotten-IsMove :
      s.in_speech ≡ false
      → (s.forced_close_rearm_required && is_low float v) ≡ false
      → (onset_can_arm s && is_loud float v s) ≡ false
      → IsMove (record s { onset_counter = 0; candidate_start_sample = none }) []
  unfolding phase_of machine_step onset_can_arm
  forgotten-IsMove e kept out = simp (e) (ground arith)

  pub onset_heard-IsMove :
      s.in_speech ≡ false
      → s.forced_close_rearm_required ≡ false
      → is_loud float v s ≡ true
      → IsSized s.config
      → leb (max s.config.onset_frames 1) (saturating_add s.onset_counter 1) ≡ false
      → IsMove (onset_heard v s) []
  unfolding phase_of machine_step onset_heard
  onset_heard-IsMove e armed loud sized below =
      let next =
        saturating_add-suc s.onset_counter s.config.onset_frames t.below_onset sized.onset in
      let short = subst (λ n. leb (max s.config.onset_frames 1) n ≡ false) next below in
      simp (e, armed, loud, next, short)

  pub segment_started-IsMove :
      s.in_speech ≡ false
      → s.forced_close_rearm_required ≡ false
      → is_loud float v s ≡ true
      → IsSized s.config
      → leb (max s.config.onset_frames 1) (saturating_add s.onset_counter 1) ≡ true
      → IsMove (segment_started v (onset_heard v s)) (opened ∷ [])
  unfolding phase_of machine_step onset_heard segment_started
  segment_started-IsMove e armed loud sized over =
      let next =
        saturating_add-suc s.onset_counter s.config.onset_frames t.below_onset sized.onset in
      let long = subst (λ n. leb (max s.config.onset_frames 1) n ≡ true) next over in
      simp (e, armed, loud, long, t.quiet_silence e)

  -- A release is no move of its own: the machine makes it in the same step.
  pub release_if_low-machine_step :
      let after = release_if_low float v s in
      machine_step
        (windows_of after.config)
        (hearing_of float v after)
        (phase_of (control_of after))
      ≡ machine_step (windows_of s.config) (hearing_of float v s) (phase_of (control_of s))
  unfolding phase_of machine_step release_if_low release_forced_close_rearm
  release_if_low-machine_step =
      if_cases
        (λ r.
          machine_step (windows_of r.config) (hearing_of float v r) (phase_of (control_of r))
          ≡ machine_step (windows_of s.config) (hearing_of float v s) (phase_of (control_of s)))
        (s.forced_close_rearm_required && is_low float v) (λ both. ground (arith, t.speech_armed))
        λ _. refl

  pub release_if_low-kept : (control_of (release_if_low float v s)).kept ≡ (control_of s).kept
  unfolding release_if_low release_forced_close_rearm
  release_if_low-kept =
      if_both (λ r. (control_of r).kept ≡ (control_of s).kept)
        (s.forced_close_rearm_required && is_low float v) refl refl

  -- Who is still held after it heard no low window.
  pub release_if_low-held :
      ((release_if_low float v s).forced_close_rearm_required && is_low float v) ≡ false
  unfolding release_if_low release_forced_close_rearm
  release_if_low-held =
      if_cases (λ (r : VadSession). (r.forced_close_rearm_required && is_low float v) ≡ false)
        (s.forced_close_rearm_required && is_low float v) (λ _. refl) λ h. h

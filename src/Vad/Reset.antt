-- ===== src/Vad/Reset.antt =====
-- Proofs on single sessions of a voice activity detector: new ones and reset ones are tracked
-- (crates/speech-core-daemon/src/detectors/vad.rs).
use speech_core.Base.{
  ℕ, Bool, Option, true, false, String, str_eq, none, some, List, ◌≡◌, refl, sym, ◌∙◌, subst,
  if◌then◌else◌, if_both, arith,
}
use speech_core.Base.Maps.{lookup, insert, remove, lookup-insert, lookup-remove}
use mathlib.Core.Option.{some-injective}
use speech_core.Turn.Local.{HelloState}
use speech_core.Vad.Config.{SileroVadConfig}
use speech_core.Vad.Local.{VadSession, new_vad_session, reset_after_forced_close}
use speech_core.Vad.Machine.{Kept, Control, control_of}
use speech_core.Vad.Tracked.{IsTracked}
use speech_core.Vad.Changes.{action_taken, forget_segment, gap_taken, reset_requires_low_release}

-- A session under this configuration, tracked.
pub record IsOf (config : SileroVadConfig) (s : VadSession) : Type 0 where
  pub tracked : IsTracked (control_of s)
  pub same_config : s.config ≡ config

abbrev pub AllOf : SileroVadConfig → List (String × VadSession) → Type 0
AllOf config sessions = (id : String) (s : VadSession) → lookup id sessions ≡ some s → IsOf config s

pub insert-AllOf :
    (config : SileroVadConfig) (key : String) (s : VadSession) (m : List (String × VadSession))
    → IsOf config s
    → AllOf config m
    → AllOf config (insert key s m)
insert-AllOf config key s m is all id found h =
    go (str_eq key id) (sym (lookup-insert key id s m) ∙ h)
  where
    go : (same : Bool) → (if same then some s else lookup id m) ≡ some found → IsOf config found
    go true e = subst (IsOf config) (some-injective _ _ e) is
    go false e = all id found e

pub remove-AllOf :
    (config : SileroVadConfig) (key : String) (m : List (String × VadSession))
    → AllOf config m
    → AllOf config (remove key m)
remove-AllOf config key m all id found h = go (str_eq key id) (sym (lookup-remove key id m) ∙ h)
  where
    go : (same : Bool) → (if same then none else lookup id m) ≡ some found → IsOf config found
    go true e = cc
    go false e = all id found e

-- A session without a segment, whose counters are zero.
abbrev emptied : Kept → Option ℕ → Option ℕ → Bool → Control
emptied kept start end_ held = record {
  kept = kept;
  in_speech = false;
  onset_counter = 0;
  candidate_start_sample = none;
  silence_start_sample = none;
  silence_counter = 0;
  current_segment_start_sample = none;
  last_segment_start_sample = start;
  last_segment_end_sample = end_;
  acoustic_fallback_emitted = true;
  forced_close_rearm_required = held;
}

emptied-IsTracked :
    (kept : Kept) (start end_ : Option ℕ) (held : Bool) → IsTracked (emptied kept start end_ held)
emptied-IsTracked kept start end_ held = record {
  speech_onset = λ _. refl;
  speech_armed = λ h. cc;
  speech_segment = refl;
  speech_emitted = λ _. refl;
  quiet_silence = λ _. refl;
  below_hangover = omega arith;
  below_onset = omega arith;
  silence_start = refl;
  candidate = refl;
  fallback_segment = λ h. cc;
}

pub new_vad_session-IsTracked :
    (hello : HelloState) (config : SileroVadConfig)
    → IsTracked (control_of (new_vad_session hello config))
unfolding new_vad_session
new_vad_session-IsTracked hello config = emptied-IsTracked _ _ _ _

forget_segment-IsTracked :
    (s : VadSession) → IsTracked (control_of s) → IsTracked (control_of (forget_segment s))
forget_segment-IsTracked s t = record {
  speech_onset = t.speech_onset;
  speech_armed = t.speech_armed;
  speech_segment = t.speech_segment;
  speech_emitted = λ _. refl;
  quiet_silence = t.quiet_silence;
  below_hangover = t.below_hangover;
  below_onset = t.below_onset;
  silence_start = t.silence_start;
  candidate = t.candidate;
  fallback_segment = λ h. cc;
}

pub action_taken-IsTracked :
    (reason : String) (s : VadSession)
    → IsTracked (control_of s)
    → IsTracked (control_of (action_taken reason s))
unfolding action_taken reset_after_forced_close
action_taken-IsTracked reason s t =
    if_both (λ r. IsTracked (control_of r)) (reset_requires_low_release reason)
      (emptied-IsTracked _ _ _ _) (forget_segment-IsTracked s t)

pub action_taken-config :
    (reason : String) (s : VadSession) → (action_taken reason s).config ≡ s.config
unfolding action_taken reset_after_forced_close
action_taken-config reason s =
    if_both (λ (r : VadSession). r.config ≡ s.config) (reset_requires_low_release reason) refl refl

pub gap_taken-IsTracked :
    (observed : ℕ) (s : VadSession)
    → IsTracked (control_of s)
    → IsTracked (control_of (gap_taken observed s))
unfolding gap_taken
gap_taken-IsTracked observed s t = emptied-IsTracked _ _ _ _

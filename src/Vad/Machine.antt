-- ===== src/Vad/Machine.antt =====
-- What the voice activity detector (crates/speech-core-daemon/src/detectors/vad.rs) promises of a
-- session: a machine of three phases that a window moves, with the signals that it gives. It
-- forgets samples and probabilities, and knows only how a window compares to the thresholds.
use speech_core.Base.{
  false, ◌++◌, ℕ, suc, max, Bool, Option, List, [], ◌∷◌, leb, if◌then◌else◌, any, ◌≡◌, refl, arith,
}
use speech_core.Turn.Signals.{
  DetectorSignal, vad_segment_start, vad_segment_end, vad_speech_presence, vad_low_silence,
}
use speech_core.Vad.Config.{Float, SileroVadConfig}
use speech_core.Turn.Local.{HelloState}
use speech_core.Vad.Local.{VadSession}
use speech_core.Vad.Levels.{Levels, is_low, is_voiced, is_loud}

-- `quiet` counts the windows of an onset, `speaking` those of a silence; `held` awaits a release
-- after a forced close.
pub data Phase : Type 0 where
  quiet : ℕ → Phase
  speaking : ℕ → Phase
  held : Phase

pub data Mark : Type 0 where
  opened present ended lull : Mark

-- A window's part in it: below the stop threshold, at or above it, and loud enough to start.
pub record Hearing : Type 0 where
  pub low : Bool
  pub voiced : Bool
  pub loud : Bool

pub record Windows : Type 0 where
  pub onset : ℕ
  pub hangover : ℕ

abbrev pub lull_if : Hearing → List Mark
lull_if h = if h.low then lull ∷ [] else []

-- Nothing of a segment is left, and the window counts towards an onset if it is loud.
abbrev pub quiet_step : Windows → Hearing → ℕ → Phase × List Mark
quiet_step w h n =
    if h.loud
    then (if leb (max w.onset 1) (suc n)
        then (speaking 0, opened ∷ [])
        else (quiet (suc n), lull_if h))
    else (quiet 0, lull_if h)

unfoldable pub machine_step : Windows → Hearing → Phase → Phase × List Mark
machine_step w h (quiet n) = quiet_step w h n
machine_step w h held = if h.low then quiet_step w h 0 else (held, lull_if h)
machine_step w h (speaking k) =
    if h.voiced
    then (speaking 0, present ∷ [])
    else if leb (max w.hangover 1) (suc k)
    then (quiet 0, ended ∷ lull_if h)
    else (speaking (suc k), [])

-- The signals that the machine speaks of; the acoustic fallback is not one of them.
unfoldable pub marks_of : List DetectorSignal → List Mark
marks_of [] = []
marks_of (vad_segment_start _ ∷ rest) = opened ∷ marks_of rest
marks_of (vad_speech_presence _ ∷ rest) = present ∷ marks_of rest
marks_of (vad_segment_end _ ∷ rest) = ended ∷ marks_of rest
marks_of (vad_low_silence _ ∷ rest) = lull ∷ marks_of rest
marks_of (_ ∷ rest) = marks_of rest

-- What no window changes.
pub record Kept : Type 0 where
  pub hello : HelloState
  pub config : SileroVadConfig
  pub buffer : List ℕ
  pub next_vad_frame_sample_start : ℕ

-- What of a session decides about its segments, with what is kept.
pub record Control : Type 0 where
  pub kept : Kept
  pub in_speech : Bool
  pub onset_counter : ℕ
  pub candidate_start_sample : Option ℕ
  pub silence_start_sample : Option ℕ
  pub silence_counter : ℕ
  pub current_segment_start_sample : Option ℕ
  pub last_segment_start_sample : Option ℕ
  pub last_segment_end_sample : Option ℕ
  pub acoustic_fallback_emitted : Bool
  pub forced_close_rearm_required : Bool

abbrev pub control_of : VadSession → Control
control_of s = record {
  kept = record {
    hello = s.hello;
    config = s.config;
    buffer = s.buffer;
    next_vad_frame_sample_start = s.next_vad_frame_sample_start;
  };
  in_speech = s.in_speech;
  onset_counter = s.onset_counter;
  candidate_start_sample = s.candidate_start_sample;
  silence_start_sample = s.silence_start_sample;
  silence_counter = s.silence_counter;
  current_segment_start_sample = s.current_segment_start_sample;
  last_segment_start_sample = s.last_segment_start_sample;
  last_segment_end_sample = s.last_segment_end_sample;
  acoustic_fallback_emitted = s.acoustic_fallback_emitted;
  forced_close_rearm_required = s.forced_close_rearm_required;
}

unfoldable pub phase_of : Control → Phase
phase_of c =
    if c.in_speech
    then speaking c.silence_counter
    else if c.forced_close_rearm_required
    then held
    else quiet c.onset_counter

abbrev pub windows_of : SileroVadConfig → Windows
windows_of config = record { onset = config.onset_frames; hangover = config.hangover_frames }

abbrev pub hearing_of : Float → Levels → VadSession → Hearing
hearing_of float v s = record {
  low = is_low float v;
  voiced = is_voiced float v;
  loud = is_loud float v s;
}

-- The machine over several windows.
abbrev pub then_marks : List Mark → Phase × List Mark → Phase × List Mark
then_marks marks r = (r.0, marks ++ r.1)

abbrev pub machine_run : Windows → List Hearing → Phase → Phase × List Mark
machine_run w [] p = (p, [])
machine_run w (h ∷ hs) p =
    let (next, marks) = machine_step w h p in then_marks marks (machine_run w hs next)

-- A forced close holds as long as no window is low.
pub machine_run-held :
    (w : Windows) (hs : List Hearing)
    → any (λ h. h.low) hs ≡ false
    → machine_run w hs held ≡ (held, [])
unfolding machine_step
machine_run-held w [] never = refl
machine_run-held w (h ∷ hs) never = ground (arith, machine_run-held w hs)

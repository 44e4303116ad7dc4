-- ===== src/Vad/Refines.antt =====
-- Proofs that a window moves a voice activity session as the machine of Vad/Machine says
-- (process_vad_frame of crates/speech-core-daemon/src/detectors/vad.rs).
use speech_core.Base.{ℕ, ◌<◌, max, true, false, ◌&&◌, List, ◌≡◌, refl, leb, arith}
use speech_core.Base.Words.{saturating_add}
use speech_core.Turn.Signals.{DetectorSignal}
use speech_core.Vad.Config.{Float}
use speech_core.Vad.Local.{VadEnv, VadSession, VadLocal, onset_can_arm}
use speech_core.Vad.Levels.{
  Levels, is_low, is_voiced, is_loud, voice_heard, silence_heard, segment_ended, onset_heard,
  segment_started, presence_signal, end_signal, start_signal,
}
use speech_core.Vad.Frame.{
  end_segment, hear_silence, hear_voice, start_segment, hear_onset, forget_onset, speech_step,
}
use speech_core.Vad.Machine.{control_of, marks_of}
use speech_core.Vad.Yields.{Yields, yields, IsLogging, Yields-if, Yields-after_write}
use speech_core.Vad.Tracked.{
  IsSized, IsTracked, voice_heard-IsTracked, silence_heard-IsTracked, segment_ended-IsTracked,
  forgotten-IsTracked, onset_heard-IsTracked, segment_started-IsTracked,
}
use speech_core.Vad.Moves.{
  IsMove, voice_heard-IsMove, silence_heard-IsMove, segment_ended-IsMove, forgotten-IsMove,
  onset_heard-IsMove, segment_started-IsMove,
}

-- After the speech step: a session that is tracked, in the phase that the machine reaches.
pub record SpeechEnd (float : Float) (v : Levels) (s : VadSession) (t : IsTracked (control_of s))
    (signals : List DetectorSignal) (after : VadSession) : Type 0 where
  pub tracked : IsTracked (control_of after)
  pub same_kept : (control_of after).kept ≡ (control_of s).kept
  pub moved : IsMove float v s t after (marks_of signals)

short_of : (a b : ℕ) → leb a b ≡ false → b < a
short_of a b h = ground arith

module _ ⦃env : VadEnv⦄ (live : IsLogging env) (v : Levels) where
  module _ (l : VadLocal) (t : IsTracked (control_of l.session))
      (sized : IsSized l.session.config) where
    hear_voice-SpeechEnd :
        l.session.in_speech ≡ true
        → is_voiced env.float v ≡ true
        → Yields (SpeechEnd env.float v l.session t) (hear_voice v l)
    unfolding hear_voice voice_heard presence_signal marks_of
    hear_voice-SpeechEnd e voiced = yields _ _ (record {
      tracked = voice_heard-IsTracked l.session t v;
      same_kept = refl;
      moved = voice_heard-IsMove env.float v l.session t e voiced;
    })

    hear_silence-SpeechEnd :
        l.session.in_speech ≡ true
        → is_voiced env.float v ≡ false
        → Yields (SpeechEnd env.float v l.session t) (hear_silence v l)
    unfolding hear_silence end_segment silence_heard segment_ended end_signal marks_of
    hear_silence-SpeechEnd e voiced =
        Yields-if
          (leb (max l.session.config.hangover_frames 1)
            (saturating_add l.session.silence_counter 1))
          _ _ _
          (λ over. Yields-after_write live _ _ _ (
            yields _ _ (record {
              tracked = segment_ended-IsTracked l.session t v e;
              same_kept = refl;
              moved = segment_ended-IsMove env.float v l.session t e voiced sized over;
            })))
          λ below. yields _ _ (record {
            tracked = silence_heard-IsTracked l.session t v e (short_of _ _ below);
            same_kept = refl;
            moved = silence_heard-IsMove env.float v l.session t e voiced sized below;
          })

    hear_onset-SpeechEnd :
        l.session.in_speech ≡ false
        → l.session.forced_close_rearm_required ≡ false
        → is_loud env.float v l.session ≡ true
        → Yields (SpeechEnd env.float v l.session t) (hear_onset v l)
    unfolding hear_onset start_segment onset_heard segment_started start_signal marks_of
    hear_onset-SpeechEnd e armed loud =
        Yields-if
          (leb (max l.session.config.onset_frames 1) (saturating_add l.session.onset_counter 1)) _ _
          _
          (λ over. Yields-after_write live _ _ _ (
            yields _ _ (record {
              tracked = segment_started-IsTracked l.session t v e armed;
              same_kept = refl;
              moved = segment_started-IsMove env.float v l.session t e armed loud sized over;
            })))
          λ below. yields _ _ (record {
            tracked = onset_heard-IsTracked l.session t v e (short_of _ _ below);
            same_kept = refl;
            moved = onset_heard-IsMove env.float v l.session t e armed loud sized below;
          })

    pub speech_step-SpeechEnd :
        (l.session.forced_close_rearm_required && is_low env.float v) ≡ false
        → Yields (SpeechEnd env.float v l.session t) (speech_step v l)
    unfolding speech_step forget_onset marks_of onset_can_arm
    speech_step-SpeechEnd kept =
        Yields-if l.session.in_speech _ _ l
          (λ e.
            Yields-if (is_voiced env.float v) _ _ l (hear_voice-SpeechEnd e)
              (hear_silence-SpeechEnd e))
          λ e.
            Yields-if (onset_can_arm l.session && is_loud env.float v l.session) _ _ l
              (λ both. hear_onset-SpeechEnd e (ground arith) (ground arith))
              λ out. yields _ _ (record {
                tracked = forgotten-IsTracked l.session t e;
                same_kept = refl;
                moved = forgotten-IsMove env.float v l.session t e kept out;
              })

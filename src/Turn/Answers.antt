-- ===== src/Turn/Answers.antt =====
-- Proofs on what the arms of TurnManager::handle_signal answer that close a turn without a VAD end
-- (VadSpeechPresence, VadLowSilence and VadAcousticFallback of
-- crates/speech-core-daemon/src/detectors/turn.rs).
use speech_core.Base.{
  ℕ, true, ◌||◌, not, String, Option, none, some, List, [], ◌∷◌, ◌≡◌, refl, if_both, subst, ltb,
  ◌==◌, is_none, All, ◌-◌,
}
use speech_core.Turn.Config.{TurnManagerConfig, ms_to_samples}
use speech_core.Turn.Signals.{
  Ids, VadSpeechPresence, VadLowSilence, VadAcousticFallback, DetectorAction, reset_eou_state,
  ModelDrainHandle,
}
use speech_core.Turn.Events.{Event}
use speech_core.Turn.Local.{Env, Local, Outcome, ok, err, M, continue, OpenTurn, TurnSession, write}
use speech_core.Turn.Close.{
  turn_start_or, aligned_close, decoder_reset, close_turn, CloseChoice, CloseRequest,
}
use speech_core.Turn.Handlers.Hold.{
  on_vad_speech_presence, live_presence, presence_hold, hold_progress,
}
use speech_core.Turn.Handlers.Silence.{
  on_vad_low_silence, wait_model, quiet_choice, quiet_close, quiet_anchor, is_quiet,
  on_vad_acoustic_fallback, fallback_close, fallback_too_short, fallback_candidate,
}
use speech_core.Turn.Handlers.Shared.{is_stale, hold_fires, hold_anchor}
use speech_core.Vad.Changes.{reset_requires_low_release}

-- The action is for the session, with the reason of a forced close.
abbrev pub IsForced : Ids → DetectorAction → Type 0
IsForced ids (reset_eou_state r) = (r.ids ≡ ids) × (reset_requires_low_release r.reason ≡ true)

-- The open turn is the same, and none has been closed.
pub record SameTurn (before after : TurnSession) : Type 0 where
  pub same_open : after.open_turn ≡ before.open_turn
  pub same_closed : after.turns_closed ≡ before.turns_closed

-- All actions of an answer are such; where there are none, the turn is the same as before.
pub data Answers (ids : Ids) (before : TurnSession)
    : Outcome (List DetectorAction) × Local → Type 0 where
  answers :
      (actions : List DetectorAction) (l : Local)
      → All (IsForced ids) actions
      → (actions ≡ [] → SameTurn before l.session)
      → Answers ids before (ok actions, l)
  fails : (l : Local) → Answers ids before (err, l)

-- What comes before the answer.
Answers-continue :
    {A : Type 0} {ids : Ids} {before : TurnSession} (f : A → M (List DetectorAction))
    (r : Outcome A × Local)
    → ((a : A) → Answers ids before (f a r.1))
    → Answers ids before (continue f r)
Answers-continue f (ok a, l) k = k a
Answers-continue f (err, l) k = fails l

nothing-Answers :
    {ids : Ids} {before : TurnSession} {l : Local}
    → SameTurn before l.session
    → Answers ids before (ok [], l)
nothing-Answers {ids} {before} {l} same = answers [] l tt (λ _. same)

unchanged : (s : TurnSession) → SameTurn s s
unchanged s = record { same_open = refl; same_closed = refl }

reset-Answers :
    {ids : Ids} {before : TurnSession} {l : Local} {sample : ℕ} {source reason : String}
    → reset_requires_low_release reason ≡ true
    → Answers ids before (ok (decoder_reset ids sample source reason ∷ []), l)
reset-Answers {ids} {before} {l} forced = answers _ l ((refl, forced), tt) (λ e. cc)

pub none≢some : {A : Type 0} {a : A} → none ≡ some a → ⊥
none≢some {A} {a} e = subst (λ o. elim o as (λ _. Type 0) [ none ↦ Unit {0} | some _ ↦ ⊥ ]) e tt

module _ ⦃env : Env⦄ {ids : Ids} {before : TurnSession}
    (f : Unit {0} → M (List DetectorAction)) where
  Answers-write :
      (e : Event) (l : Local)
      → ((a : Unit {0}) (l1 : Local) → SameTurn l.session l1.session → Answers ids before (f a l1))
      → Answers ids before (continue f (write e l))
  unfolding write
  Answers-write e l k = Answers-continue f (write e l) λ a. k a _ (unchanged l.session)

  Answers-close_turn :
      (c : CloseRequest) (l : Local)
      → ((a : Unit {0}) → Answers ids before (f a (close_turn c l).1))
      → Answers ids before (continue f (close_turn c l))
  Answers-close_turn c l k = Answers-continue f (close_turn c l) k

  Answers-wait_model :
      (config : TurnManagerConfig) (id : String) (target : ℕ) (l : Local)
      → ((a : Unit {0}) → Answers ids before (f a (wait_model config id target l).1))
      → Answers ids before (continue f (wait_model config id target l))
  Answers-wait_model config id target l k = Answers-continue f (wait_model config id target l) k

module _ ⦃env : Env⦄ where
  fallback_close-Answers :
      {before : TurnSession} (config : TurnManagerConfig) (s : VadAcousticFallback)
      (turn_id : String) (l : Local)
      → Answers s.ids before (fallback_close config s turn_id l)
  unfolding fallback_close reset_requires_low_release
  fallback_close-Answers config s turn_id l =
      Answers-wait_model _ _ _ _ _ λ _. Answers-close_turn _ _ _ λ _. reset-Answers refl

  candidate-Answers :
      (config : TurnManagerConfig) (s : VadAcousticFallback) (turn_id : String) (l : Local)
      → Answers s.ids l.session (fallback_candidate config s turn_id l)
  unfolding fallback_candidate
  candidate-Answers config s turn_id l = Answers-write _ _ _ λ _ l1 same.
      if_both (λ (m : M (List DetectorAction)). Answers s.ids l.session (m l1))
        config.vad_close_enabled (fallback_close-Answers config s turn_id l1) (nothing-Answers same)

  too_short-Answers :
      (config : TurnManagerConfig) (s : VadAcousticFallback) (l : Local)
      → Answers s.ids l.session (fallback_too_short config s l)
  unfolding fallback_too_short
  too_short-Answers config s l = Answers-write _ _ _ λ _ l1 same. nothing-Answers same

  pub on_vad_acoustic_fallback-Answers :
      (config : TurnManagerConfig) (s : VadAcousticFallback) (l : Local)
      → Answers s.ids l.session (on_vad_acoustic_fallback config s l)
  unfolding on_vad_acoustic_fallback
  on_vad_acoustic_fallback-Answers config s l =
      if_both (λ (m : M (List DetectorAction)). Answers s.ids l.session (m l))
        (is_stale s.decision_sample l.session || is_none l.session.open_turn)
        (nothing-Answers (unchanged l.session))
        (if_both (λ (m : M (List DetectorAction)). Answers s.ids l.session (m l))
          (ltb (s.end_sample - s.start_sample) (ms_to_samples config.min_vad_speech_ms))
          (too_short-Answers config s l) (candidate-Answers config s _ l))

  quiet_close-Answers :
      {before : TurnSession} (config : TurnManagerConfig) (s : VadLowSilence) (turn : OpenTurn)
      (anchor : ℕ) (l : Local)
      → Answers s.ids before (quiet_close config s turn anchor l)
  unfolding quiet_close reset_requires_low_release
  quiet_close-Answers config s turn anchor l = Answers-write _ _ _ λ _ l1 same.
      Answers-wait_model _ _ _ _ _ λ _. Answers-close_turn _ _ _ λ _. reset-Answers refl

  pub on_vad_low_silence-Answers :
      (config : TurnManagerConfig) (s : VadLowSilence) (l : Local)
      → Answers s.ids l.session (on_vad_low_silence config s l)
  unfolding on_vad_low_silence
  on_vad_low_silence-Answers config s l = go l.session.open_turn
    where
      go : (o : Option OpenTurn) → Answers s.ids l.session (quiet_choice config s o l)
      go none = nothing-Answers (unchanged l.session)
      go (some turn) =
          let anchor = quiet_anchor s.ids.stream_session_id turn l in
          if_both (λ (m : M (List DetectorAction)). Answers s.ids l.session (m l))
            (ms_to_samples config.transcript_silence_close_ms == 0
              || l.session.saw_vad_signal
              || not (is_quiet config s anchor))
            (nothing-Answers (unchanged l.session)) (quiet_close-Answers config s turn anchor l)

  aligned_close-Answers :
      {before : TurnSession} (config : TurnManagerConfig) (drain : Option ModelDrainHandle)
      (ids : Ids) (turn_id : String) (choice : CloseChoice) (end_sample decision_sample start : ℕ)
      (l : Local)
      → reset_requires_low_release choice.reason ≡ true
      → Answers ids before
          (aligned_close config drain ids turn_id choice end_sample decision_sample start l)
  unfolding aligned_close
  aligned_close-Answers config drain ids turn_id choice end_sample decision_sample start l forced =
      Answers-write _ _ _ λ _ l1 same. Answers-close_turn _ _ _ λ _. reset-Answers forced

  presence_hold-Answers :
      {before : TurnSession} (config : TurnManagerConfig) (drain : Option ModelDrainHandle)
      (s : VadSpeechPresence) (turn_id : String) (anchor : ℕ) (l : Local)
      → Answers s.ids before (presence_hold config drain s turn_id anchor l)
  unfolding presence_hold reset_requires_low_release
  presence_hold-Answers config drain s turn_id anchor l =
      Answers-write _ _ _
        λ _ l1 same. aligned_close-Answers config drain s.ids turn_id _ _ _ _ l1 refl

  hold_progress-Answers :
      (config : TurnManagerConfig) (s : VadSpeechPresence) (turn_id : String) (anchor : ℕ)
      (l : Local)
      → Answers s.ids l.session (hold_progress config s turn_id anchor l)
  unfolding hold_progress
  hold_progress-Answers config s turn_id anchor l =
      Answers-write _ _ _ λ _ l1 same. nothing-Answers same

  pub on_vad_speech_presence-Answers :
      (config : TurnManagerConfig) (drain : Option ModelDrainHandle) (s : VadSpeechPresence)
      (l : Local)
      → Answers s.ids l.session (on_vad_speech_presence config drain s l)
  unfolding on_vad_speech_presence live_presence
  on_vad_speech_presence-Answers config drain s l =
      let start = turn_start_or l.session.open_turn s.start_sample in
      let anchor = hold_anchor s.ids.stream_session_id start l in
      if_both (λ (m : M (List DetectorAction)). Answers s.ids l.session (m l))
        (ms_to_samples config.human_hold_silence_ms == 0 || is_none l.session.open_turn)
        (nothing-Answers (unchanged l.session))
        (if_both (λ (m : M (List DetectorAction)). Answers s.ids l.session (m l))
          (hold_fires s.decision_sample anchor (ms_to_samples config.human_hold_silence_ms)
            l.session.last_human_hold_token_anchor)
          (presence_hold-Answers config drain s _ anchor l)
          (hold_progress-Answers config s _ anchor l))

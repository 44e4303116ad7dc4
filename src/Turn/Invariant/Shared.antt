-- ===== src/Turn/Invariant/Shared.antt =====
-- The invariant through what several handlers do alike
-- (crates/speech-core-daemon/src/detectors/turn.rs).
use speech_core.Base.{
  ℕ, true, false, String, Option, none, some, List, ◌≡◌, refl, ap, is_none, unwrap_or,
}
use speech_core.Progress.Ops.{snapshot_token_count_at_turn_start}
use speech_core.Turn.Config.{TurnManagerConfig}
use speech_core.Turn.Signals.{Ids, ModelDrainHandle}
use speech_core.Turn.Events.{Event}
use speech_core.Turn.Local.{Env, Local, OpenTurn}
use speech_core.Turn.Align.Untouched.{SameBut, align_model_for_close-SameBut}
use speech_core.Turn.Close.{CloseChoice, aligned_close}
use speech_core.Turn.Handlers.Shared.{turn_id_or_next, open_counted_turn, ensure_turn}
use speech_core.Turn.Post.{Post, good, Post-continue, Post-if}
use speech_core.Turn.Invariant.{Inv, Open}
use speech_core.Turn.Invariant.Closing.{close_turn-Inv}
use speech_core.Turn.Invariant.Session.{
  SameCounts, Open-same, write-Open, start_turn-Open, note_turn_opened-Open,
}

-- Some turn is open.
abbrev pub SomeOpen : String → List Event → Local → Type 0
SomeOpen key base l = (turn : OpenTurn) × Open key base turn l

is_some_of : {A : Type 0} (o : Option A) → is_none o ≡ false → (a : A) × (o ≡ some a)
is_some_of none e = cc
is_some_of (some a) e = (a, refl)

pub open_of :
    {key : String} {base : List Event} (l : Local)
    → Inv key base l
    → is_none l.session.open_turn ≡ false
    → SomeOpen key base l
open_of l i e =
    let (turn, is_open) = is_some_of l.session.open_turn e in
    (turn, record { inv = i; is_open = is_open })

-- What leaves the session and the events alone keeps an open turn.
pub SameBut-Open :
    {key : String} {base : List Event} {turn : OpenTurn} {l m : Local}
    → SameBut l m
    → Open key base turn l
    → Open key base turn m
SameBut-Open {l = l} {m = m} same o = Open-same counts same.sent o
  where
    counts : SameCounts l.session m.session
    counts = (
      ap (λ s. s.hello) same.session,
      ap (λ s. s.open_turn) same.session,
      ap (λ s. s.next_turn_index) same.session,
      ap (λ s. s.turns_started) same.session,
      ap (λ s. s.turns_closed) same.session,
    )

pub turn_id_or_next-Open :
    {key : String} {base : List Event} {turn : OpenTurn} {l : Local}
    → Open key base turn l
    → turn_id_or_next l.session ≡ turn.turn_id
unfolding turn_id_or_next
turn_id_or_next-Open {l = l} o = simp o.is_open

module _ ⦃env : Env⦄ {key : String} {base : List Event} where
  pub ensure_turn-SomeOpen :
      (session_id : String) (start_sample : ℕ) (source : String) (l : Local)
      → Inv key base l
      → Post (Inv key base) (SomeOpen key base) (ensure_turn session_id start_sample source l)
  unfolding ensure_turn open_counted_turn
  ensure_turn-SomeOpen session_id start_sample source l i =
      Post-if (is_none l.session.open_turn) _ _ l
        (λ _. Post-continue (start_turn-Open start_sample source l i) λ _ l1 o1.
          Post-continue
            (note_turn_opened-Open session_id
              (λ p. unwrap_or (snapshot_token_count_at_turn_start session_id p) 0) l1 o1)
            λ _ l2 o2. good true l2 (_, o2))
        (λ e. good false l (open_of l i e))

  pub aligned_close-Inv :
      (config : TurnManagerConfig) (drain : Option ModelDrainHandle) (ids : Ids) (turn_id : String)
      (choice : CloseChoice) (end_sample decision_sample fallback_start : ℕ) {turn : OpenTurn}
      (l : Local)
      → Open key base turn l
      → turn_id ≡ turn.turn_id
      → Post (Inv key base) (Inv key base) (
          aligned_close config drain ids turn_id choice end_sample decision_sample fallback_start l)
  unfolding aligned_close
  aligned_close-Inv config drain ids turn_id choice end_sample decision_sample fallback_start l o
        e =
      let same =
        align_model_for_close-SameBut drain ids end_sample decision_sample choice.reason
          config.model_alignment_timeout_ms l in
      Post-continue (write-Open _ _ (λ h. h) (SameBut-Open same o))
        λ _ l2 o2. Post-continue (close_turn-Inv _ l2 o2 e) λ _ l3 i3. good _ l3 i3

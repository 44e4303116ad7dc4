-- ===== src/Turn/Invariant/Session.antt =====
-- The invariant through a write and the start of a turn
-- (crates/speech-core-daemon/src/detectors/turn.rs).
use speech_core.Base.{
  ℕ, String, Option, none, some, List, ◌∷◌, ◌≡◌, refl, sym, ap, ◌∙◌, inl, inr, arith,
}
use speech_core.Progress.State.{ModelProgressMap}
use speech_core.Turn.Events.{Event}
use speech_core.Turn.Local.{
  Env, Local, TurnSession, OpenTurn, next_turn_id, write, start_turn, note_turn, note_turn_opened,
}
use speech_core.Turn.Post.{Post, good, Post-write}
use speech_core.Turn.Invariant.{IsOrdered, IsLatest, IsCounted, Inv, Open}

IsLatest-write :
    (key : String) (s : TurnSession) (sent : List Event) (e : Event) (turn : Option OpenTurn)
    → IsLatest key s sent turn
    → IsLatest key s (e ∷ sent) turn
IsLatest-write key s sent e none h = tt
IsLatest-write key s sent e (some turn) h = (h.0, h.1, h.2, h.3, h.4, inr h.5)

pub IsCounted-write :
    {key : String} {s : TurnSession} {sent : List Event} (e : Event)
    → IsCounted key s sent
    → IsCounted key s (e ∷ sent)
IsCounted-write {key} {s} {sent} e c = record {
  named = c.named;
  indexed = c.indexed;
  bounded = c.bounded;
  closed_started = c.closed_started;
  latest = IsLatest-write key s sent e s.open_turn c.latest;
}

-- An event that is no `turn_closed` keeps the invariant.
pub Inv-write :
    {key : String} {base : List Event} {l : Local} (e : Event)
    → (IsOrdered l.sent → IsOrdered (e ∷ l.sent))
    → Inv key base l
    → Inv key base (record l { sent = e ∷ l.sent })
Inv-write e plain i = record {
  counted = IsCounted-write e i.counted;
  ordered = plain i.ordered;
  grown = λ t w. inr (i.grown t w);
}

module _ ⦃env : Env⦄ where
  pub write-Inv :
      {key : String} {base : List Event} (e : Event) (l : Local)
      → (IsOrdered l.sent → IsOrdered (e ∷ l.sent))
      → Inv key base l
      → Post (Inv key base) (Inv key base) (write e l)
  write-Inv e l plain i = Post-write e l (Inv-write e plain i) (Inv-write e plain i)

  pub write-Open :
      {key : String} {base : List Event} {turn : OpenTurn} (e : Event) (l : Local)
      → (IsOrdered l.sent → IsOrdered (e ∷ l.sent))
      → Open key base turn l
      → Post (Inv key base) (Open key base turn) (write e l)
  write-Open e l plain o =
      let i = Inv-write e plain o.inv in Post-write e l (record { inv = i; is_open = o.is_open }) i

abbrev pub started_turn : TurnSession → ℕ → OpenTurn
started_turn s start_sample = record { turn_id = next_turn_id s; start_sample = start_sample }

module _ ⦃env : Env⦄ where
  -- A start opens the next turn, where none was open.
  pub start_turn-Open :
      {key : String} {base : List Event} (start_sample : ℕ) (source : String) (l : Local)
      → Inv key base l
      → Post
          (Inv key base)
          (Open key base (started_turn l.session start_sample))
          (start_turn start_sample source l)
  unfolding start_turn next_turn_id write
  start_turn-Open {key} {base} start_sample source l i =
      Post-write _ _ (record { inv = j; is_open = refl }) j
    where
      open i.counted use {named, indexed, bounded, closed_started}

      j : Inv key base (start_turn start_sample source l).1
      j = record {
        counted = record {
          named = named;
          indexed = ground arith;
          bounded = omega arith;
          closed_started = omega arith;
          latest = (l.session.turns_started, ground arith, bounded, refl, closed_started, inl refl);
        };
        ordered = i.ordered;
        grown = λ t w. inr (i.grown t w);
      }

-- What the invariant reads of a session is the same in another.
abbrev pub SameCounts : TurnSession → TurnSession → Type 0
SameCounts s t =
    (t.hello ≡ s.hello)
    × (t.open_turn ≡ s.open_turn)
    × (t.next_turn_index ≡ s.next_turn_index)
    × (t.turns_started ≡ s.turns_started)
    × (t.turns_closed ≡ s.turns_closed)

IsLatest-same :
    (key : String) (s t : TurnSession) (sent : List Event) (turn : Option OpenTurn)
    → SameCounts s t
    → IsLatest key s sent turn
    → IsLatest key t sent turn
IsLatest-same key s t sent none c h = tt
IsLatest-same key s t sent (some turn) c h = (h.0, h.1, h.2, c.3 ∙ h.3, rw c.4 h.4, h.5)

-- The other fields of a session, the progress and the clock are no part of the invariant.
pub Inv-same :
    {key : String} {base : List Event} {l m : Local}
    → SameCounts l.session m.session
    → m.sent ≡ l.sent
    → Inv key base l
    → Inv key base m
Inv-same {key} {base} {l} {m} c e i = record {
  counted = rw e (record {
    named = ap (λ h. h.stream_session_id) c.0 ∙ i.counted.named;
    indexed = c.2 ∙ i.counted.indexed ∙ sym c.3;
    bounded = rw c.3 i.counted.bounded;
    closed_started = rw (c.3, c.4) i.counted.closed_started;
    latest =
        rw c.1
          (IsLatest-same key l.session m.session l.sent l.session.open_turn c i.counted.latest);
  });
  ordered = rw e i.ordered;
  grown = λ t w. rw e (i.grown t w);
}

pub Open-same :
    {key : String} {base : List Event} {turn : OpenTurn} {l m : Local}
    → SameCounts l.session m.session
    → m.sent ≡ l.sent
    → Open key base turn l
    → Open key base turn m
Open-same c e o = record { inv = Inv-same c e o.inv; is_open = c.1 ∙ o.is_open }

-- A change of the session that the invariant does not see.
pub Inv-session :
    {key : String} {base : List Event} {l : Local} (s : TurnSession)
    → SameCounts l.session s
    → Inv key base l
    → Inv key base (record l { session = s })
Inv-session s c i = Inv-same c refl i

pub Open-session :
    {key : String} {base : List Event} {turn : OpenTurn} {l : Local} (s : TurnSession)
    → SameCounts l.session s
    → Open key base turn l
    → Open key base turn (record l { session = s })
Open-session s c o = Open-same c refl o

pub note_turn_opened-Open :
    {key : String} {base : List Event} {turn : OpenTurn} (session_id : String)
    (baseline : ModelProgressMap → ℕ) (l : Local)
    → Open key base turn l
    → Post (Inv key base) (Open key base turn) (note_turn_opened session_id baseline l)
unfolding note_turn_opened
note_turn_opened-Open {key} {base} {turn} session_id baseline l o =
    elim l.progress
      as (λ p. Post (Inv key base) (Open key base turn) (note_turn session_id baseline p l)) [
        | none ↦ good tt l o
        | some p ↦ good tt _ (Open-same (refl, refl, refl, refl, refl) refl o)
      ]

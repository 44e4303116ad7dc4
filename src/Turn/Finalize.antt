-- ===== src/Turn/Finalize.antt =====
-- Proofs on the end of one session and of all of them, while the log's worker runs
-- (end_session and finalize_all of crates/speech-core-daemon/src/detectors/turn.rs).
use speech_core.Base.{
  Bool, true, false, ◌||◌, String, str_eq, str_eq_iff, Option, none, some, List, [], ◌∷◌, map, ◌≡◌,
  refl, sym, ◌∙◌, contains, arith, subst, if_both, ◌⊎◌, inl, inr,
}
use speech_core.Base.Maps.{lookup, remove, lookup-remove_self, lookup-remove}
use speech_core.Turn.Local.{Env, Local, Outcome, ok, err, TurnSession, OpenTurn}
use speech_core.Turn.Close.{close_turn}
use speech_core.Turn.Manager.{TurnManager, enter, leave}
use speech_core.Turn.Manager.Sessions.{
  close_for_end, finish_session, end_session, end_all, finalize_all, insert_closed,
}
use speech_core.Turn.Post.{good, bad, Post-continue, Post-weaken}
use speech_core.Turn.Live.{IsLive, Succeeds, write-Succeeds, close_turn-IsClosed}

-- No session is left under a key.
abbrev pub IsGone : String → Outcome (Unit {0}) × TurnManager → Type 0
IsGone key r = (r.0 ≡ ok tt) × (lookup key r.1.sessions ≡ none)

-- The session is gone, and no other has come.
abbrev LeavesOut : String → TurnManager → Outcome (Unit {0}) × TurnManager → Type 0
LeavesOut id w r =
    (r.0 ≡ ok tt)
    × (lookup id r.1.sessions ≡ none)
    × ((key : String) → lookup key w.sessions ≡ none → lookup key r.1.sessions ≡ none)

lookup-remove-none :
    {V : Type 0} (id key : String) (m : List (String × V))
    → lookup key m ≡ none
    → lookup key (remove id m) ≡ none
lookup-remove-none id key m h =
    lookup-remove id key m ∙ if_both (λ o. o ≡ none) (str_eq id key) refl h

listed_or_none :
    {V : Type 0} (key : String) (m : List (String × V))
    → (contains key (map (λ p. p.0) m) ≡ true) ⊎ (lookup key m ≡ none)
unfolding lookup
listed_or_none key [] = inr refl
listed_or_none key ((j, v) ∷ m) = ground (arith, listed_or_none key m)

-- The key that was ended is gone, the others are still listed.
next_key :
    (id key : String) (ids : List String) (w : TurnManager) (r : Outcome (Unit {0}) × TurnManager)
    → LeavesOut id w r
    → (contains key (id ∷ ids) ≡ true) ⊎ (lookup key w.sessions ≡ none)
    → (contains key ids ≡ true) ⊎ (lookup key r.1.sessions ≡ none)
next_key id key ids w r l (inr h) = inr (l.2 key h)
next_key id key ids w r l (inl h) = go (str_eq id key) refl h
  where
    go :
        (b : Bool)
        → str_eq id key ≡ b
        → (b || contains key ids) ≡ true
        → (contains key ids ≡ true) ⊎ (lookup key r.1.sessions ≡ none)
    go true e h = inr (subst (λ k. lookup k r.1.sessions ≡ none) ((str_eq_iff id key).0 e) l.1)
    go false e h = inl h

outcome_of : {Q : Local → Type 0} {r : Outcome (Unit {0}) × Local} → Succeeds Q r → r.0 ≡ ok tt
outcome_of (good _ l q) = refl
outcome_of (bad l i) = absurd i

module _ ⦃env : Env⦄ (live : IsLive env) where
  close_for_end-Succeeds :
      (id reason : String) (turn : Option OpenTurn) (l : Local)
      → Succeeds (λ _. Unit {0}) (close_for_end id reason turn l)
  unfolding close_for_end close_turn
  close_for_end-Succeeds id reason none l = good tt l tt
  close_for_end-Succeeds id reason (some turn) l =
      Post-weaken (λ _ _. tt) (close_turn-IsClosed _ l live)

  finish_session-Succeeds :
      (id reason : String) (l : Local) → Succeeds (λ _. Unit {0}) (finish_session id reason l)
  unfolding finish_session
  finish_session-Succeeds id reason l =
      Post-continue (close_for_end-Succeeds id reason l.session.open_turn l)
        λ _ l1 _. write-Succeeds _ l1 live tt

  end_session-LeavesOut :
      (id reason : String) (w : TurnManager) → LeavesOut id w (end_session id reason w)
  unfolding end_session leave
  end_session-LeavesOut id reason w = go (lookup id w.sessions) refl
    where
      closed : TurnManager
      closed = record w { closed_sessions = insert_closed id w.closed_sessions }

      go :
          (found : Option TurnSession)
          → lookup id w.sessions ≡ found
          → LeavesOut id w (elim found as (λ _. Outcome (Unit {0}) × TurnManager) [
            | none ↦ (ok tt, closed)
            | some session ↦
                let r = finish_session id reason (enter session w) in
                (r.0, leave r.1 (record closed { sessions = remove id w.sessions }))
          ])
      go none e = (refl, e, λ key h. h)
      go (some session) e = (
        outcome_of (finish_session-Succeeds id reason (enter session w)),
        lookup-remove_self id w.sessions,
        λ key h. lookup-remove-none id key w.sessions h,
      )

  -- Every key that is listed, or that had no session before, has none afterwards.
  end_all-IsGone :
      (ids : List String) (reason key : String) (w : TurnManager)
      → (contains key ids ≡ true) ⊎ (lookup key w.sessions ≡ none)
      → IsGone key (end_all ids reason w)
  unfolding end_all
  end_all-IsGone [] reason key w (inl h) = cc
  end_all-IsGone [] reason key w (inr h) = (refl, h)
  end_all-IsGone (id ∷ ids) reason key w h =
      let l = end_session-LeavesOut id reason w in
      let rest =
        end_all-IsGone ids reason key (end_session id reason w).1
          (next_key id key ids w (end_session id reason w) l h) in
      subst
        (λ o. IsGone key (elim o as (λ _. Outcome (Unit {0}) × TurnManager) [
          | ok _ ↦ end_all ids reason (end_session id reason w).1
          | err ↦ (err, (end_session id reason w).1)
        ]))
        (sym l.0) rest

  -- While the log's worker runs, the end of all sessions succeeds and leaves no session behind.
  pub finalize_all-IsGone :
      (reason key : String) (w : TurnManager) → IsGone key (finalize_all reason w)
  unfolding finalize_all
  finalize_all-IsGone reason key w =
      end_all-IsGone (map (λ p. p.0) w.sessions) reason key w (listed_or_none key w.sessions)

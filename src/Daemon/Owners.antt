-- ===== src/Daemon/Owners.antt =====
-- Proofs on the generations of a stream's sessions (DaemonState::start_session and
-- DaemonState::end_session of crates/speech-core-daemon/src/main.rs).
use speech_core.Base.{
  eq_of, eq_self, ◌+◌, ◌%◌, Bool, true, false, String, Option, none, some, List, ◌≡◌, ◌≢◌, refl,
  sym, ◌∙◌, ap, subst, if◌then◌else◌, if_cases, is_some,
}
use speech_core.Base.Maps.{
  lookup, insert, remove, lookup-insert_self, lookup-remove_self, lookup-remove_other,
}
use speech_core.Turn.Local.{HelloState, Outcome, ok, err}
use speech_core.Daemon.Streams.{StreamState, new_stream}
use speech_core.Daemon.Ingest.{
  Delivery, to_model, to_detector, starts, ends, DaemonState, IngressEnv, deliver,
}
use speech_core.Daemon.Sessions.{
  deliver_if, forget_stream, detector_started, model_started, start_stream, owns, end_stream,
}

abbrev Streams : Type 0
Streams = List (String × StreamState)

abbrev identified : HelloState → DaemonState → HelloState
identified offered w = record offered { generation = w.next_generation }

-- What became of an attempt to start a session.
pub data StartEnd (offered : HelloState) (w : DaemonState)
    : Outcome HelloState × DaemonState → Type 0 where
  refused :
      (stream : StreamState) (after : DaemonState)
      → lookup offered.stream_session_id w.sessions ≡ some stream
      → after.sessions ≡ w.sessions
      → StartEnd offered w (err, after)
  given_up :
      (after : DaemonState)
      → lookup offered.stream_session_id after.sessions ≡ none
      → StartEnd offered w (err, after)
  begun :
      (after : DaemonState)
      → lookup offered.stream_session_id w.sessions ≡ none
      → lookup offered.stream_session_id after.sessions ≡ some (new_stream (identified offered w))
      → StartEnd offered w (ok (identified offered w), after)

-- A session that began stands under its id, with the next generation.
abbrev Stands : HelloState → DaemonState → Outcome HelloState × DaemonState → Type 0
Stands offered w (ok hello, after) =
    (hello ≡ identified offered w)
    × (lookup offered.stream_session_id after.sessions ≡ some (new_stream hello))
Stands offered w (err, after) = Unit

StartEnd-Stands :
    (offered : HelloState) (w : DaemonState) (r : Outcome HelloState × DaemonState)
    → StartEnd offered w r
    → Stands offered w r
StartEnd-Stands offered w _ (refused stream after e s) = tt
StartEnd-Stands offered w _ (given_up after e) = tt
StartEnd-Stands offered w _ (begun after e s) = (refl, s)

-- What the end of a connection leaves of the sessions.
abbrev ended : HelloState → List (String × StreamState) → List (String × StreamState)
ended hello m =
    if owns hello (lookup hello.stream_session_id m) then remove hello.stream_session_id m else m

-- An end takes another's session away from no id.
ended_other :
    (hello mine : HelloState) (id : String) (m : List (String × StreamState))
    → lookup id m ≡ some (new_stream mine)
    → hello.generation ≢ mine.generation
    → lookup id (ended hello m) ≡ some (new_stream mine)
unfolding new_stream
ended_other hello mine id m stands other =
    if_cases (λ n. lookup id n ≡ some (new_stream mine))
      (owns hello (lookup hello.stream_session_id m))
      (λ owned. lookup-remove_other hello.stream_session_id id m (apart owned) ∙ stands) λ _. stands
  where
    apart : owns hello (lookup hello.stream_session_id m) ≡ true → id ≢ hello.stream_session_id
    apart owned e = other (
        sym (
          eq_of mine.generation hello.generation
            (subst (λ o. owns hello o ≡ true) (ap (λ k. lookup k m) (sym e) ∙ stands) owned)))

ended_self :
    (mine : HelloState) (m : List (String × StreamState))
    → lookup mine.stream_session_id m ≡ some (new_stream mine)
    → lookup mine.stream_session_id (ended mine m) ≡ none
unfolding new_stream
ended_self mine m stands =
    subst
      (λ b. lookup mine.stream_session_id (if b then remove mine.stream_session_id m else m) ≡ none)
      (sym (ap (owns mine) stands ∙ eq_self mine.generation))
      (lookup-remove_self mine.stream_session_id m)

-- The sessions after a step.
abbrev left_by : {A : Type 0} → Outcome A × DaemonState → Streams
left_by r = r.1.sessions

module _ ⦃env : IngressEnv⦄ where
  deliver_if-sessions :
      (there : Bool) (d : Delivery) (w : DaemonState) → left_by (deliver_if there d w) ≡ w.sessions
  unfolding deliver
  deliver_if-sessions true d w = refl
  deliver_if-sessions false d w = refl

  -- The two workers do not touch the sessions.
  told_both :
      (there : Bool) (a : Delivery) (there' : Bool) (b : Delivery) (w : DaemonState)
      → left_by (deliver_if there' b (deliver_if there a w).1) ≡ w.sessions
  told_both there a there' b w = deliver_if-sessions there' b _ ∙ deliver_if-sessions there a w

  module _ (offered : HelloState) (w : DaemonState)
      (free : lookup offered.stream_session_id w.sessions ≡ none) where
    abbrev id : String
    id = offered.stream_session_id

    abbrev hello : HelloState
    hello = identified offered w

    detector_started-StartEnd :
        (r : Outcome (Unit {0}) × DaemonState)
        → lookup id r.1.sessions ≡ some (new_stream hello)
        → StartEnd offered w (detector_started hello r)
    detector_started-StartEnd (ok _, v) h = begun v free h
    detector_started-StartEnd (err, v) h = given_up _ (lookup-remove_self _ _)

    model_started-StartEnd :
        (r : Outcome (Unit {0}) × DaemonState)
        → lookup id r.1.sessions ≡ some (new_stream hello)
        → StartEnd offered w (model_started hello r)
    model_started-StartEnd (ok _, v) h =
        detector_started-StartEnd _ (ap (lookup id) (deliver_if-sessions v.has_detector _ v) ∙ h)
    model_started-StartEnd (err, v) h = given_up _ (lookup-remove_self _ _)

  -- An attempt to start a session takes the next generation. It is refused exactly while the id is
  -- in use, which leaves the sessions alone; else the new session stands under its id, or, if a
  -- worker did not take it in, nothing does.
  pub start_stream-StartEnd :
      (offered : HelloState) (w : DaemonState) → StartEnd offered w (start_stream offered w)
  unfolding start_stream
  start_stream-StartEnd offered w = go (lookup offered.stream_session_id w.sessions) refl
    where
      counted : DaemonState
      counted = record w { next_generation = (w.next_generation + 1) % 18446744073709551616 }

      hello : HelloState
      hello = identified offered w

      opened : DaemonState
      opened = record counted {
        sessions = insert offered.stream_session_id (new_stream hello) w.sessions;
      }

      go :
          (o : Option StreamState)
          → lookup offered.stream_session_id w.sessions ≡ o
          → StartEnd offered w (
              if is_some o
              then (err, counted)
              else model_started hello (deliver_if w.has_model (to_model (starts hello)) opened))
      go none e = model_started-StartEnd offered w e _ (
          ap (lookup offered.stream_session_id) (deliver_if-sessions w.has_model _ opened)
          ∙ lookup-insert_self _ _ w.sessions)
      go (some stream) e = refused stream _ e refl

  -- What the end of a session leaves of the sessions.
  pub end_stream-sessions :
      (hello : HelloState) (reason : String) (w : DaemonState)
      → left_by (end_stream hello reason w) ≡ ended hello w.sessions
  unfolding end_stream
  end_stream-sessions hello reason w =
      sessions_of (owns hello (lookup hello.stream_session_id told.sessions))
      ∙ ap (ended hello) (told_both w.has_model _ w.has_detector _ w)
    where
      told : DaemonState
      told =
          (deliver_if w.has_detector (to_detector (ends hello reason))
            (deliver_if w.has_model (to_model (ends hello reason)) w).1).1

      sessions_of :
          (b : Bool)
          → (if b then forget_stream hello.stream_session_id told else told).sessions
            ≡ (if b then remove hello.stream_session_id told.sessions else told.sessions)
      sessions_of true = refl
      sessions_of false = refl

  -- A session that has started is ended by its own connection alone: a late end of an earlier
  -- session, of another generation, leaves it standing, and its own end takes it away.
  pub end_stream-start_stream :
      (offered earlier hello : HelloState) (reason : String) (w after : DaemonState)
      → start_stream offered w ≡ (ok hello, after)
      → earlier.generation ≢ w.next_generation
      → (lookup offered.stream_session_id (end_stream earlier reason after).1.sessions
          ≡ some (new_stream hello))
        × (lookup offered.stream_session_id (end_stream hello reason after).1.sessions ≡ none)
  end_stream-start_stream offered earlier hello reason w after started other = (
    ap (lookup offered.stream_session_id) (end_stream-sessions earlier reason after)
        ∙ ended_other earlier hello offered.stream_session_id after.sessions stands.1
            (λ e. other (e ∙ ap (λ h. h.generation) stands.0)),
    ap (lookup offered.stream_session_id) (end_stream-sessions hello reason after)
        ∙ subst (λ k. lookup k (ended hello after.sessions) ≡ none) same
            (ended_self hello after.sessions (ap (λ k. lookup k after.sessions) same ∙ stands.1)),
  )
    where
      stands : Stands offered w (ok hello, after)
      stands =
          subst (Stands offered w) started
            (StartEnd-Stands offered w _ (start_stream-StartEnd offered w))

      same : hello.stream_session_id ≡ offered.stream_session_id
      same = ap (λ h. h.stream_session_id) stands.0

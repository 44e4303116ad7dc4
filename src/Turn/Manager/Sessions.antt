-- ===== src/Turn/Manager/Sessions.antt =====
-- start_session, audio_gap_reset, end_session and finalize_all of TurnManager
-- (crates/speech-core-daemon/src/detectors/turn.rs).
use speech_core.Base.{
  ℕ, max, true, false, not, String, str_eq, Option, none, some, List, [], ◌∷◌, map, leb,
  if◌then◌else◌, unwrap_or, filter_some, retain, contains,
}
use speech_core.Base.Int.{ℤ}
use speech_core.Base.Maps.{lookup, insert, remove}
use speech_core.Turn.Config.{TurnManagerConfig}
use speech_core.Turn.Signals.{Ids}
use speech_core.Turn.Events.{Event, turn_session_start, turn_audio_gap_reset, turn_session_end}
use speech_core.Turn.Local.{
  Env, Local, M, Outcome, ok, err, ◌>>=◌, ◌>>◌, return, get, modify, written, write, HelloState,
  OpenTurn, new_session, hello_ids,
}
use speech_core.Turn.Align.Waits.{token_end}
use speech_core.Turn.Close.{close_specific_turn}
use speech_core.Turn.Manager.{TurnManager, enter, leave}

abbrev pub insert_closed : String → List String → List String
insert_closed id ids = if contains id ids then ids else id ∷ ids

abbrev remove_closed : String → List String → List String
remove_closed id ids = retain (λ j. not (str_eq j id)) ids

abbrev pub session_start_event : TurnManagerConfig → HelloState → Event
session_start_event c hello = turn_session_start (record {
  ids = hello_ids hello;
  model_eou_close_enabled = c.model_eou_close_enabled;
  vad_close_enabled = c.vad_close_enabled;
  min_vad_speech_ms = c.min_vad_speech_ms;
  min_model_eou_speech_ms = c.min_model_eou_speech_ms;
  model_eou_refractory_ms = c.model_eou_refractory_ms;
  semantic_gate_enabled = c.semantic_gate_enabled;
  semantic_gate_close_enabled = c.semantic_gate_close_enabled;
  human_hold_silence_ms = c.human_hold_silence_ms;
  transcript_silence_close_ms = c.transcript_silence_close_ms;
})

pub record AudioGapReset : Type 0 where
  pub ids : Ids
  pub expected_sample_start : ℕ  -- u64
  pub observed_sample_start : ℕ  -- u64
  pub delta_samples : ℤ  -- i64
  pub reason : String

-- Where a turn ends whose session ends: at its last token or VAD end, or at its start.
abbrev pub later : Option ℕ → Option ℕ → Option ℕ
later none b = b
later (some a) none = some a
later (some a) (some b) = some (max a b)

unfoldable pub session_end_sample : ℕ → Option ℕ → Option ℕ → ℕ
session_end_sample turn_start token_end vad_end =
    unwrap_or
      (later (filter_some token_end (λ sample. leb turn_start sample))
        (filter_some vad_end (λ sample. leb turn_start sample)))
      turn_start

module _ ⦃env : Env⦄ where
  unfoldable pub start_session : HelloState → TurnManager → Outcome (Unit {0}) × TurnManager
  start_session hello w =
      let e = session_start_event w.config hello in
      (
        written e w.sent,
        record w {
          closed_sessions = remove_closed hello.stream_session_id w.closed_sessions;
          sessions = insert hello.stream_session_id (new_session hello) w.sessions;
          sent = e ∷ w.sent;
        },
      )

  unfoldable pub close_for_gap : AudioGapReset → Option OpenTurn → M (Unit {0})
  close_for_gap gap none = return tt
  close_for_gap gap (some turn) = do
    modify λ s. record s { open_turn = none }
    close_specific_turn (record {
      turn_id = turn.turn_id;
      source = "audio_gap";
      degraded = true;
      detector = "audio_gap";
      confidence = none;
      end_sample = gap.expected_sample_start;
      decision_sample = gap.observed_sample_start;
      reason = gap.reason;
      turn_start_sample = turn.start_sample;
    })

  unfoldable pub gap_reset : AudioGapReset → M (Unit {0})
  gap_reset gap = do
    l ← get
    close_for_gap gap l.session.open_turn
    modify λ s. record s {
      in_speech = false;
      saw_vad_signal = false;
      last_vad_start_sample = none;
      last_vad_end_sample = none;
      last_vad_end_decision_sample = none;
      last_semantic_decision = none;
      last_human_hold_token_anchor = none;
    }
    write (
        turn_audio_gap_reset (record {
          ids = gap.ids;
          expected_sample_start = gap.expected_sample_start;
          observed_sample_start = gap.observed_sample_start;
          delta_samples = gap.delta_samples;
          reason = gap.reason;
        }))

  -- A session that was taken out comes back only if the work on it succeeds.
  unfoldable pub restored : String → Outcome (Unit {0}) × Local → TurnManager → TurnManager
  restored id (ok _, l) w = record (leave l w) { sessions = insert id l.session w.sessions }
  restored id (err, l) w = leave l w

  unfoldable pub audio_gap_reset : AudioGapReset → TurnManager → Outcome (Unit {0}) × TurnManager
  audio_gap_reset gap w = elim (lookup gap.ids.stream_session_id w.sessions) [
    | none ↦ (ok tt, w)
    | some session ↦
        let id = gap.ids.stream_session_id in
        let r = gap_reset gap (enter session w) in
        (r.0, restored id r (record w { sessions = remove id w.sessions }))
  ]

  unfoldable pub close_for_end : String → String → Option OpenTurn → M (Unit {0})
  close_for_end id reason none = return tt
  close_for_end id reason (some turn) = do
    modify λ s. record s { open_turn = none }
    l ← get
    let end_sample =
        session_end_sample turn.start_sample (token_end id l) l.session.last_vad_end_sample
    close_specific_turn (record {
      turn_id = turn.turn_id;
      source = "session_end";
      degraded = true;
      detector = "session_end";
      confidence = none;
      end_sample = end_sample;
      decision_sample = end_sample;
      reason = reason;
      turn_start_sample = turn.start_sample;
    })

  unfoldable pub finish_session : String → String → M (Unit {0})
  finish_session id reason = do
    l ← get
    close_for_end id reason l.session.open_turn
    l' ← get
    write (
        turn_session_end (record {
          ids = hello_ids l'.session.hello;
          reason = reason;
          turns_started = l'.session.turns_started;
          turns_closed = l'.session.turns_closed;
        }))

  unfoldable pub end_session : String → String → TurnManager → Outcome (Unit {0}) × TurnManager
  end_session id reason w =
      let w' = record w { closed_sessions = insert_closed id w.closed_sessions } in
      elim (lookup id w.sessions) [
        | none ↦ (ok tt, w')
        | some session ↦
            let r = finish_session id reason (enter session w) in
            (r.0, leave r.1 (record w' { sessions = remove id w.sessions }))
      ]

  -- The first session whose end fails ends the loop.
  unfoldable pub end_all : List String → String → TurnManager → Outcome (Unit {0}) × TurnManager
  end_all [] reason w = (ok tt, w)
  end_all (id ∷ ids) reason w = elim (end_session id reason w).0 [
    | ok _ ↦ end_all ids reason (end_session id reason w).1
    | err ↦ (err, (end_session id reason w).1)
  ]

  -- The order of the map's keys is not specified in the source; here it is that of the list.
  unfoldable pub finalize_all : String → TurnManager → Outcome (Unit {0}) × TurnManager
  finalize_all reason w = end_all (map (λ p. p.0) w.sessions) reason w

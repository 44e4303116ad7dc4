-- ===== src/Turn/Align/Waits.antt =====
-- Waiting for the model before a close: wait_for_model_progress_until,
-- wait_for_token_quiescence_until and apply_trailing_token_extension of
-- crates/speech-core-daemon/src/detectors/turn.rs. Clocks are in nanoseconds, and time passes
-- while the thread sleeps or waits for a drain. A loop has one round of fuel for each nanosecond
-- up to its deadline, and each sleep takes one at least.
use speech_core.Base.{
  ℕ, zero, suc, ◌+◌, ◌-◌, ◌*◌, ◌/◌, min, max, Bool, true, false, String, Option, none, some, ltb,
  leb, if◌then◌else◌, unwrap_or, map_some, opt_eq, and_then,
}
use speech_core.Base.Words.{u32_max, u64_max, saturating_add}
use speech_core.Progress.Ops.{get_audio, last_token_end_sample}
use speech_core.Turn.Config.{ms_to_samples}
use speech_core.Turn.Local.{Env, Local}

abbrev pub ns_per_ms : ℕ
ns_per_ms = 1000000

-- `elapsed().as_millis().try_into().unwrap_or(u64::MAX)`.
abbrev pub elapsed_ms : ℕ → ℕ → ℕ
elapsed_ms started now = min ((now - started) / ns_per_ms) u64_max

abbrev pub remaining_timeout_ms : ℕ → ℕ → ℕ
remaining_timeout_ms deadline now = min ((deadline - now) / ns_per_ms) u32_max

module _ ⦃env : Env⦄ where
  unfoldable pub sleep : ℕ → Local → Local
  sleep duration l = record l {
    now_ns = l.now_ns + duration + env.overshoot_ns l.now_ns;
    progress = map_some l.progress (env.worker l.now_ns);
  }

-- What the shared progress says of a session, without a handle nothing.
unfoldable pub committed_audio : String → Local → ℕ
committed_audio id l = unwrap_or (and_then l.progress (get_audio id)) 0

unfoldable pub token_end : String → Local → Option ℕ
token_end id l = and_then l.progress (last_token_end_sample id)

pub record TokenQuiescence : Type 0 where
  pub last_token_end_sample : Option ℕ
  pub quiescent : Bool
  pub elapsed_ms : ℕ

-- Since when the last token is the same.
unfoldable pub still_since : Option ℕ → Option ℕ → ℕ → ℕ → ℕ
still_since current last_seen since now = if opt_eq current last_seen then since else now

-- The sleep of a round: to the deadline or to rest, and 5 ms at most.
unfoldable pub pause : ℕ → ℕ → ℕ → ℕ → ℕ
pause deadline stable_for since now =
    min (min (deadline - now) (stable_for - (now - since))) (5 * ns_per_ms)

module _ ⦃env : Env⦄ where
  unfoldable pub progress_loop : ℕ → String → ℕ → ℕ → Local → Bool × Local
  progress_loop zero id target deadline l = (false, l)
  progress_loop (suc fuel) id target deadline l =
      let rest = progress_loop fuel id target deadline (sleep ns_per_ms l) in
      if leb target (committed_audio id l)
      then (true, l)
      else if leb deadline l.now_ns
      then (false, l)
      else rest

  unfoldable pub wait_for_model_progress_until : String → ℕ → ℕ → Local → Bool × Local
  wait_for_model_progress_until id target deadline l =
      progress_loop (suc (deadline - l.now_ns)) id target deadline l

  -- Without a deadline of its own; the result is not used.
  unfoldable pub wait_for_model_progress : String → ℕ → ℕ → Local → Local
  wait_for_model_progress id target timeout_ms l =
      (wait_for_model_progress_until id target (l.now_ns + timeout_ms * ns_per_ms) l).1

  -- `started`, `last_seen` and `stable_since` are the loop's variables.
  unfoldable pub quiescence_loop :
      ℕ → String → ℕ → ℕ → ℕ → Option ℕ → ℕ → Local → TokenQuiescence × Local
  quiescence_loop zero id deadline stable_for started last_seen stable_since l =
      (record { last_token_end_sample = last_seen; quiescent = false; elapsed_ms = 0 }, l)
  quiescence_loop (suc fuel) id deadline stable_for started last_seen stable_since l =
      let current = token_end id l in
      let since = still_since current last_seen stable_since l.now_ns in
      let rest =
        quiescence_loop fuel id deadline stable_for started current since
          (sleep (pause deadline stable_for since l.now_ns) l) in
      let elapsed = elapsed_ms started l.now_ns in
      if leb deadline l.now_ns
      then (
        record { last_token_end_sample = last_seen; quiescent = false; elapsed_ms = elapsed },
        l,
      )
      else if leb stable_for (l.now_ns - since)
      then (record { last_token_end_sample = current; quiescent = true; elapsed_ms = elapsed }, l)
      else rest

  unfoldable pub wait_for_token_quiescence_until : String → ℕ → ℕ → Local → TokenQuiescence × Local
  wait_for_token_quiescence_until id deadline stable_for l =
      quiescence_loop (suc (deadline - l.now_ns)) id deadline stable_for l.now_ns (token_end id l)
        l.now_ns l

-- The two samples that a close goes by.
pub record Boundary : Type 0 where
  pub end_sample : ℕ
  pub decision_sample : ℕ

abbrev pub extend_to : ℕ → Boundary → Boundary
extend_to e b =
    if ltb b.end_sample e
    then record { end_sample = e; decision_sample = max b.decision_sample e }
    else b

-- After a drain that went well any later token counts.
unfoldable pub finalized_extension : Option ℕ → Boundary → Boundary
finalized_extension none b = b
finalized_extension (some e) b = extend_to e b

-- Else only a token that ends within 320 ms after the decision.
unfoldable pub apply_trailing_token_extension : Option ℕ → ℕ → Boundary → Boundary
apply_trailing_token_extension none decision b = b
apply_trailing_token_extension (some e) decision b =
    if leb e (saturating_add decision (ms_to_samples 320)) then extend_to e b else b

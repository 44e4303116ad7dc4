-- ===== src/Turn/Align/Loops.antt =====
-- Proofs on the two waiting loops of Turn/Align/Waits
-- (crates/speech-core-daemon/src/detectors/turn.rs).
use speech_core.Base.{
  ℕ, zero, suc, ◌+◌, ◌-◌, ◌≤◌, ◌<◌, Bool, true, false, String, leb, ◌≡◌, refl, ap, sym, subst,
  eq_of, Option, none, some, if◌then◌else◌, arith, if_cases, opt_eq,
}
use speech_core.Turn.Local.{Env, Local}
use speech_core.Turn.Align.Waits.{
  ns_per_ms, sleep, committed_audio, token_end, progress_loop, wait_for_model_progress_until,
  TokenQuiescence, quiescence_loop, still_since, pause, wait_for_token_quiescence_until,
}

opt_eq_lem : (a b : Option ℕ) → opt_eq a b ≡ true → a ≡ b
opt_eq_lem none none h = refl
opt_eq_lem none (some b) h = cc
opt_eq_lem (some a) none h = cc
opt_eq_lem (some a) (some b) h = ap (λ n. some n) (eq_of a b h)

-- How a wait for audio ends: with the target committed, or at the deadline without it.
pub data WaitEnd (id : String) (target deadline : ℕ) : Bool × Local → Type 0 where
  caught_up : (l : Local) → target ≤ committed_audio id l → WaitEnd id target deadline (true, l)
  timed_out :
      (l : Local)
      → committed_audio id l < target
      → deadline ≤ l.now_ns
      → WaitEnd id target deadline (false, l)

-- From the look at the time `since` up to the one at `l` every look has found the same last token;
-- between two looks lies a sleep.
pub data Still ⦃env : Env⦄ (id : String) (last : Option ℕ) (since : ℕ) : Local → Type 0 where
  first_look : (l : Local) → token_end id l ≡ last → l.now_ns ≡ since → Still id last since l
  next_look :
      (duration : ℕ) (l : Local)
      → Still id last since l
      → token_end id (sleep duration l) ≡ last
      → Still id last since (sleep duration l)

-- How a wait for rest ends: the last token has been the same for as long as required, before the
-- deadline, or the deadline has come.
pub data RestEnd ⦃env : Env⦄ (id : String) (deadline stable_for started : ℕ)
    : TokenQuiescence × Local → Type 0 where
  rested :
      (last : Option ℕ) (elapsed since : ℕ) (l : Local)
      → Still id last since l
      → started ≤ since
      → since + stable_for ≤ l.now_ns
      → l.now_ns < deadline
      → RestEnd id deadline stable_for started
          (record { last_token_end_sample = last; quiescent = true; elapsed_ms = elapsed }, l)
  out_of_time :
      (last : Option ℕ) (elapsed : ℕ) (l : Local)
      → deadline ≤ l.now_ns
      → RestEnd id deadline stable_for started
          (record { last_token_end_sample = last; quiescent = false; elapsed_ms = elapsed }, l)

-- One round of the loop on audio: `rest` is what the later rounds give.
progress_round :
    (id : String) (target deadline : ℕ) (l : Local) {rest : Bool × Local}
    → (l.now_ns < deadline → WaitEnd id target deadline rest)
    → WaitEnd id target deadline (
        if leb target (committed_audio id l)
        then (true, l)
        else if leb deadline l.now_ns
        then (false, l)
        else rest)
progress_round id target deadline l later =
    if_cases (WaitEnd id target deadline) (leb target (committed_audio id l))
      (λ e. caught_up l (ground arith))
      λ e.
        if_cases (WaitEnd id target deadline) (leb deadline l.now_ns)
          (λ f. timed_out l (ground arith) (ground arith)) (λ f. later (ground arith))

-- A round sleeps for one nanosecond at least.
pause_positive :
    (deadline stable_for since now : ℕ)
    → now < deadline
    → now - since < stable_for
    → 1 ≤ pause deadline stable_for since now
unfolding pause
pause_positive deadline stable_for since now h r = ground arith

still_since_bounds :
    (current last : Option ℕ) (started since now : ℕ)
    → started ≤ since
    → since ≤ now
    → (started ≤ still_since current last since now) × (still_since current last since now ≤ now)
unfolding still_since
still_since_bounds current last started since now s n =
    if_cases (λ t. (started ≤ t) × (t ≤ now)) (opt_eq current last) (λ _. (s, n))
      (λ _. (omega arith, omega arith))

-- A look that finds the token of the looks before, or a new one.
Still-looked :
    ⦃env : Env⦄ (id : String) (last : Option ℕ) (since : ℕ) (l : Local)
    → (token_end id l ≡ last → Still id last since l)
    → Still id (token_end id l) (still_since (token_end id l) last since l.now_ns) l
unfolding still_since
Still-looked id last since l same =
    if_cases (λ t. Still id (token_end id l) t l) (opt_eq (token_end id l) last)
      (λ h.
        let e = opt_eq_lem (token_end id l) last h in
        subst (λ t. Still id t since l) (sym e) (same e))
      λ _. first_look l refl refl

-- One round of the loop on tokens, of which the last was new at `since`.
rest_round :
    ⦃env : Env⦄ (id : String) (deadline stable_for started since elapsed : ℕ) (last : Option ℕ)
    (l : Local) {rest : TokenQuiescence × Local}
    → Still id (token_end id l) since l
    → started ≤ since
    → since ≤ l.now_ns
    → (l.now_ns < deadline
        → l.now_ns - since < stable_for
        → RestEnd id deadline stable_for started rest)
    → RestEnd id deadline stable_for started (
        if leb deadline l.now_ns
        then (record { last_token_end_sample = last; quiescent = false; elapsed_ms = elapsed }, l)
        else if leb stable_for (l.now_ns - since)
        then (
          record { last_token_end_sample = token_end id l; quiescent = true; elapsed_ms = elapsed },
          l,
        )
        else rest)
rest_round id deadline stable_for started since elapsed last l still s n later =
    if_cases (RestEnd id deadline stable_for started) (leb deadline l.now_ns)
      (λ e. out_of_time last elapsed l (ground arith))
      λ e.
        if_cases (RestEnd id deadline stable_for started) (leb stable_for (l.now_ns - since))
          (λ f. rested (token_end id l) elapsed since l still s (ground arith) (ground arith))
          (λ f. later (ground arith) (ground arith))

module _ ⦃env : Env⦄ where
  progress_loop-WaitEnd :
      (fuel : ℕ) (id : String) (target deadline : ℕ) (l : Local)
      → deadline ≤ l.now_ns + fuel
      → WaitEnd id target deadline (progress_loop (suc fuel) id target deadline l)
  unfolding progress_loop sleep
  progress_loop-WaitEnd zero id target deadline l h =
      progress_round id target deadline l λ e. absurd (omega arith)
  progress_loop-WaitEnd (suc fuel) id target deadline l h =
      progress_round id target deadline l
        λ e. progress_loop-WaitEnd fuel id target deadline (sleep ns_per_ms l) (omega arith)

  -- The wait for the model's audio ends, and it says truly whether the target was reached: when it
  -- says yes, the audio that the model has committed reaches the target; when it says no, the
  -- deadline has come and the audio is still short of the target.
  pub wait_for_model_progress_until-WaitEnd :
      (id : String) (target deadline : ℕ) (l : Local)
      → WaitEnd id target deadline (wait_for_model_progress_until id target deadline l)
  unfolding wait_for_model_progress_until
  wait_for_model_progress_until-WaitEnd id target deadline l =
      progress_loop-WaitEnd (deadline - l.now_ns) id target deadline l (omega arith)

  quiescence_loop-RestEnd :
      (fuel : ℕ) (id : String) (deadline stable_for started : ℕ) (last : Option ℕ) (since : ℕ)
      (l : Local)
      → deadline ≤ l.now_ns + fuel
      → (token_end id l ≡ last → Still id last since l)
      → started ≤ since
      → since ≤ l.now_ns
      → RestEnd id deadline stable_for started
          (quiescence_loop (suc fuel) id deadline stable_for started last since l)
  unfolding quiescence_loop sleep
  quiescence_loop-RestEnd zero id deadline stable_for started last since l h same s n =
      let b = still_since_bounds (token_end id l) last started since l.now_ns s n in
      rest_round id deadline stable_for started _ _ last l (Still-looked id last since l same) b.0
        b.1 λ e f. absurd (omega arith)
  quiescence_loop-RestEnd (suc fuel) id deadline stable_for started last since l h same s n =
      let b = still_since_bounds (token_end id l) last started since l.now_ns s n in
      rest_round id deadline stable_for started _ _ last l (Still-looked id last since l same) b.0
        b.1
        λ e f.
          quiescence_loop-RestEnd fuel id deadline stable_for started _ _
            (sleep
              (pause deadline stable_for (still_since (token_end id l) last since l.now_ns)
                l.now_ns)
              l)
            (omega (arith, h, pause_positive deadline stable_for _ l.now_ns e f))
            (λ e'. next_look _ l (Still-looked id last since l same) e') b.0 (omega (arith, b.1))

  -- The wait for the model's tokens to come to rest ends, and it says truly whether they did: when
  -- it says yes, the deadline has not come, and for at least the required rest every look at the
  -- progress, between the loop's sleeps, has found the last token that it reports; when it says no,
  -- the deadline has come.
  pub wait_for_token_quiescence_until-RestEnd :
      (id : String) (deadline stable_for : ℕ) (l : Local)
      → RestEnd id deadline stable_for l.now_ns
          (wait_for_token_quiescence_until id deadline stable_for l)
  unfolding wait_for_token_quiescence_until
  wait_for_token_quiescence_until-RestEnd id deadline stable_for l =
      quiescence_loop-RestEnd (deadline - l.now_ns) id deadline stable_for l.now_ns (token_end id l)
        l.now_ns l (omega arith) (λ _. first_look l refl refl) (omega arith) (omega arith)

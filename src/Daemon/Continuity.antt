-- ===== src/Daemon/Continuity.antt =====
-- Proofs on the way of a frame through the daemon (DaemonState::ingest of
-- crates/speech-core-daemon/src/main.rs).
use speech_core.Base.{
  eq_of, neq_of, ℕ, Bool, true, false, ◌&&◌, Option, none, some, List, [], ◌∷◌, ◌++◌, ◌≡◌, ◌≢◌, ◌⊎◌,
  inl, inr, refl, sym, ◌∙◌, ap, subst, if◌then◌else◌, if_cases, is_some, is_none, and_then, arith,
  unwrap_or, ◌==◌,
}
use speech_core.Base.Int.{pos}
use speech_core.Base.Maps.{lookup, insert, lookup-insert_self}
use speech_core.Protocol.Types.{AudioFrame, SourceSampleGap}
use speech_core.Turn.Local.{HelloState, Outcome, ok, err}
use speech_core.Turn.Manager.Sessions.{AudioGapReset}
use speech_core.Daemon.Streams.{
  AudioSampleGap, StreamState, frame_ids, sample_gap, declared_gap, gap_from, advanced,
  from_sample_gap, is_zero, signed_u64_delta, validate_frame_against_hello,
}
use speech_core.Daemon.Ingest.{
  Delivery, feeds, DaemonState, IngressEnv, IngestOutcome, outcome_for, to_both, reset_deliveries,
  deliver, deliver_all, after_delivery, ingest_stream, ingest,
}

-- The queues take everything.
abbrev pub IsOpen : IngressEnv → Type 0
IsOpen env = (deliveries : List Delivery) → env.accepts deliveries ≡ true

-- Deliveries one after the other, the newest first.
abbrev pub told : List Delivery → List Delivery → List Delivery
told [] before = before
told (d ∷ rest) before = told rest (d ∷ before)

-- Whether a reset is due for the frame, and which.
pub data Continuity (stream : StreamState) (frame : AudioFrame)
    : Option AudioGapReset → Type 0 where
  unbroken :
      (stream.next_sample_start ≡ none)
        ⊎ (stream.next_sample_start ≡ some frame.header.source_sample_start)
      → frame.header.preceding_source_gap ≡ none
      → Continuity stream frame none
  broken :
      (reset : AudioGapReset)
      → reset.ids ≡ frame_ids frame
      → reset.observed_sample_start ≡ frame.header.source_sample_start
      → reset.expected_sample_start
        ≡ unwrap_or stream.next_sample_start frame.header.source_sample_start
      → (is_some frame.header.preceding_source_gap ≡ true)
        ⊎ ((stream.next_sample_start ≡ some reset.expected_sample_start)
            × (reset.observed_sample_start ≢ reset.expected_sample_start))
      → Continuity stream frame (some reset)

and_left : (a b : Bool) → (a && b) ≡ true → a ≡ true
and_left true b h = refl
and_left false b h = h

-- A difference of zero is none.
signed_u64_delta-zero :
    (observed expected : ℕ)
    → is_zero (signed_u64_delta observed expected) ≡ true
    → observed ≡ expected
unfolding signed_u64_delta
signed_u64_delta-zero observed expected h = ground arith

-- The gap with what the frame declares as an argument.
abbrev gap_with : AudioFrame → ℕ → Option SourceSampleGap → AudioSampleGap
gap_with frame expected declared = record (gap_from frame expected (pos 0)) {
  declared_source_gap = declared;
}

declared_gap-Continuity :
    (stream : StreamState) (frame : AudioFrame) (expected : ℕ) (declared : Option SourceSampleGap)
    → frame.header.preceding_source_gap ≡ declared
    → expected ≡ unwrap_or stream.next_sample_start frame.header.source_sample_start
    → (stream.next_sample_start ≡ none)
      ⊎ (stream.next_sample_start ≡ some frame.header.source_sample_start)
    → Continuity stream frame (and_then (declared_gap frame expected) from_sample_gap)
unfolding from_sample_gap gap_from
declared_gap-Continuity stream frame expected declared e due next =
    subst
      (λ d.
        Continuity stream frame
          (and_then (if is_some d then some (gap_with frame expected d) else none) from_sample_gap))
      (sym e) (go declared e)
  where
    go :
        (d : Option SourceSampleGap)
        → frame.header.preceding_source_gap ≡ d
        → Continuity stream frame (
            and_then (if is_some d then some (gap_with frame expected d) else none) from_sample_gap)
    go none is = unbroken next is
    go (some gap) is = broken _ refl refl due (inl (ap is_some is))

jump-Continuity :
    (stream : StreamState) (frame : AudioFrame) (expected : ℕ)
    → stream.next_sample_start ≡ some expected
    → frame.header.source_sample_start ≢ expected
    → Continuity stream frame (
        from_sample_gap
          (gap_from frame expected (signed_u64_delta frame.header.source_sample_start expected)))
unfolding from_sample_gap gap_from
jump-Continuity stream frame expected next jump =
    if_cases (Continuity stream frame)
      (is_zero (signed_u64_delta frame.header.source_sample_start expected)
        && is_none frame.header.preceding_source_gap)
      (λ zero. absurd (
        jump (signed_u64_delta-zero frame.header.source_sample_start expected (and_left _ _ zero))))
      λ _.
        broken _ refl refl (sym (ap (λ o. unwrap_or o frame.header.source_sample_start) next))
          (inr (next, jump))

sample_gap-Continuity :
    (stream : StreamState) (frame : AudioFrame)
    → Continuity stream frame (and_then (sample_gap stream frame) from_sample_gap)
unfolding sample_gap
sample_gap-Continuity stream frame = go stream.next_sample_start refl
  where
    start : ℕ
    start = frame.header.source_sample_start

    go :
        (next : Option ℕ)
        → stream.next_sample_start ≡ next
        → Continuity stream frame (
            and_then
              (elim next as (λ _. Option AudioSampleGap) [
                | none ↦ declared_gap frame start
                | some expected ↦
                    if start == expected
                    then declared_gap frame expected
                    else some (gap_from frame expected (signed_u64_delta start expected))
              ])
              from_sample_gap)
    go none e =
        declared_gap-Continuity stream frame start _ refl (sym (ap (λ o. unwrap_or o start) e))
          (inl e)
    go (some expected) e =
        if_cases (λ g. Continuity stream frame (and_then g from_sample_gap)) (start == expected)
          (λ same.
            declared_gap-Continuity stream frame expected _ refl
              (sym (ap (λ o. unwrap_or o start) e))
              (inr (e ∙ ap (λ n. some n) (sym (eq_of start expected same)))))
          λ other. jump-Continuity stream frame expected e (neq_of start expected other)

-- The frame was taken in: its stream goes on after it, and what was passed on before the frame is
-- the reset that it calls for, if any.
pub data Passage (stream : StreamState) (frame : AudioFrame) (ingress : ℕ) (w : DaemonState)
    : Outcome IngestOutcome × DaemonState → Type 0 where
  passed :
      (reset : Option AudioGapReset) (after : DaemonState)
      → Continuity stream frame reset
      → lookup frame.header.stream_session_id after.sessions ≡ some (advanced frame stream)
      → after.delivered ≡ told (reset_deliveries reset w ++ to_both (feeds frame) w) w.delivered
      → Passage stream frame ingress w (ok (outcome_for stream frame ingress), after)

module _ ⦃env : IngressEnv⦄ (open_queues : IsOpen env) where
  deliver_all-told :
      (ds : List Delivery) (w : DaemonState)
      → deliver_all ds w ≡ (ok tt, record w { delivered = told ds w.delivered })
  unfolding deliver_all deliver
  deliver_all-told [] w = refl
  deliver_all-told (d ∷ rest) w =
      subst
        (λ b.
          after_delivery (deliver_all rest)
            (if b then ok tt else err, record w { delivered = d ∷ w.delivered })
          ≡ (ok tt, record w { delivered = told rest (d ∷ w.delivered) }))
        (sym (open_queues (d ∷ w.delivered)))
        (deliver_all-told rest (record w { delivered = d ∷ w.delivered }))

  -- While the queues take what they are given, a frame that fits the session's hello is taken in:
  -- the stream goes on after it, and the frame is passed to the model and then the detectors.
  -- Before it goes a reset to the frame's first sample, exactly if the frame declares a gap or does
  -- not start where the stream goes on, whatever its sequence number; that reset names the frame's
  -- session, and the sample where the stream goes on, or the frame's first where it is the first.
  pub ingest-Passage :
      (hello : HelloState) (frame : AudioFrame) (ingress : ℕ) (stream : StreamState)
      (w : DaemonState)
      → validate_frame_against_hello hello frame ≡ true
      → lookup frame.header.stream_session_id w.sessions ≡ some stream
      → Passage stream frame ingress w (ingest hello frame ingress w)
  unfolding ingest
  ingest-Passage hello frame ingress stream w valid found =
      subst
        (λ b. Passage stream frame ingress w (
          if b
          then ingest_stream frame ingress (lookup frame.header.stream_session_id w.sessions) w
          else (err, w)))
        (sym valid)
        (subst (λ o. Passage stream frame ingress w (ingest_stream frame ingress o w)) (sym found)
          taken)
    where
      after : DaemonState
      after = record w {
        sessions = insert frame.header.stream_session_id (advanced frame stream) w.sessions;
      }

      reset : Option AudioGapReset
      reset = and_then (sample_gap stream frame) from_sample_gap

      taken : Passage stream frame ingress w (ingest_stream frame ingress (some stream) w)
      taken =
          subst
            (λ r.
              Passage stream frame ingress w
                (after_delivery (λ last. (ok (outcome_for stream frame ingress), last)) r))
            (sym (
              deliver_all-told (reset_deliveries reset after ++ to_both (feeds frame) after) after))
            (passed reset _ (sample_gap-Continuity stream frame)
              (lookup-insert_self frame.header.stream_session_id _ w.sessions)
              (delivered_same reset))
        where
          delivered_same :
              (r : Option AudioGapReset)
              → told (reset_deliveries r after ++ to_both (feeds frame) after) w.delivered
                ≡ told (reset_deliveries r w ++ to_both (feeds frame) w) w.delivered
          delivered_same none = refl
          delivered_same (some x) = refl

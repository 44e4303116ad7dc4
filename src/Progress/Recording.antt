-- ===== src/Progress/Recording.antt =====
-- Proofs on the histories of the shared progress
-- (ModelProgressMap of crates/speech-core-daemon/src/model.rs).
use speech_core.Base.{
  ℕ, ◌&&◌, not, String, Option, none, some, [], ◌∷◌, leb, ◌≡◌, refl, sym, ap, ◌∙◌, if_both, length,
  is_none, is_some_and, is_some, All, str_eq, ◌==◌,
}
use speech_core.Base.Int.{ℤ, pos, negsuc, max_zero}
use speech_core.Base.Words.{as_u32}
use speech_core.Base.Maps.{lookup, insert, remove, update}
use speech_core.Progress.State.{
  Unicode, is_speech_evidence_text, CommittedTokenSnapshot, ModelProgressState, ModelProgressMap,
}
use speech_core.Progress.Ops.{
  fresh_state, turn_id_set, frozen_through, freeze_tokens_through, set_current_turn_id,
  token_recorded, record_token_snapshot, dispatched, start_session, update_audio,
  update_buffered_ms, record_token, update_committed_text, record_dispatch, remove_generation,
  state_dispatch,
}

-- The histories of the shared map: the calls that the model worker and the turn manager make.
pub data Recorded ⦃u : Unicode⦄ : ModelProgressMap → Type 0 where
  empty : Recorded []
  started :
      {m : ModelProgressMap} (id : String) (generation : ℕ)
      → Recorded m
      → Recorded (start_session id generation m)
  audio_updated :
      {m : ModelProgressMap} (id : String) (samples : ℕ)
      → Recorded m
      → Recorded (update_audio id samples m)
  buffer_updated :
      {m : ModelProgressMap} (id : String) (ms : ℤ)
      → Recorded m
      → Recorded (update_buffered_ms id ms m)
  token_ended :
      {m : ModelProgressMap} (id : String) (sample : ℕ)
      → Recorded m
      → Recorded (record_token id sample m)
  turn_set :
      {m : ModelProgressMap} (id : String) (turn_id : Option String)
      → Recorded m
      → Recorded (set_current_turn_id id turn_id m)
  tokens_frozen :
      {m : ModelProgressMap} (id : String) (sample : ℕ)
      → Recorded m
      → Recorded (freeze_tokens_through id sample m)
  text_updated :
      {m : ModelProgressMap} (id committed_text : String) (count : ℕ) (revision : ℤ)
      → Recorded m
      → Recorded (update_committed_text id committed_text count revision m)
  token_snapshotted :
      {m : ModelProgressMap} (id : String) (snapshot : CommittedTokenSnapshot)
      → Recorded m
      → Recorded (record_token_snapshot id snapshot m)
  turn_dispatched :
      {m : ModelProgressMap} (id turn_id committed_text : String) (turn_start turn_end baseline : ℕ)
      → Recorded m
      → Recorded (record_dispatch id turn_id committed_text turn_start turn_end baseline m)
  removed :
      {m : ModelProgressMap} (id : String) (generation : ℕ)
      → Recorded m
      → Recorded (remove_generation id generation m)

-- The count is that of the tokens, time in the buffer is not negative, and a dispatch on record
-- is complete.
pub record IsTallied (s : ModelProgressState) : Type 0 where
  pub count : s.committed_token_count ≡ as_u32 (length s.committed_tokens)
  pub buffer : s.buffered_ms ≡ max_zero s.buffered_ms
  pub complete : is_some (state_dispatch s) ≡ is_some s.last_dispatched_text

-- What holds of every session's state.
abbrev pub Everywhere : (ModelProgressState → Type 0) → ModelProgressMap → Type 0
Everywhere P m = All (λ e. P e.1) m

update-Everywhere :
    (P : ModelProgressState → Type 0) (id : String) (f : ModelProgressState → ModelProgressState)
    (m : ModelProgressMap)
    → ((s : ModelProgressState) → P s → P (f s))
    → Everywhere P m
    → Everywhere P (update id f m)
unfolding update
update-Everywhere P id f [] k h = tt
update-Everywhere P id f ((j, s) ∷ m) k h =
    if_both (Everywhere P) (str_eq j id) (k s h.0, h.1) (h.0, update-Everywhere P id f m k h.1)

insert-Everywhere :
    (P : ModelProgressState → Type 0) (id : String) (s : ModelProgressState) (m : ModelProgressMap)
    → P s
    → Everywhere P m
    → Everywhere P (insert id s m)
unfolding insert
insert-Everywhere P id s [] p h = (p, tt)
insert-Everywhere P id s ((j, t) ∷ m) p h =
    if_both (Everywhere P) (str_eq j id) (p, h.1) (h.0, insert-Everywhere P id s m p h.1)

remove-Everywhere :
    (P : ModelProgressState → Type 0) (id : String) (m : ModelProgressMap)
    → Everywhere P m
    → Everywhere P (remove id m)
unfolding remove
remove-Everywhere P id [] h = tt
remove-Everywhere P id ((j, s) ∷ m) h =
    if_both (Everywhere P) (str_eq j id) (remove-Everywhere P id m h.1)
      (h.0, remove-Everywhere P id m h.1)

max_zero_idempotent : (ms : ℤ) → max_zero ms ≡ max_zero (max_zero ms)
max_zero_idempotent (pos n) = refl
max_zero_idempotent (negsuc n) = refl

-- What the tally reads is the same in another state.
same-IsTallied :
    (s s' : ModelProgressState)
    → (s'.committed_token_count ≡ s.committed_token_count)
      × (s'.committed_tokens ≡ s.committed_tokens)
      × (s'.buffered_ms ≡ s.buffered_ms)
      × (state_dispatch s' ≡ state_dispatch s)
      × (s'.last_dispatched_text ≡ s.last_dispatched_text)
    → IsTallied s
    → IsTallied s'
same-IsTallied s s' e t = record {
  count = e.0 ∙ t.count ∙ ap (λ ts. as_u32 (length ts)) (sym e.1);
  buffer = e.2 ∙ t.buffer ∙ ap max_zero (sym e.2);
  complete = ap is_some e.3 ∙ t.complete ∙ ap is_some (sym e.4);
}

module _ ⦃u : Unicode⦄ where
  token_recorded-IsTallied :
      (snapshot : CommittedTokenSnapshot) (s : ModelProgressState)
      → IsTallied s
      → IsTallied (token_recorded snapshot s)
  unfolding token_recorded state_dispatch
  token_recorded-IsTallied snapshot s t =
      if_both IsTallied (not (is_speech_evidence_text snapshot.text) && is_none s.current_turn_id) t
        (if_both IsTallied
          (is_none s.current_turn_id
            && is_some_and s.suppress_tokens_at_or_before_sample (λ m. leb snapshot.end_sample m))
          t (record { count = refl; buffer = t.buffer; complete = t.complete }))

  turn_id_set-IsTallied :
      (turn_id : Option String) (s : ModelProgressState)
      → IsTallied s
      → IsTallied (turn_id_set turn_id s)
  unfolding turn_id_set state_dispatch
  turn_id_set-IsTallied none s t = record {
    count = t.count;
    buffer = t.buffer;
    complete = t.complete;
  }
  turn_id_set-IsTallied (some _) s t = record {
    count = t.count;
    buffer = t.buffer;
    complete = t.complete;
  }

  -- In every history of the shared map, each session's token count is the number of its recorded
  -- tokens (as a u32), its buffered time is not negative, and `dispatched_snapshot` has a dispatch
  -- for it as soon as a text was dispatched.
  pub Recorded-IsTallied : {m : ModelProgressMap} → Recorded m → Everywhere IsTallied m
  unfolding start_session fresh_state update_audio update_buffered_ms record_token
      set_current_turn_id freeze_tokens_through frozen_through update_committed_text
      record_token_snapshot record_dispatch dispatched remove_generation state_dispatch
  Recorded-IsTallied empty = tt
  Recorded-IsTallied (started id generation r) =
      insert-Everywhere IsTallied id _ _ (record { count = refl; buffer = refl; complete = refl })
        (Recorded-IsTallied r)
  Recorded-IsTallied (audio_updated id samples r) =
      update-Everywhere IsTallied id _ _
        (λ s t. same-IsTallied s _ (refl, refl, refl, refl, refl) t) (Recorded-IsTallied r)
  Recorded-IsTallied (buffer_updated id ms r) =
      update-Everywhere IsTallied id _ _
        (λ s t. record { count = t.count; buffer = max_zero_idempotent ms; complete = t.complete })
        (Recorded-IsTallied r)
  Recorded-IsTallied (token_ended id sample r) =
      update-Everywhere IsTallied id _ _
        (λ s t. same-IsTallied s _ (refl, refl, refl, refl, refl) t) (Recorded-IsTallied r)
  Recorded-IsTallied (turn_set id turn_id r) =
      update-Everywhere IsTallied id _ _ (turn_id_set-IsTallied turn_id) (Recorded-IsTallied r)
  Recorded-IsTallied (tokens_frozen id sample r) =
      update-Everywhere IsTallied id _ _
        (λ s t. same-IsTallied s _ (refl, refl, refl, refl, refl) t) (Recorded-IsTallied r)
  Recorded-IsTallied (text_updated id committed_text count revision r) =
      update-Everywhere IsTallied id _ _
        (λ s t. same-IsTallied s _ (refl, refl, refl, refl, refl) t) (Recorded-IsTallied r)
  Recorded-IsTallied (token_snapshotted id snapshot r) =
      update-Everywhere IsTallied id _ _ (token_recorded-IsTallied snapshot) (Recorded-IsTallied r)
  Recorded-IsTallied (turn_dispatched id turn_id committed_text turn_start turn_end baseline r) =
      update-Everywhere IsTallied id _ _
        (λ s t. record { count = t.count; buffer = t.buffer; complete = refl })
        (Recorded-IsTallied r)
  Recorded-IsTallied (removed {m} id generation r) =
      if_both (Everywhere IsTallied)
        (is_some_and (lookup id m) (λ state. state.generation == generation))
        (remove-Everywhere IsTallied id m (Recorded-IsTallied r)) (Recorded-IsTallied r)

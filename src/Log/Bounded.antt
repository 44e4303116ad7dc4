-- ===== src/Log/Bounded.antt =====
-- Proofs that the event log keeps its files to their size (LoggerWorker of
-- crates/speech-core-daemon/src/jsonl_logger.rs).
use mathlib.Core.List.{append-nil, append_assoc}
use speech_core.Base.{
  ℕ, ◌+◌, ◌≤◌, ◌<◌, max, String, none, some, List, [], ◌∷◌, ◌++◌, ◌≡◌, ◌⊎◌, inl, inr, refl, sym,
  ◌∙◌, ap, subst, if_both, if◌then◌else◌, drop, leb, length, arith,
}
use speech_core.Base.Words.{saturating_add, u64_max}
use speech_core.Base.Work.{
  Outcome, ok, err, ◌>>◌, modify, Post, good, bad, Post-continue, Post-both, Post-if,
}
use speech_core.Log.Files.{
  Io, open_file, read_metadata, write_bytes, flush_bytes, LogEnv, JsonlLoggerConfig, LoggerWorker,
  text_bytes, file_bytes,
}
use speech_core.Log.Writer.{
  contents, created, appended, hand_on, write_all, unchanged, open_active, flush, put_line,
  flush_if_due,
}
use speech_core.Log.Turned.{call-Post}
use speech_core.Log.Size.{
  newest, Small, Sized, Sized-same, file_bytes-append, one_line, no_line, no_bytes, Shrunk,
  hand_on-Shrunk, Shrunk-Sized, Shrunk-same, Shrunk-then,
}

module _ ⦃env : LogEnv⦄ (c : JsonlLoggerConfig) where
  -- What waits is written, in part or with losses.
  hand_on-Sized :
      (n m : ℕ) (io : List Io) (w : LoggerWorker)
      → Sized c w
      → Sized c (hand_on n m (record w { io = io }))
  hand_on-Sized n m io w sized =
      Shrunk-Sized c w (hand_on n m (record w { io = io })) sized (hand_on-Shrunk n m io w) refl
        refl (drop (n + m) (contents w.writer), refl)

  pub flush-Sized :
      (w : LoggerWorker)
      → Sized c w
      → Post (Sized c) (λ s. Sized c s × (s.writer ≡ some [])) (flush w)
  unfolding flush
  flush-Sized w sized =
      subst
        (λ o.
          Post (Sized c) (λ s. Sized c s × (s.writer ≡ some []))
            (elim o as (λ _. Outcome (Unit {0}) × LoggerWorker) [
              | none ↦ (ok tt, w)
              | some waiting ↦
                  if env.fails io
                  then (err, hand_on (env.reached io) (env.dropped io) (record w { io = io }))
                  else (
                    ok tt,
                    record w {
                      io = io;
                      dir = appended waiting w.dir;
                      writer = some [];
                      unflushed_lines = 0;
                    },
                  )
            ]))
        (sym e)
        (if_both
          (λ (r : Outcome (Unit {0}) × LoggerWorker).
            Post (Sized c) (λ s. Sized c s × (s.writer ≡ some [])) r)
          (env.fails io) (bad _ (hand_on-Sized (env.reached io) (env.dropped io) io w sized))
          (good tt _ (
            Sized-same c w after sized refl refl
                (ap (λ o. contents (w.dir 0) ++ contents o) e
                  ∙ sym (append-nil (contents (w.dir 0) ++ lines)))
                ([], refl),
            refl,
          )))
    where
      lines : List String
      lines = sized.3.0

      e : w.writer ≡ some lines
      e = sized.3.1

      io : List Io
      io = flush_bytes ∷ w.io

      after : LoggerWorker
      after = record w {
        io = flush_bytes ∷ w.io;
        dir = appended lines w.dir;
        writer = some [];
        unflushed_lines = 0;
      }

  pub open_active-Sized :
      (w : LoggerWorker)
      → w.config ≡ c
      → c.max_bytes < u64_max
      → w.writer ≡ none
      → file_bytes (contents (w.dir 0)) ≤ c.max_bytes
      → Post (Small c.max_bytes) (λ s. Sized c s × (newest s ≡ contents (w.dir 0))) (open_active w)
  unfolding open_active
  open_active-Sized w config fits shut small =
      Post-continue {Q = Opened}
        (call-Post open_file created w (inl (small_of w (shut, config, refl))) (shut, config, refl))
        λ _ w1 p1.
          Post-continue {Q = Opened}
            (call-Post read_metadata unchanged w1 (inl (small_of w1 p1)) p1)
            λ _ w2 p2.
              let bytes : file_bytes (contents (w2.dir 0)) ≤ c.max_bytes =
                subst (λ xs. file_bytes xs ≤ c.max_bytes) (sym p2.2) small in
              let whole : contents (w2.dir 0) ++ [] ≡ contents (w2.dir 0) =
                append-nil (contents (w2.dir 0)) in
              good tt _ (
                (
                  p2.1,
                  inl (subst (λ xs. file_bytes xs ≤ c.max_bytes) (sym whole) bytes),
                  omega (arith, bytes, ap file_bytes whole),
                  ([], refl),
                ),
                whole ∙ p2.2,
              )
    where
      Opened : LoggerWorker → Type 0
      Opened s = (s.writer ≡ none) × (s.config ≡ c) × (contents (s.dir 0) ≡ contents (w.dir 0))

      small_of : (s : LoggerWorker) → Opened s → file_bytes (newest s) ≤ c.max_bytes
      small_of s (closed_now, same_config, same) =
          subst (λ xs. file_bytes xs ≤ c.max_bytes)
            (sym (
              ap (λ o. contents (s.dir 0) ++ contents o) closed_now
              ∙ append-nil (contents (s.dir 0))
              ∙ same))
            small

  -- The file has room for a line, or has none yet.
  abbrev pub Room : String → LoggerWorker → Type 0
  Room text w = (file_bytes (newest w) + (text_bytes text + 1) ≤ c.max_bytes) ⊎ (newest w ≡ [])

  Room-Shrunk : (text : String) (w s : LoggerWorker) → Shrunk w s → Room text w → Room text s
  Room-Shrunk text w s k (inl fits) = inl (omega (arith, k.fewer_bytes, fits))
  Room-Shrunk text w s k (inr empty) =
      inr (no_bytes (newest s) (omega (arith, k.fewer_bytes, ap file_bytes empty, no_line)))

  Room-Small :
      (text : String) (xs : List String)
      → (file_bytes xs + (text_bytes text + 1) ≤ c.max_bytes) ⊎ (xs ≡ [])
      → (file_bytes (xs ++ text ∷ []) ≤ c.max_bytes) ⊎ (length (xs ++ text ∷ []) ≤ 1)
  Room-Small text xs (inl room) =
      inl (omega (arith, file_bytes-append xs (text ∷ []), one_line text))
  Room-Small text xs (inr empty) =
      inr (subst (λ ys. length (ys ++ text ∷ []) ≤ 1) (sym empty) (omega arith))

  -- What a write to the buffer leaves of the newest file.
  abbrev Written : LoggerWorker → LoggerWorker → Type 0
  Written w s = Sized c s × Shrunk w s

  write_all-Written :
      (w0 w : LoggerWorker) → Written w0 w → Post (Sized c) (Written w0) (write_all w)
  unfolding write_all
  write_all-Written w0 w (sized, shrunk) =
      if_both (λ (r : Outcome (Unit {0}) × LoggerWorker). Post (Sized c) (Written w0) r)
        (env.fails io) (bad _ (hand_on-Sized (env.reached io) (env.dropped io) io w sized))
        (good tt (hand_on (env.reached io) 0 called) (
          hand_on-Sized (env.reached io) 0 io w sized,
          Shrunk-then w0 w (hand_on (env.reached io) 0 called) shrunk
              (hand_on-Shrunk (env.reached io) 0 io w),
        ))
    where
      io : List Io
      io = write_bytes ∷ w.io

      called : LoggerWorker
      called = record w { io = io }

  pub put_line-Sized :
      (text : String) (w : LoggerWorker)
      → Sized c w
      → Room text w
      → Post (Sized c) (Sized c) (put_line text w)
  unfolding put_line
  put_line-Sized text w sized room =
      subst
        (λ o. Post (Sized c) (Sized c) (elim o as (λ _. Outcome (Unit {0}) × LoggerWorker) [
          | none ↦ (err, w)
          | some waiting ↦ (write_all >> (write_all >> modify longer)) w
        ]))
        (sym sized.3.1)
        (Post-continue (write_all-Written w w (sized, Shrunk-same w)) λ _ w1 p1.
          Post-continue (write_all-Written w w1 p1) λ _ w2 p2. good tt _ (longer_sized w2 p2))
    where
      longer : LoggerWorker → LoggerWorker
      longer s = record s {
        writer = some (contents s.writer ++ text ∷ []);
        active_bytes = saturating_add s.active_bytes (saturating_add (text_bytes text) 1);
        unflushed_lines = saturating_add s.unflushed_lines 1;
      }

      grown : (s : LoggerWorker) → newest s ++ text ∷ [] ≡ newest (longer s)
      grown s = append_assoc (contents (s.dir 0)) (contents s.writer) (text ∷ [])

      longer_bytes :
          (s : LoggerWorker)
          → file_bytes (newest (longer s)) ≡ file_bytes (newest s) + (text_bytes text + 1)
      longer_bytes s =
          ap file_bytes (sym (grown s))
          ∙ file_bytes-append (newest s) (text ∷ [])
          ∙ ap (λ n. file_bytes (newest s) + n) (one_line text)

      longer_sized : (s : LoggerWorker) → Written w s → Sized c (longer s)
      longer_sized s (is_sized, shrunk) = (
        is_sized.0,
        subst (λ xs. (file_bytes xs ≤ c.max_bytes) ⊎ (length xs ≤ 1)) (grown s)
            (Room-Small text (newest s) (Room-Shrunk text w s shrunk room)),
        omega (arith, longer_bytes s, is_sized.2),
        (contents s.writer ++ text ∷ [], refl),
      )

  pub flush_if_due-Sized :
      (w : LoggerWorker) → Sized c w → Post (Sized c) (Sized c) (flush_if_due w)
  unfolding flush_if_due
  flush_if_due-Sized w sized =
      Post-if (leb (max w.config.flush_batch_lines 1) w.unflushed_lines) _ _ w
        (λ due. Post-both (λ s t. t) (λ s t. t.0) (flush-Sized w sized)) λ early. good tt w sized

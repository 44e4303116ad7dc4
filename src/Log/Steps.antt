-- ===== src/Log/Steps.antt =====
-- Proofs on the lines through the steps of a write (flush, rotate and write_line of
-- crates/speech-core-daemon/src/jsonl_logger.rs).
use mathlib.Core.List.{append-nil, append_assoc}
use speech_core.Base.{
  max, String, none, some, List, [], ◌∷◌, ◌++◌, ◌≡◌, refl, sym, ◌∙◌, ap, subst, if_both,
  if◌then◌else◌, drop, ◌+◌, leb, arith,
}
use speech_core.Base.Words.{saturating_add}
use speech_core.Base.Work.{
  Outcome, ok, err, ◌>>◌, modify, Post, good, bad, Post-continue, Post-both, Post-if,
}
use speech_core.Log.Files.{
  open_file, read_metadata, write_bytes, flush_bytes, Io, file_bytes, LogEnv, LogDir, LoggerWorker,
  call, rotate_files, text_bytes,
}
use speech_core.Log.Writer.{
  contents, created, appended, hand_on, write_all, unchanged, open_active, flush, rotate, put_line,
  is_full, flush_if_due, write_line,
}
use speech_core.Log.Kept.{all_lines}
use speech_core.Log.Turned.{file_count, call-Post, rotate_files-Turned}
use speech_core.Log.Grown.{
  Later, Later-same, Grown-then, Later-then, all_lines-appended, all_lines-created, Turned-Later,
  Cleared, IsOpen, Added, Broken, Broken-more, Later-Broken, Grown-then_Broken, Later-then_Broken,
  hand_on-kept, hand_on-Broken,
}

module _ ⦃env : LogEnv⦄ where
  -- A call that leaves the lines where they are.
  call-Later :
      (op : Io) (f : LogDir → LogDir) (w0 w : LoggerWorker)
      → Later w0 w
      → all_lines (file_count w) (f w.dir) ≡ all_lines (file_count w) w.dir
      → Post (Later w0) (λ w'. Later w0 w' × (w'.writer ≡ w.writer)) (call op f w)
  call-Later op f w0 w later same =
      call-Post op f w
        (Later-then w0 w (record w { io = op ∷ w.io }) later
          (Later-same w (record w { io = op ∷ w.io }) refl refl))
        (
          Later-then w0 w after later
              (Later-same w after refl (ap (λ t. t ++ contents w.writer) (sym same))),
          refl,
        )
    where
      after : LoggerWorker
      after = record w { io = op ∷ w.io; dir = f w.dir }

  -- A flush that works empties the buffer; one that does not leaves a beginning of it in the file.
  pub flush-Cleared :
      (w : LoggerWorker) (lines : List String)
      → w.writer ≡ some lines
      → Post (Broken [] w) (Cleared w) (flush w)
  unfolding flush
  flush-Cleared w lines e =
      subst
        (λ o. Post (Broken [] w) (Cleared w) (elim o as (λ _. Outcome (Unit {0}) × LoggerWorker) [
          | none ↦ (ok tt, w)
          | some waiting ↦
              if env.fails io
              then (err, hand_on (env.reached io) (env.dropped io) (record w { io = io }))
              else (
                ok tt,
                record w {
                  io = io;
                  dir = appended waiting w.dir;
                  writer = some [];
                  unflushed_lines = 0;
                },
              )
        ]))
        (sym e)
        (if_both (λ (r : Outcome (Unit {0}) × LoggerWorker). Post (Broken [] w) (Cleared w) r)
          (env.fails io)
          (bad _ (hand_on-Broken (env.reached io) (env.dropped io) [] (record w { io = io })))
          (good tt _ (
            Later-same w after refl (
                ap (λ o. all_lines (file_count w) w.dir ++ contents o) e
                ∙ sym (all_lines-appended (file_count w) lines w.dir (omega arith))
                ∙ sym (append-nil (all_lines (file_count w) (appended lines w.dir)))),
            refl,
          )))
    where
      io : List Io
      io = flush_bytes ∷ w.io

      after : LoggerWorker
      after = record w {
        io = flush_bytes ∷ w.io;
        dir = appended lines w.dir;
        writer = some [];
        unflushed_lines = 0;
      }

  pub open_active-Cleared :
      (w0 w : LoggerWorker)
      → Later w0 w
      → w.writer ≡ none
      → Post (Later w0) (Cleared w0) (open_active w)
  unfolding open_active
  open_active-Cleared w0 w later e =
      Post-continue
        (call-Later open_file created w0 w later (all_lines-created (file_count w) w.dir))
        λ _ w1 p1. Post-continue (call-Later read_metadata unchanged w0 w1 p1.0 refl) λ _ w2 p2.
          let opened : LoggerWorker = record w2 {
            active_bytes = file_bytes (contents (w2.dir 0));
            writer = some [];
          } in
          good tt opened (
            Later-then w0 w2 opened p2.0 (
                Later-same w2 opened refl
                  (ap (λ o. all_lines (file_count w2) w2.dir ++ contents o) (p2.1 ∙ p1.1 ∙ e))),
            refl,
          )

  rotate-Cleared :
      (w : LoggerWorker) (lines : List String)
      → w.writer ≡ some lines
      → Post (Broken [] w) (Cleared w) (rotate w)
  unfolding rotate
  rotate-Cleared w lines e = Post-continue (flush-Cleared w lines e) λ _ w1 p1.
      let shut : LoggerWorker = record w1 { writer = none } in
      let shut_later : Later w shut =
        Later-then w w1 shut p1.0 (
          Later-same w1 shut refl
            (ap (λ o. all_lines (file_count w1) w1.dir ++ contents o) p1.1)) in
      Post-both (λ s t. Later-Broken [] w s t) (λ s t. t)
        (Post-continue {Q = λ s. Later w s × (s.writer ≡ none)}
          (subst (λ c. Post (Later w) (λ s. Later w s × (s.writer ≡ none)) (rotate_files c shut))
            p1.0.0
            (Post-both (λ s t. Later-then w shut s shut_later (Turned-Later shut s t))
              (λ s t. (Later-then w shut s shut_later (Turned-Later shut s t), t.0))
              (rotate_files-Turned shut)))
          λ _ w2 p2.
            open_active-Cleared w (record w2 { active_bytes = 0 })
              (Later-then w w2 (record w2 { active_bytes = 0 }) p2.0
                (Later-same w2 (record w2 { active_bytes = 0 }) refl refl))
              p2.1)

  -- Bytes that go to the buffer may push a beginning of it into the file.
  write_all-Added :
      (new : List String) (w0 w : LoggerWorker)
      → Later w0 w
      → Post (Broken new w0) (Added [] w0) (write_all w)
  unfolding write_all
  write_all-Added new w0 w later =
      if_both (λ (r : Outcome (Unit {0}) × LoggerWorker). Post (Broken new w0) (Added [] w0) r)
        (env.fails io)
        (bad _ (
          Later-then_Broken new w0 w (hand_on (env.reached io) (env.dropped io) called) later
            (hand_on-Broken (env.reached io) (env.dropped io) new called)))
        (good tt (hand_on (env.reached io) 0 called) (
          Later-then w0 w (hand_on (env.reached io) 0 called) later (
              Later-same w (hand_on (env.reached io) 0 called) refl
                (hand_on-kept (env.reached io) called)),
          (drop (env.reached io + 0) (contents w.writer), refl),
        ))
    where
      io : List Io
      io = write_bytes ∷ w.io

      called : LoggerWorker
      called = record w { io = io }

  put_line-Added :
      (text : String) (w : LoggerWorker) (lines : List String)
      → w.writer ≡ some lines
      → Post (Broken (text ∷ []) w) (Added (text ∷ []) w) (put_line text w)
  unfolding put_line
  put_line-Added text w lines e =
      subst
        (λ o.
          Post (Broken (text ∷ []) w) (Added (text ∷ []) w)
            (elim o as (λ _. Outcome (Unit {0}) × LoggerWorker) [
              | none ↦ (err, w)
              | some waiting ↦ (write_all >> (write_all >> modify longer)) w
            ]))
        (sym e)
        (Post-continue (write_all-Added (text ∷ []) w w (Later-same w w refl refl)) λ _ w1 p1.
          Post-continue (write_all-Added (text ∷ []) w w1 p1.0) λ _ w2 p2. good tt (longer w2) (
            Grown-then [] (text ∷ []) w w2 (longer w2) p2.0 (
              refl,
              (
                [],
                append_assoc (all_lines (file_count w2) w2.dir) (contents w2.writer) (text ∷ []),
              ),
            ),
            (contents w2.writer ++ text ∷ [], refl),
          ))
    where
      longer : LoggerWorker → LoggerWorker
      longer s = record s {
        writer = some (contents s.writer ++ text ∷ []);
        active_bytes = saturating_add s.active_bytes (saturating_add (text_bytes text) 1);
        unflushed_lines = saturating_add s.unflushed_lines 1;
      }

  flush_if_due-Added :
      (text : String) (w w1 : LoggerWorker)
      → Added (text ∷ []) w w1
      → Post (Broken (text ∷ []) w) (Added (text ∷ []) w) (flush_if_due w1)
  unfolding flush_if_due
  flush_if_due-Added text w w1 added =
      Post-if (leb (max w1.config.flush_batch_lines 1) w1.unflushed_lines) _ _ w1
        (λ due.
          Post-both (λ s t. Grown-then_Broken (text ∷ []) w w1 s added.0 t)
            (λ s t. (Grown-then (text ∷ []) [] w w1 s added.0 t.0, ([], t.1)))
            (flush-Cleared w1 added.1.0 added.1.1))
        λ early. good tt w1 added

  pub write_line-Added :
      (text : String) (w : LoggerWorker)
      → IsOpen w
      → Post (Broken (text ∷ []) w) (Added (text ∷ []) w) (write_line text w)
  unfolding write_line
  write_line-Added text w (lines, e) =
      Post-continue {Q = Added [] w}
        (Post-both (λ s t. Broken-more [] (text ∷ []) w s t) (λ s t. t)
          (Post-if (is_full (saturating_add (text_bytes text) 1) w) _ _ w
            (λ full. Post-both (λ s t. t) (λ s t. (t.0, ([], t.1))) (rotate-Cleared w lines e))
            λ room. good tt w (Later-same w w refl refl, (lines, e))))
        λ _ w1 p1.
          Post-continue {Q = Added (text ∷ []) w}
            (Post-both (λ s t. Later-then_Broken (text ∷ []) w w1 s p1.0 t)
              (λ s t. (Grown-then [] (text ∷ []) w w1 s p1.0 t.0, t.1))
              (put_line-Added text w1 p1.1.0 p1.1.1))
            λ _ w2 p2. flush_if_due-Added text w w2 p2

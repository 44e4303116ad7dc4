-- ===== src/Log/Order.antt =====
-- Proofs on the lines in the event log, through all commands and failures (LoggerWorker of
-- crates/speech-core-daemon/src/jsonl_logger.rs).
use mathlib.Core.List.{append-nil, append_assoc}
use speech_core.Base.{
  max, Bool, true, false, String, Option, none, some, arith, List, [], ◌∷◌, ◌++◌, ◌≡◌, refl, sym,
  ◌∙◌, ap, subst, if◌then◌else◌,
}
use speech_core.Base.Work.{Outcome, ok, err, Post, good, bad, Post-both, Post-state}
use speech_core.Log.Files.{
  Io, flush_bytes, LogEnv, JsonlLoggerConfig, LogDir, LoggerWorker, new_logger,
}
use speech_core.Log.Writer.{
  LoggerCommand, line, flush_command, shutdown_command, closed, tick, open_active, flush,
  write_line, stopped_after, over_with, going_on, hand_on, appended, on_command, start_logger,
  logger_step,
}
use speech_core.Log.Kept.{all_lines}
use speech_core.Log.Steps.{flush-Cleared, open_active-Cleared, write_line-Added}
use speech_core.Log.Turned.{file_count}
use speech_core.Log.Grown.{
  Cleared, kept, Later-same, IsOpen, Added, Broken, Later-Broken, Grown-Broken,
}

-- The lines that a command has to write.
abbrev pub lines_of : LoggerCommand → List String
lines_of (line text) = text ∷ []
lines_of _ = []

-- A worker that goes on keeps the newest of `all`, in their order. One that has ended keeps a
-- stretch of them.
pub data Follows (all : List String) (w : LoggerWorker) : Type 0 where
  running :
      (lost : List String) → w.stopped ≡ false → IsOpen w → all ≡ lost ++ kept w → Follows all w
  over :
      (lost rest : List String) → w.stopped ≡ true → all ≡ lost ++ (kept w ++ rest) → Follows all w

Follows-after :
    (all lost new : List String) (w w' : LoggerWorker)
    → all ≡ lost ++ kept w
    → Follows (kept w ++ new) w'
    → Follows (all ++ new) w'
Follows-after all lost new w w' e (running more goes is_open e') =
    running (lost ++ more) goes is_open (
      ap (λ t. t ++ new) e
      ∙ append_assoc lost (kept w) new
      ∙ ap (λ t. lost ++ t) e'
      ∙ sym (append_assoc lost more (kept w')))
Follows-after all lost new w w' e (over more rest ends e') = over (lost ++ more) rest ends (
    ap (λ t. t ++ new) e
    ∙ append_assoc lost (kept w) new
    ∙ ap (λ t. lost ++ t) e'
    ∙ sym (append_assoc lost more (kept w' ++ rest)))

-- The histories of the log's worker, with the lines that it was given.
pub data Logged ⦃env : LogEnv⦄ (config : JsonlLoggerConfig) (dir : LogDir)
    : List String → LoggerWorker → Type 0 where
  begun : Logged config dir [] (start_logger config dir)
  commanded :
      (c : LoggerCommand) (given : List String) (w : LoggerWorker)
      → Logged config dir given w
      → Logged config dir (given ++ lines_of c) (logger_step c w)

err≢ok : err ≡ ok tt → ⊥
err≢ok e =
    subst (λ (o : Outcome (Unit {0})). elim o as (λ _. Type 0) [ ok _ ↦ ⊥ | err ↦ Unit {0} ]) e tt

module _ ⦃env : LogEnv⦄ where
  flush_sound :
      (w : LoggerWorker)
      → ((ops : List Io) → env.fails (flush_bytes ∷ ops) ≡ false)
      → (flush w).0 ≡ ok tt
  unfolding flush
  flush_sound w sound = go w.writer
    where
      go :
          (o : Option (List String))
          → (elim o as (λ _. Outcome (Unit {0}) × LoggerWorker) [
            | none ↦ (ok tt, w)
            | some lines ↦
                let io = flush_bytes ∷ w.io in
                if env.fails io
                then (err, hand_on (env.reached io) (env.dropped io) (record w { io = io }))
                else (
                  ok tt,
                  record w {
                    io = io;
                    dir = appended lines w.dir;
                    writer = some [];
                    unflushed_lines = 0;
                  },
                )
          ]).0
            ≡ ok tt
      go none = refl
      go (some lines) = ground (arith, sound w.io)

  Added-Follows :
      (new : List String) (w w' : LoggerWorker)
      → Added new w w'
      → Follows (kept w ++ new) (going_on w')
  Added-Follows new w w' ((config, (lost, e)), is_open) = running lost refl is_open e

  Broken-Follows :
      (new : List String) (w w' : LoggerWorker)
      → Broken new w w'
      → Follows (kept w ++ new) (over_with w')
  Broken-Follows new w w' (lost, rest, e) =
      over lost rest refl
        (e ∙ ap (λ t. lost ++ (t ++ rest)) (sym (append-nil (all_lines (file_count w') w'.dir))))

  stopped_after-Follows :
      (new : List String) (last : Bool) (w : LoggerWorker) (r : Outcome (Unit {0}) × LoggerWorker)
      → Post (Broken new w) (Added new w) r
      → Follows (kept w ++ new) (stopped_after last r)
  stopped_after-Follows new true w _ (good a w' added) =
      Broken-Follows new w w'
        (subst (λ t. Broken t w w') (append-nil new) (Grown-Broken new [] w w' added.0))
  stopped_after-Follows new false w _ (good a w' added) = Added-Follows new w w' added
  stopped_after-Follows new last w _ (bad w' broken) = Broken-Follows new w w' broken

  -- A flush that works keeps the lines; one that does not is the last thing that the worker does.
  flush-Follows :
      (w : LoggerWorker)
      → IsOpen w
      → ((ops : List Io) → env.fails (flush_bytes ∷ ops) ≡ false)
      → Follows (kept w ++ []) (going_on (flush w).1)
  flush-Follows w (lines, e) sound =
      ok_flush (flush w) (flush_sound w sound) (flush-Cleared w lines e)
    where
      ok_flush :
          (r : Outcome (Unit {0}) × LoggerWorker)
          → r.0 ≡ ok tt
          → Post (Broken [] w) (Cleared w) r
          → Follows (kept w ++ []) (going_on r.1)
      ok_flush _ o (good a w' cleared) = Added-Follows [] w w' (cleared.0, ([], cleared.1))
      ok_flush _ o (bad w' broken) = absurd (err≢ok o)

  flush-over : (w : LoggerWorker) → IsOpen w → Follows (kept w ++ []) (over_with (flush w).1)
  flush-over w (lines, e) =
      Broken-Follows [] w (flush w).1 (
        Post-state
          (Post-both (λ s t. t) (λ s t. Later-Broken [] w s t.0) (flush-Cleared w lines e)))

  on_command-Follows :
      (c : LoggerCommand) (w : LoggerWorker)
      → IsOpen w
      → ((ops : List Io) → env.fails (flush_bytes ∷ ops) ≡ false)
      → Follows (kept w ++ lines_of c) (on_command c w)
  unfolding on_command
  on_command-Follows (line text) w is_open sound =
      stopped_after-Follows (text ∷ []) false w (write_line text w)
        (write_line-Added text w is_open)
  on_command-Follows flush_command w is_open sound = flush-Follows w is_open sound
  on_command-Follows shutdown_command w is_open sound = flush-over w is_open
  on_command-Follows closed w is_open sound =
      stopped_after-Follows [] true w (flush w)
        (Post-both (λ s t. t) (λ s t. (t.0, ([], t.1))) (flush-Cleared w is_open.0 is_open.1))
  on_command-Follows tick w is_open sound = flush-Follows w is_open sound

  logger_step-Follows :
      (c : LoggerCommand) (all : List String) (w : LoggerWorker)
      → ((ops : List Io) → env.fails (flush_bytes ∷ ops) ≡ false)
      → Follows all w
      → Follows (all ++ lines_of c) (logger_step c w)
  unfolding logger_step
  logger_step-Follows c all w sound (running lost goes is_open e) =
      subst (λ b. Follows (all ++ lines_of c) (if b then w else on_command c w)) (sym goes)
        (Follows-after all lost (lines_of c) w (on_command c w) e
          (on_command-Follows c w is_open sound))
  logger_step-Follows c all w sound (over lost rest ends e) =
      subst (λ b. Follows (all ++ lines_of c) (if b then w else on_command c w)) (sym ends)
        (over lost (rest ++ lines_of c) ends (
          ap (λ t. t ++ lines_of c) e
          ∙ append_assoc lost (kept w ++ rest) (lines_of c)
          ∙ ap (λ t. lost ++ t) (append_assoc (kept w) rest (lines_of c))))

  -- In every history in which no flush fails, whatever opens, writes, removals and renames of files
  -- fail: the files that are kept and what waits in the buffer hold the lines that the log had and
  -- was given, in their order, without a hole, and only the oldest are gone; once the worker has
  -- ended, the newest may be missing too.
  pub Logged-Follows :
      (config : JsonlLoggerConfig) (dir : LogDir) (given : List String) (w : LoggerWorker)
      → ((ops : List Io) → env.fails (flush_bytes ∷ ops) ≡ false)
      → Logged config dir given w
      → Follows (all_lines (max config.max_files 1) dir ++ given) w
  unfolding start_logger new_logger
  Logged-Follows config dir _ _ sound begun =
      subst (λ t. Follows t (start_logger config dir))
        (append-nil (all_lines (max config.max_files 1) dir ++ []))
        (stopped_after-Follows [] false (new_logger config dir)
          (open_active (new_logger config dir))
          (Post-both (λ s t. Later-Broken [] (new_logger config dir) s t) (λ s t. (t.0, ([], t.1)))
            (open_active-Cleared (new_logger config dir) (new_logger config dir)
              (Later-same (new_logger config dir) (new_logger config dir) refl refl) refl)))
  Logged-Follows config dir _ _ sound (commanded c given w history) =
      subst (λ t. Follows t (logger_step c w))
        (append_assoc (all_lines (max config.max_files 1) dir) given (lines_of c))
        (logger_step-Follows c _ w sound (Logged-Follows config dir given w sound history))

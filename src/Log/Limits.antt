-- ===== src/Log/Limits.antt =====
-- Proofs on the size of the log's file through all commands and failures (LoggerWorker of
-- crates/speech-core-daemon/src/jsonl_logger.rs).
use speech_core.Base.{
  ◌≤◌, ◌<◌, Bool, true, false, String, List, ◌≡◌, ◌⊎◌, inl, inr, refl, sym, subst, if◌then◌else◌,
}
use speech_core.Base.Words.{u64_max}
use speech_core.Base.Work.{Outcome, Post, good, bad, Post-both, Post-state}
use speech_core.Log.Files.{LogEnv, JsonlLoggerConfig, LogDir, LoggerWorker, new_logger, file_bytes}
use speech_core.Log.Writer.{
  contents, LoggerCommand, line, flush_command, shutdown_command, closed, tick, open_active, flush,
  write_line, stopped_after, over_with, on_command, start_logger, logger_step,
}
use speech_core.Log.Order.{Logged, begun, commanded}
use speech_core.Log.Size.{Small, Sized, Shrunk-Small, over_with-Shrunk}
use speech_core.Log.Bounded.{flush-Sized, open_active-Sized}
use speech_core.Log.Written.{Limit, write_line-Sized}

-- A worker that has ended has kept to the size as well.
abbrev Bounded : JsonlLoggerConfig → LoggerWorker → Type 0
Bounded c w = ((w.stopped ≡ true) × Small c.max_bytes w) ⊎ ((w.stopped ≡ false) × Sized c w)

Bounded-Small : (c : JsonlLoggerConfig) (w : LoggerWorker) → Bounded c w → Small c.max_bytes w
Bounded-Small c w (inl ends) = ends.1
Bounded-Small c w (inr goes) = goes.1.1

module _ ⦃env : LogEnv⦄ (c : JsonlLoggerConfig) where
  stopped_after-Bounded :
      (last : Bool) (r : Outcome (Unit {0}) × LoggerWorker)
      → Post (Small c.max_bytes) (Sized c) r
      → Bounded c (stopped_after last r)
  stopped_after-Bounded true _ (good a w sized) =
      inl (refl, Shrunk-Small c.max_bytes w (over_with w) (over_with-Shrunk w) sized.1)
  stopped_after-Bounded false _ (good a w sized) = inr (refl, sized)
  stopped_after-Bounded last _ (bad w small) =
      inl (refl, Shrunk-Small c.max_bytes w (over_with w) (over_with-Shrunk w) small)

  flush-state : (w : LoggerWorker) → Sized c w → Sized c (flush w).1
  flush-state w sized = Post-state (Post-both (λ s t. t) (λ s t. t.0) (flush-Sized c w sized))

  on_command-Bounded :
      (command : LoggerCommand) (w : LoggerWorker)
      → Limit c
      → Sized c w
      → Bounded c (on_command command w)
  unfolding on_command
  on_command-Bounded (line text) w limit sized =
      stopped_after-Bounded false (write_line text w) (write_line-Sized c text w limit sized)
  on_command-Bounded flush_command w limit sized = inr (refl, flush-state w sized)
  on_command-Bounded shutdown_command w limit sized = inl (
    refl,
    Shrunk-Small c.max_bytes (flush w).1 (over_with (flush w).1) (over_with-Shrunk (flush w).1)
        (flush-state w sized).1,
  )
  on_command-Bounded closed w limit sized =
      stopped_after-Bounded true (flush w)
        (Post-both (λ s t. t.1) (λ s t. t.0) (flush-Sized c w sized))
  on_command-Bounded tick w limit sized = inr (refl, flush-state w sized)

  logger_step-Bounded :
      (command : LoggerCommand) (w : LoggerWorker)
      → Limit c
      → Bounded c w
      → Bounded c (logger_step command w)
  unfolding logger_step
  logger_step-Bounded command w limit (inl ends) =
      subst (λ b. Bounded c (if b then w else on_command command w)) (sym ends.0) (inl ends)
  logger_step-Bounded command w limit (inr goes) =
      subst (λ b. Bounded c (if b then w else on_command command w)) (sym goes.0)
        (on_command-Bounded command w limit goes.1)

module _ ⦃env : LogEnv⦄ where
  Logged-Bounded :
      (c : JsonlLoggerConfig) (dir : LogDir) (given : List String) (w : LoggerWorker)
      → Limit c
      → file_bytes (contents (dir 0)) ≤ c.max_bytes
      → Logged c dir given w
      → Bounded c w
  unfolding start_logger new_logger
  Logged-Bounded c dir _ _ limit small begun =
      stopped_after-Bounded c false (open_active (new_logger c dir)) (
        Post-both (λ s t. t) (λ s t. t.0)
          (open_active-Sized c (new_logger c dir) refl limit.1 refl small))
  Logged-Bounded c dir _ _ limit small (commanded command given w history) =
      logger_step-Bounded c command w limit (Logged-Bounded c dir given w limit small history)

  -- With two files or more, and a limit that is neither zero nor the largest u64, a log that starts
  -- with its file within the limit keeps it there: in every history, whatever opens, writes,
  -- flushes, removals and renames fail, the file that is written to, with what waits in the buffer,
  -- has no more bytes than the limit, or no more than a single line.
  pub Logged-Small :
      (c : JsonlLoggerConfig) (dir : LogDir) (given : List String) (w : LoggerWorker)
      → 0 < c.max_bytes
      → c.max_bytes < u64_max
      → 2 ≤ c.max_files
      → file_bytes (contents (dir 0)) ≤ c.max_bytes
      → Logged c dir given w
      → Small c.max_bytes w
  Logged-Small c dir given w some_limit fits many small history =
      Bounded-Small c w (Logged-Bounded c dir given w (some_limit, fits, many) small history)

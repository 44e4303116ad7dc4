-- ===== src/Examples/Logs.antt =====
-- Runs of the event log (crates/speech-core-daemon/src/jsonl_logger.rs).
use speech_core.Base.{max, false, none, some, List, [], ◌∷◌, ◌++◌, ◌≡◌, ◌≤◌, refl, arith, String}
use speech_core.Log.Files.{
  LogEnv, JsonlLoggerConfig, LogDir, LoggerWorker, new_logger, removed, renamed, text_bytes,
  file_bytes, call, try_remove, rename_if_there, shift_files, rotate_files,
}
use speech_core.Log.Writer.{
  contents, line, open_active, write_all, flush, rotate, put_line, is_full, flush_if_due,
  write_line, on_command, start_logger, logger_step,
}
use speech_core.Log.Kept.{all_lines}
use speech_core.Log.Order.{Follows, Logged, begun, commanded, Logged-Follows}
use speech_core.Log.Size.{Small}
use speech_core.Log.Limits.{Logged-Small}

abbrev sound_io : LogEnv
sound_io = record { fails = λ calls. false; reached = λ calls. 1; dropped = λ calls. 0 }

abbrev no_files : LogDir
no_files n = none

-- Two files of at most eight bytes.
abbrev log_config : JsonlLoggerConfig
log_config = record {
  max_bytes = 8;
  max_files = 2;
  flush_interval_ms = 1000;
  flush_batch_lines = 256;
}

abbrev given : List String
given = "abc" ∷ "def" ∷ "ghi" ∷ []

abbrev written_log : LoggerWorker
written_log = logger_step ⦃env = sound_io⦄ (line "ghi") (
    logger_step ⦃env = sound_io⦄ (line "def") (
      logger_step ⦃env = sound_io⦄ (line "abc")
        (start_logger ⦃env = sound_io⦄ log_config no_files)))

-- The third line does not fit.
rotation_test :
    (contents (written_log.dir 1) ≡ "abc" ∷ "def" ∷ []) × (written_log.writer ≡ some ("ghi" ∷ []))
unfolding logger_step on_command write_line start_logger open_active new_logger call put_line
    write_all is_full flush_if_due rotate flush rotate_files try_remove shift_files rename_if_there
    removed renamed text_bytes file_bytes
rotation_test = (refl, refl)

history : Logged ⦃env = sound_io⦄ log_config no_files given written_log
history = commanded _ _ _ (commanded _ _ _ (commanded _ _ _ begun))

Logged-Follows_example : Follows (all_lines (max 2 1) no_files ++ given) written_log
Logged-Follows_example =
    Logged-Follows ⦃env = sound_io⦄ log_config no_files given written_log (λ ops. refl) history

no_bytes_yet : file_bytes (contents (no_files 0)) ≤ 8
unfolding file_bytes
no_bytes_yet = omega arith

Logged-Small_example : Small 8 written_log
Logged-Small_example =
    Logged-Small ⦃env = sound_io⦄ log_config no_files given written_log (omega arith) (omega arith)
      (omega arith) no_bytes_yet history

-- ===== src/Log/Writer.antt =====
-- The worker of the event log (LoggerWorker of crates/speech-core-daemon/src/jsonl_logger.rs).
use speech_core.Base.{
  ℕ, zero, suc, ◌+◌, take, drop, max, Bool, true, false, ◌&&◌, String, Option, none, some, List, [],
  ◌∷◌, ◌++◌, leb, ltb, if◌then◌else◌,
}
use speech_core.Base.Words.{saturating_add}
use speech_core.Base.Work.{Outcome, ok, err, ◌>>◌, return, modify}
use speech_core.Log.Files.{
  open_file, read_metadata, write_bytes, flush_bytes, LogEnv, JsonlLoggerConfig, LogDir,
  LoggerWorker, new_logger, L, text_bytes, file_bytes, call, rotate_files,
}

abbrev pub contents : Option (List String) → List String
contents none = []
contents (some lines) = lines

-- Opening creates the file where there is none.
abbrev pub created : LogDir → LogDir
created dir zero = some (contents (dir 0))
created dir (suc n) = dir (suc n)

-- Lines at the end of the open file.
abbrev pub appended : List String → LogDir → LogDir
appended lines dir zero = some (contents (dir 0) ++ lines)
appended lines dir (suc n) = dir (suc n)

-- The first `n` of the lines that wait reach the file, and `m` after them are lost.
abbrev pub hand_on : ℕ → ℕ → LoggerWorker → LoggerWorker
hand_on n m w = record w {
  dir = appended (take n (contents w.writer)) w.dir;
  writer = some (drop (n + m) (contents w.writer));
}

abbrev pub unchanged : LogDir → LogDir
unchanged dir = dir

-- The commands that the worker takes; `closed` is that all senders are gone, `tick` that the flush
-- interval has passed.
pub data LoggerCommand : Type 0 where
  line : String → LoggerCommand
  flush_command shutdown_command closed tick : LoggerCommand

-- What a command leaves of the worker, whose thread ends with an error or at a shutdown; what
-- still waits in the buffer is then lost.
abbrev pub over_with : LoggerWorker → LoggerWorker
over_with w = record w { stopped = true; writer = none }

abbrev pub going_on : LoggerWorker → LoggerWorker
going_on w = record w { stopped = false }

abbrev pub stopped_after : Bool → Outcome (Unit {0}) × LoggerWorker → LoggerWorker
stopped_after true (ok _, w) = over_with w
stopped_after false (ok _, w) = going_on w
stopped_after last (err, w) = over_with w

module _ ⦃env : LogEnv⦄ where
  unfoldable pub open_active : L (Unit {0})
  open_active =
      call open_file created
      >> (call read_metadata unchanged
          >> modify
              λ w. record w { active_bytes = file_bytes (contents (w.dir 0)); writer = some [] })

  -- The buffer is written, and is empty where that went well.
  unfoldable pub flush : L (Unit {0})
  flush w = elim w.writer as (λ _. Outcome (Unit {0}) × LoggerWorker) [
    | none ↦ (ok tt, w)
    | some lines ↦
        let io = flush_bytes ∷ w.io in
        if env.fails io
        then (err, hand_on (env.reached io) (env.dropped io) (record w { io = io }))
        else (
          ok tt,
          record w { io = io; dir = appended lines w.dir; writer = some []; unflushed_lines = 0 },
        )
  ]

  -- Bytes for the buffer, which can be written to make room for them.
  unfoldable pub write_all : L (Unit {0})
  write_all w =
      let io = write_bytes ∷ w.io in
      if env.fails io
      then (err, hand_on (env.reached io) (env.dropped io) (record w { io = io }))
      else (ok tt, hand_on (env.reached io) 0 (record w { io = io }))

  unfoldable pub rotate : L (Unit {0})
  rotate w =
      (flush
          >> (modify (λ w'. record w' { writer = none })
              >> (rotate_files w.config
                  >> (modify (λ w'. record w' { active_bytes = 0 }) >> open_active))))
        w

  -- The text and the line feed are two calls.
  unfoldable pub put_line : String → L (Unit {0})
  put_line text w = elim w.writer as (λ _. Outcome (Unit {0}) × LoggerWorker) [
    | none ↦ (err, w)
    | some lines ↦
        (write_all
            >> (write_all
                >> modify λ w'. record w' {
                  writer = some (contents w'.writer ++ text ∷ []);
                  active_bytes =
                      saturating_add w'.active_bytes (saturating_add (text_bytes text) 1);
                  unflushed_lines = saturating_add w'.unflushed_lines 1;
                }))
          w
  ]

  unfoldable pub is_full : ℕ → LoggerWorker → Bool
  is_full line_bytes w =
      ltb 0 w.config.max_bytes
      && ltb 0 w.active_bytes
      && ltb w.config.max_bytes (saturating_add w.active_bytes line_bytes)

  unfoldable pub flush_if_due : L (Unit {0})
  flush_if_due w =
      (if leb (max w.config.flush_batch_lines 1) w.unflushed_lines then flush else return tt) w

  unfoldable pub write_line : String → L (Unit {0})
  write_line text w =
      ((if is_full (saturating_add (text_bytes text) 1) w then rotate else return tt)
          >> (put_line text >> flush_if_due))
        w

  unfoldable pub on_command : LoggerCommand → LoggerWorker → LoggerWorker
  on_command (line text) w = stopped_after false (write_line text w)
  on_command flush_command w = going_on (flush w).1
  on_command shutdown_command w = over_with (flush w).1
  on_command closed w = stopped_after true (flush w)
  on_command tick w = going_on (flush w).1

  unfoldable pub start_logger : JsonlLoggerConfig → LogDir → LoggerWorker
  start_logger config dir = stopped_after false (open_active (new_logger config dir))

  unfoldable pub logger_step : LoggerCommand → LoggerWorker → LoggerWorker
  logger_step c w = if w.stopped then w else on_command c w

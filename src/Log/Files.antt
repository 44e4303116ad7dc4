-- ===== src/Log/Files.antt =====
-- The files of the event log and how they are rotated (rotate_files of
-- crates/speech-core-daemon/src/jsonl_logger.rs). File 0 is events.jsonl, which is written to, and
-- file `n` is events.n.jsonl. A file is its lines.
use speech_core.Base.{
  ℕ, zero, suc, ◌+◌, ◌-◌, Bool, false, String, Option, none, List, [], ◌∷◌, leb, ltb, ◌==◌,
  if◌then◌else◌, is_some,
}
use Prim.Native.Char.{code}
use speech_core.Base.Work.{ok, err, Work, ◌>>◌, return}

-- The calls on files that are made, each of which can fail.
pub data Io : Type 0 where
  open_file read_metadata write_bytes flush_bytes : Io
  remove_file rename_file : ℕ → Io

-- Whether the newest of the calls fails; a call that fails to open, remove or rename changes no
-- file. Whether a file is there to be renamed is always known. Lines that wait in the buffer can
-- reach the file with any write: `reached` says how many, and, for a call that fails, `dropped` how
-- many of those after them have left the buffer and are lost.
pub record LogEnv : Type 0 where
  pub fails : List Io → Bool
  pub reached : List Io → ℕ
  pub dropped : List Io → ℕ

pub record JsonlLoggerConfig : Type 0 where
  pub max_bytes : ℕ  -- u64
  pub max_files : ℕ  -- usize
  pub flush_interval_ms : ℕ  -- u64
  pub flush_batch_lines : ℕ  -- usize

unfoldable pub default_log_config : JsonlLoggerConfig
default_log_config = record {
  max_bytes = 268435456;
  max_files = 8;
  flush_interval_ms = 1000;
  flush_batch_lines = 256;
}

abbrev pub LogDir : Type 0
LogDir = ℕ → Option (List String)

-- `writer` has the lines that wait in the buffer, `none` where no file is open; `io` the
-- calls so far, with the newest first; `stopped` says that the worker has ended.
pub record LoggerWorker : Type 0 where
  pub config : JsonlLoggerConfig
  pub writer : Option (List String)
  pub active_bytes : ℕ  -- u64
  pub unflushed_lines : ℕ  -- usize
  pub dir : LogDir
  pub io : List Io
  pub stopped : Bool

unfoldable pub new_logger : JsonlLoggerConfig → LogDir → LoggerWorker
new_logger config dir = record {
  config = config;
  writer = none;
  active_bytes = 0;
  unflushed_lines = 0;
  dir = dir;
  io = [];
  stopped = false;
}

abbrev pub L : Type 0 → Type 0
L A = Work LoggerWorker A

unfoldable pub removed : ℕ → LogDir → LogDir
removed n dir k = if k == n then none else dir k

-- The file `n` becomes the file `n + 1`, which is replaced.
unfoldable pub renamed : ℕ → LogDir → LogDir
renamed n dir k = if k == n + 1 then dir n else if k == n then none else dir k

-- The bytes of a line as UTF-8, and of the lines of a file, each with its line feed.
abbrev pub char_bytes : ℕ → ℕ
char_bytes c = if ltb c 128 then 1 else if ltb c 2048 then 2 else if ltb c 65536 then 3 else 4

unfoldable pub text_bytes : String → ℕ
text_bytes String.[] = 0
text_bytes (String.◌∷◌ c text) = char_bytes (code c) + text_bytes text

unfoldable pub file_bytes : List String → ℕ
file_bytes [] = 0
file_bytes (line ∷ lines) = text_bytes line + 1 + file_bytes lines

module _ ⦃env : LogEnv⦄ where
  unfoldable pub call : Io → (LogDir → LogDir) → L (Unit {0})
  call op f w =
      if env.fails (op ∷ w.io)
      then (err, record w { io = op ∷ w.io })
      else (ok tt, record w { io = op ∷ w.io; dir = f w.dir })

  -- A failure is not looked at.
  unfoldable pub try_remove : ℕ → L (Unit {0})
  try_remove n w = (ok tt, (call (remove_file n) (removed n) w).1)

  unfoldable pub rename_if_there : ℕ → L (Unit {0})
  rename_if_there n w =
      (if is_some (w.dir n) then call (rename_file n) (renamed n) else return tt) w

  -- From the file `n` down to the file 1.
  unfoldable pub shift_files : ℕ → L (Unit {0})
  shift_files zero = return tt
  shift_files (suc n) = rename_if_there (suc n) >> shift_files n

  unfoldable pub rotate_files : JsonlLoggerConfig → L (Unit {0})
  rotate_files config =
      if leb config.max_files 1
      then try_remove 0
      else try_remove (config.max_files - 1)
        >> (shift_files (config.max_files - 2) >> rename_if_there 0)

-- ===== src/Log/Grown.antt =====
-- Relations on the lines that the event log keeps (LoggerWorker of
-- crates/speech-core-daemon/src/jsonl_logger.rs).
use mathlib.Core.List.{append-nil, append_assoc}
use speech_core.Base.{
  ℕ, zero, suc, ◌+◌, ◌∷◌, take, drop, ◌≤◌, max, String, some, List, [], ◌++◌, ◌≡◌, refl, sym, ◌∙◌,
  ap, arith,
}
use speech_core.Log.Files.{JsonlLoggerConfig, LogDir, LoggerWorker}
use speech_core.Log.Writer.{contents, created, appended, hand_on}
use speech_core.Log.Kept.{all_lines}
use speech_core.Log.Turned.{file_count, Turned}

-- What the files that are kept hold, and what waits to be flushed.
abbrev pub kept : LoggerWorker → List String
kept w = all_lines (file_count w) w.dir ++ contents w.writer

-- The lines `new` have come at the end, and at most the oldest lines are gone.
abbrev pub Grown : List String → LoggerWorker → LoggerWorker → Type 0
Grown new w w' = (w'.config ≡ w.config) × ((lost : List String) × (kept w ++ new ≡ lost ++ kept w'))

abbrev pub Later : LoggerWorker → LoggerWorker → Type 0
Later = Grown []

pub Later-same : (w w' : LoggerWorker) → w'.config ≡ w.config → kept w ≡ kept w' → Later w w'
Later-same w w' config e = (config, ([], append-nil (kept w) ∙ e))

pub Grown-then :
    (new newer : List String) (w1 w2 w3 : LoggerWorker)
    → Grown new w1 w2
    → Grown newer w2 w3
    → Grown (new ++ newer) w1 w3
Grown-then new newer w1 w2 w3 (config, (lost, e)) (config', (more, e')) = (
  config' ∙ config,
  (
    lost ++ more,
    sym (append_assoc (kept w1) new newer)
        ∙ ap (λ t. t ++ newer) e
        ∙ append_assoc lost (kept w2) newer
        ∙ ap (λ t. lost ++ t) e'
        ∙ sym (append_assoc lost more (kept w3)),
  ),
)

abbrev pub Later-then : (w1 w2 w3 : LoggerWorker) → Later w1 w2 → Later w2 w3 → Later w1 w3
Later-then = Grown-then [] []

-- Lines at the end of the newest file.
pub all_lines-appended :
    (n : ℕ) (lines : List String) (dir : LogDir)
    → 1 ≤ n
    → all_lines n (appended lines dir) ≡ all_lines n dir ++ lines
all_lines-appended zero lines dir h = absurd (omega arith)
all_lines-appended (suc zero) lines dir h =
    append-nil (contents (dir 0) ++ lines)
    ∙ ap (λ t. t ++ lines) (sym (append-nil (contents (dir 0))))
all_lines-appended (suc (suc n)) lines dir h =
    ap (λ t. contents (dir (suc n)) ++ t) (all_lines-appended (suc n) lines dir (omega arith))
    ∙ sym (append_assoc (contents (dir (suc n))) (all_lines (suc n) dir) lines)

pub all_lines-created : (n : ℕ) (dir : LogDir) → all_lines n (created dir) ≡ all_lines n dir
all_lines-created zero dir = refl
all_lines-created (suc zero) dir = refl
all_lines-created (suc (suc n)) dir =
    ap (λ t. contents (dir (suc n)) ++ t) (all_lines-created (suc n) dir)

pub Turned-Later : (w w' : LoggerWorker) → Turned (file_count w) w w' → Later w w'
Turned-Later w w' (writer, config, (lost, e)) = (
  config,
  (
    lost,
    append-nil (kept w)
        ∙ ap (λ t. t ++ contents w.writer) e
        ∙ append_assoc lost (all_lines (file_count w) w'.dir) (contents w.writer)
        ∙ ap (λ t. lost ++ (all_lines (file_count w) w'.dir ++ contents t)) (sym writer)
        ∙ ap
            (λ (c : JsonlLoggerConfig).
              lost ++ (all_lines (max c.max_files 1) w'.dir ++ contents w'.writer))
            (sym config),
  ),
)

-- The file is open, and nothing waits.
abbrev pub Cleared : LoggerWorker → LoggerWorker → Type 0
Cleared w w' = Later w w' × (w'.writer ≡ some [])

abbrev pub IsOpen : LoggerWorker → Type 0
IsOpen w = (lines : List String) × (w.writer ≡ some lines)

abbrev pub Added : List String → LoggerWorker → LoggerWorker → Type 0
Added new w w' = Grown new w w' × IsOpen w'

-- A step has failed: what has not reached the files, and a rest of the new lines, is not kept.
abbrev pub Broken : List String → LoggerWorker → LoggerWorker → Type 0
Broken new w w' =
    (lost : List String) × (rest : List String) × (kept w ++ new
      ≡ lost ++ (all_lines (file_count w') w'.dir ++ rest))

pub Grown-Broken :
    (new newer : List String) (w w' : LoggerWorker) → Grown new w w' → Broken (new ++ newer) w w'
Grown-Broken new newer w w' (config, (lost, e)) = (
  lost,
  contents w'.writer ++ newer,
  sym (append_assoc (kept w) new newer)
      ∙ ap (λ t. t ++ newer) e
      ∙ append_assoc lost (kept w') newer
      ∙ ap (λ t. lost ++ t)
          (append_assoc (all_lines (file_count w') w'.dir) (contents w'.writer) newer),
)

abbrev pub Later-Broken : (new : List String) (w w' : LoggerWorker) → Later w w' → Broken new w w'
Later-Broken new w w' later = Grown-Broken [] new w w' later

pub Later-then_Broken :
    (new : List String) (w1 w2 w3 : LoggerWorker)
    → Later w1 w2
    → Broken new w2 w3
    → Broken new w1 w3
Later-then_Broken new w1 w2 w3 (config, (lost, e)) (more, rest, e') = (
  lost ++ more,
  rest,
  ap (λ t. t ++ new) (sym (append-nil (kept w1)) ∙ e)
      ∙ append_assoc lost (kept w2) new
      ∙ ap (λ t. lost ++ t) e'
      ∙ sym (append_assoc lost more (all_lines (file_count w3) w3.dir ++ rest)),
)

-- Lines that are never taken in.
pub Broken-more :
    (new newer : List String) (w w' : LoggerWorker) → Broken new w w' → Broken (new ++ newer) w w'
Broken-more new newer w w' (lost, rest, e) = (
  lost,
  rest ++ newer,
  sym (append_assoc (kept w) new newer)
      ∙ ap (λ t. t ++ newer) e
      ∙ append_assoc lost (all_lines (file_count w') w'.dir ++ rest) newer
      ∙ ap (λ t. lost ++ t) (append_assoc (all_lines (file_count w') w'.dir) rest newer),
)

pub Grown-then_Broken :
    (new : List String) (w1 w2 w3 : LoggerWorker)
    → Grown new w1 w2
    → Broken [] w2 w3
    → Broken new w1 w3
Grown-then_Broken new w1 w2 w3 (config, (lost, e)) (more, rest, e') = (
  lost ++ more,
  rest,
  e
      ∙ ap (λ t. lost ++ t) (sym (append-nil (kept w2)) ∙ e')
      ∙ sym (append_assoc lost more (all_lines (file_count w3) w3.dir ++ rest)),
)

pub take-append-drop : (n : ℕ) (xs : List String) → take n xs ++ drop n xs ≡ xs
take-append-drop zero xs = refl
take-append-drop (suc n) [] = refl
take-append-drop (suc n) (x ∷ xs) = ap (λ t. x ∷ t) (take-append-drop n xs)

-- Where nothing is lost, the same lines are kept, and a part of them has reached the file.
pub hand_on-kept : (n : ℕ) (w : LoggerWorker) → kept w ≡ kept (hand_on n 0 w)
hand_on-kept n w =
    ap (λ t. all_lines (file_count w) w.dir ++ t) (sym (take-append-drop n (contents w.writer)))
    ∙ sym (
        append_assoc (all_lines (file_count w) w.dir) (take n (contents w.writer))
          (drop n (contents w.writer)))
    ∙ ap (λ t. t ++ drop n (contents w.writer))
        (sym (all_lines-appended (file_count w) (take n (contents w.writer)) w.dir (omega arith)))
    ∙ ap
        (λ k.
          all_lines (file_count w) (appended (take n (contents w.writer)) w.dir)
          ++ drop k (contents w.writer))
        {x = n} {y = n + 0} (omega arith)

-- Where lines are lost, those that have reached the file are the first of those that waited.
pub hand_on-Broken : (n m : ℕ) (new : List String) (w : LoggerWorker) → Broken new w (hand_on n m w)
hand_on-Broken n m new w = (
  [],
  drop n (contents w.writer) ++ new,
  ap (λ t. (all_lines (file_count w) w.dir ++ t) ++ new)
        (sym (take-append-drop n (contents w.writer)))
      ∙ ap (λ t. t ++ new)
          (sym (
            append_assoc (all_lines (file_count w) w.dir) (take n (contents w.writer))
              (drop n (contents w.writer))))
      ∙ ap (λ t. (t ++ drop n (contents w.writer)) ++ new)
          (sym (all_lines-appended (file_count w) (take n (contents w.writer)) w.dir (omega arith)))
      ∙ append_assoc (all_lines (file_count w) (appended (take n (contents w.writer)) w.dir))
          (drop n (contents w.writer)) new,
)

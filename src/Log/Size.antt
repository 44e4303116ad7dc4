-- ===== src/Log/Size.antt =====
-- Proofs on the size of the file that the event log writes to (LoggerWorker of
-- crates/speech-core-daemon/src/jsonl_logger.rs).
use speech_core.Base.{
  ℕ, zero, suc, ◌+◌, ◌-◌, ◌≤◌, min, String, Option, none, some, List, [], ◌∷◌, ◌++◌, ◌≡◌, ◌⊎◌, inl,
  inr, take, drop, refl, ◌∙◌, ap, subst, leb, if◌then◌else◌, is_some, length, arith,
}
use speech_core.Base.Words.{u64_max}
use speech_core.Base.Work.{return, Post, good, Post-continue, Post-both, Post-if, Post-state}
use speech_core.Log.Files.{
  Io, rename_file, remove_file, LogEnv, JsonlLoggerConfig, LoggerWorker, call, text_bytes,
  file_bytes, removed, renamed, try_remove, rename_if_there, shift_files, rotate_files,
}
use speech_core.Log.Writer.{contents, hand_on, over_with}
use speech_core.Log.Turned.{call-Post}
use speech_core.Log.Grown.{IsOpen}

-- The lines of the file that is written to, those that wait included.
abbrev pub newest : LoggerWorker → List String
newest w = contents (w.dir 0) ++ contents w.writer

-- The file has at most `m` bytes, or a single line.
abbrev pub Small : ℕ → LoggerWorker → Type 0
Small m w = (file_bytes (newest w) ≤ m) ⊎ (length (newest w) ≤ 1)

-- The worker counts the bytes of the file, and may count lines that were lost.
abbrev pub Sized : JsonlLoggerConfig → LoggerWorker → Type 0
Sized c w =
    (w.config ≡ c)
    × Small c.max_bytes w
    × (min (file_bytes (newest w)) u64_max ≤ w.active_bytes)
    × IsOpen w

pub file_bytes-append :
    (xs ys : List String) → file_bytes (xs ++ ys) ≡ file_bytes xs + file_bytes ys
unfolding file_bytes
file_bytes-append [] ys = omega arith
file_bytes-append (x ∷ xs) ys = omega (arith, file_bytes-append xs ys)

pub no_bytes : (xs : List String) → file_bytes xs ≡ 0 → xs ≡ []
unfolding file_bytes
no_bytes [] e = refl
no_bytes (x ∷ xs) e = absurd (omega arith)

pub one_line : (text : String) → file_bytes (text ∷ []) ≡ text_bytes text + 1
unfolding file_bytes
one_line text = omega arith

-- The lines of the newest file, however they are divided, decide.
pub Sized-same :
    (c : JsonlLoggerConfig) (w w' : LoggerWorker)
    → Sized c w
    → w'.config ≡ w.config
    → w'.active_bytes ≡ w.active_bytes
    → newest w ≡ newest w'
    → IsOpen w'
    → Sized c w'
Sized-same c w w' (config, small, count, is_open) same_config same_count same open' = (
  same_config ∙ config,
  subst (λ xs. (file_bytes xs ≤ c.max_bytes) ⊎ (length xs ≤ 1)) same small,
  omega (arith, same_count, count, ap file_bytes same),
  open',
)

pub no_line : file_bytes [] ≡ 0
unfolding file_bytes
no_line = refl

-- Where lines are left out, there are no more bytes and no more lines.
file_bytes-left_out :
    (n k : ℕ) (xs : List String)
    → n ≤ k
    → file_bytes (take n xs) + file_bytes (drop k xs) ≤ file_bytes xs
unfolding file_bytes
file_bytes-left_out zero zero xs h = omega arith
file_bytes-left_out zero (suc k) [] h = omega arith
file_bytes-left_out zero (suc k) (x ∷ xs) h =
    omega (arith, file_bytes-left_out zero k xs (omega arith))
file_bytes-left_out (suc n) zero xs h = absurd (omega arith)
file_bytes-left_out (suc n) (suc k) [] h = omega arith
file_bytes-left_out (suc n) (suc k) (x ∷ xs) h =
    omega (arith, file_bytes-left_out n k xs (omega arith))

length-left_out :
    (n k : ℕ) (xs : List String) → n ≤ k → length (take n xs) + length (drop k xs) ≤ length xs
length-left_out zero zero xs h = omega arith
length-left_out zero (suc k) [] h = omega arith
length-left_out zero (suc k) (x ∷ xs) h = omega (arith, length-left_out zero k xs (omega arith))
length-left_out (suc n) zero xs h = absurd (omega arith)
length-left_out (suc n) (suc k) [] h = omega arith
length-left_out (suc n) (suc k) (x ∷ xs) h = omega (arith, length-left_out n k xs (omega arith))

length-append : (xs ys : List String) → length (xs ++ ys) ≡ length xs + length ys
length-append [] ys = omega arith
length-append (x ∷ xs) ys = omega (arith, length-append xs ys)

-- No more bytes and no more lines in the newest file.
pub record Shrunk (w s : LoggerWorker) : Type 0 where
  pub fewer_bytes : file_bytes (newest s) ≤ file_bytes (newest w)
  pub fewer_lines : length (newest s) ≤ length (newest w)

pub Shrunk-same : (w : LoggerWorker) → Shrunk w w
Shrunk-same w = record { fewer_bytes = omega arith; fewer_lines = omega arith }

pub Shrunk-then : (w1 w2 w3 : LoggerWorker) → Shrunk w1 w2 → Shrunk w2 w3 → Shrunk w1 w3
Shrunk-then w1 w2 w3 a b = record {
  fewer_bytes = omega (arith, a.fewer_bytes, b.fewer_bytes);
  fewer_lines = omega (arith, a.fewer_lines, b.fewer_lines);
}

pub Shrunk-Small : (m : ℕ) (w s : LoggerWorker) → Shrunk w s → Small m w → Small m s
Shrunk-Small m w s k (inl bytes) = inl (omega (arith, k.fewer_bytes, bytes))
Shrunk-Small m w s k (inr lines) = inr (omega (arith, k.fewer_lines, lines))

pub hand_on-Shrunk :
    (n m : ℕ) (io : List Io) (w : LoggerWorker) → Shrunk w (hand_on n m (record w { io = io }))
hand_on-Shrunk n m io w = record {
  fewer_bytes = omega (
    arith,
    file_bytes-append (contents (w.dir 0)) (contents w.writer),
    file_bytes-append (contents (w.dir 0) ++ take n (contents w.writer))
        (drop (n + m) (contents w.writer)),
    file_bytes-append (contents (w.dir 0)) (take n (contents w.writer)),
    file_bytes-left_out n (n + m) (contents w.writer) (omega arith),
  );
  fewer_lines = omega (
    arith,
    length-append (contents (w.dir 0)) (contents w.writer),
    length-append (contents (w.dir 0) ++ take n (contents w.writer))
        (drop (n + m) (contents w.writer)),
    length-append (contents (w.dir 0)) (take n (contents w.writer)),
    length-left_out n (n + m) (contents w.writer) (omega arith),
  );
}

-- The buffer is lost.
pub over_with-Shrunk : (w : LoggerWorker) → Shrunk w (over_with w)
over_with-Shrunk w = record {
  fewer_bytes = omega (
    arith,
    file_bytes-append (contents (w.dir 0)) (contents w.writer),
    file_bytes-append (contents (w.dir 0)) [],
    no_line,
  );
  fewer_lines = omega (
    arith,
    length-append (contents (w.dir 0)) (contents w.writer),
    length-append (contents (w.dir 0)) [],
  );
}

pub Shrunk-Sized :
    (c : JsonlLoggerConfig) (w s : LoggerWorker)
    → Sized c w
    → Shrunk w s
    → s.config ≡ w.config
    → s.active_bytes ≡ w.active_bytes
    → IsOpen s
    → Sized c s
Shrunk-Sized c w s (config, small, count, is_open) k same_config same_count open' = (
  same_config ∙ config,
  Shrunk-Small c.max_bytes w s k small,
  omega (arith, same_count, count, k.fewer_bytes),
  open',
)

-- The newest file stays as it is.
abbrev pub Same : LoggerWorker → LoggerWorker → Type 0
Same w s = (s.dir 0 ≡ w.dir 0) × (s.writer ≡ w.writer) × (s.config ≡ w.config)

abbrev pub Emptied : LoggerWorker → LoggerWorker → Type 0
Emptied w s = (s.dir 0 ≡ none) × (s.writer ≡ w.writer) × (s.config ≡ w.config)

Same-then : (w1 w2 w3 : LoggerWorker) → Same w1 w2 → Same w2 w3 → Same w1 w3
Same-then w1 w2 w3 (dir, writer, config) (dir', writer', config') =
    (dir' ∙ dir, writer' ∙ writer, config' ∙ config)

module _ ⦃env : LogEnv⦄ where
  rename_if_there-Same :
      (n : ℕ) (w : LoggerWorker) → Post (Same w) (Same w) (rename_if_there (suc n) w)
  unfolding rename_if_there renamed
  rename_if_there-Same n w =
      Post-if (is_some (w.dir (suc n))) _ _ w
        (λ there.
          call-Post (rename_file (suc n)) (renamed (suc n)) w (refl, refl, refl)
            (ground arith, refl, refl))
        λ absent. good tt w (refl, refl, refl)

  shift_files-Same : (n : ℕ) (w : LoggerWorker) → Post (Same w) (Same w) (shift_files n w)
  unfolding shift_files
  shift_files-Same zero w = good tt w (refl, refl, refl)
  shift_files-Same (suc n) w = Post-continue (rename_if_there-Same n w) λ _ w1 p1.
      Post-both (λ s t. Same-then w w1 s p1 t) (λ s t. Same-then w w1 s p1 t)
        (shift_files-Same n w1)

  rename_if_there-Emptied : (w : LoggerWorker) → Post (Same w) (Emptied w) (rename_if_there 0 w)
  unfolding rename_if_there renamed
  rename_if_there-Emptied w = go (w.dir 0) refl
    where
      go :
          (o : Option (List String))
          → w.dir 0 ≡ o
          → Post
              (Same w)
              (Emptied w)
              ((if is_some o then call (rename_file 0) (renamed 0) else return tt) w)
      go none e = good tt w (e, refl, refl)
      go (some file) e =
          call-Post (rename_file 0) (renamed 0) w (refl, refl, refl) (ground arith, refl, refl)

  try_remove-Same : (n : ℕ) (w : LoggerWorker) → Post (Same w) (Same w) (try_remove (suc n) w)
  unfolding try_remove removed
  try_remove-Same n w = good tt _ (
      Post-state (
        call-Post {I = Same w} {Q = Same w} (remove_file (suc n)) (removed (suc n)) w
          (refl, refl, refl) (ground arith, refl, refl)))

  pub rotate_files-Emptied :
      (w : LoggerWorker)
      → 2 ≤ w.config.max_files
      → Post (Same w) (Emptied w) (rotate_files w.config w)
  unfolding rotate_files
  rotate_files-Emptied w many =
      Post-if (leb w.config.max_files 1) _ _ w (λ single. absurd (ground arith))
        λ several.
          Post-continue
            (subst (λ n. Post (Same w) (Same w) (try_remove n w)) {x = suc (w.config.max_files - 2)}
              (omega arith) (try_remove-Same (w.config.max_files - 2) w))
            λ _ w1 p1.
              Post-continue
                (Post-both (λ s t. Same-then w w1 s p1 t) (λ s t. Same-then w w1 s p1 t)
                  (shift_files-Same (w.config.max_files - 2) w1))
                λ _ w2 p2.
                  Post-both (λ s t. Same-then w w2 s p2 t) (λ s t. (t.0, t.1 ∙ p2.1, t.2 ∙ p2.2))
                    (rename_if_there-Emptied w2)

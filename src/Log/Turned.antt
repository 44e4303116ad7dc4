-- ===== src/Log/Turned.antt =====
-- Proofs on the lines that a rotation of the files keeps (rotate_files of
-- crates/speech-core-daemon/src/jsonl_logger.rs).
use speech_core.Base.{
  ℕ, zero, suc, ◌+◌, ◌-◌, ◌<◌, String, Option, none, some, List, [], ◌∷◌, ◌≡◌, ◌⊎◌, inl, inr, refl,
  ◌∙◌, subst, if_both, max, leb, if◌then◌else◌, is_some, arith,
}
use speech_core.Base.Work.{
  Outcome, return, Post, good, bad, Post-continue, Post-both, Post-if, ◌>>◌,
}
use speech_core.Log.Files.{
  Io, LogEnv, LogDir, LoggerWorker, removed, renamed, call, try_remove, remove_file, rename_file,
  rename_if_there, shift_files, rotate_files,
}
use speech_core.Log.Kept.{renamed-old, Tail, Tail-then, removed-Tail, renamed-Tail}

-- The number of files that are kept.
abbrev pub file_count : LoggerWorker → ℕ
file_count w = max w.config.max_files 1

-- What a step leaves of the worker and, below `n`, of the files.
abbrev pub Turned : ℕ → LoggerWorker → LoggerWorker → Type 0
Turned n w w' = (w'.writer ≡ w.writer) × (w'.config ≡ w.config) × Tail n w.dir w'.dir

Turned-then : (n : ℕ) (w1 w2 w3 : LoggerWorker) → Turned n w1 w2 → Turned n w2 w3 → Turned n w1 w3
Turned-then n w1 w2 w3 (writer, config, tail) (writer', config', tail') =
    (writer' ∙ writer, config' ∙ config, Tail-then n w1.dir w2.dir w3.dir tail tail')

-- The file above is missing, or is the oldest that is kept.
abbrev Free : ℕ → ℕ → LogDir → Type 0
Free n k dir = (dir (suc k) ≡ none) ⊎ (suc (suc k) ≡ n)

module _ ⦃env : LogEnv⦄ where
  pub call-Post :
      {I Q : LoggerWorker → Type 0} (op : Io) (f : LogDir → LogDir) (w : LoggerWorker)
      → I (record w { io = op ∷ w.io })
      → Q (record w { io = op ∷ w.io; dir = f w.dir })
      → Post I Q (call op f w)
  unfolding call
  call-Post {I} {Q} op f w i q =
      if_both (λ (r : Outcome (Unit {0}) × LoggerWorker). Post I Q r) (env.fails (op ∷ w.io))
        (bad _ i) (good tt _ q)

  -- The state after a call, failed or not.
  call-state :
      (P : LoggerWorker → Type 0) (op : Io) (f : LogDir → LogDir) (w : LoggerWorker)
      → P (record w { io = op ∷ w.io })
      → P (record w { io = op ∷ w.io; dir = f w.dir })
      → P (call op f w).1
  unfolding call
  call-state P op f w i q =
      if_both (λ (r : Outcome (Unit {0}) × LoggerWorker). P r.1) (env.fails (op ∷ w.io)) i q

  try_remove-Turned :
      {I : LoggerWorker → Type 0} (n : ℕ) (w : LoggerWorker)
      → Post I (Turned (suc n) w) (try_remove n w)
  unfolding try_remove
  try_remove-Turned n w = good tt _ (
      call-state (Turned (suc n) w) (remove_file n) (removed n) w (refl, refl, ([], refl))
        (refl, refl, removed-Tail n w.dir))

  rename_if_there-Turned :
      (n k : ℕ) (w : LoggerWorker)
      → k + 1 < n
      → Free n k w.dir
      → Post (Turned n w) (λ w'. Turned n w w' × (w'.dir k ≡ none)) (rename_if_there k w)
  unfolding rename_if_there
  rename_if_there-Turned n k w h free = go (w.dir k) refl
    where
      go :
          (o : Option (List String))
          → w.dir k ≡ o
          → Post
              (Turned n w)
              (λ w'. Turned n w w' × (w'.dir k ≡ none))
              ((if is_some o then call (rename_file k) (renamed k) else return tt) w)
      go none e = good tt w ((refl, refl, ([], refl)), e)
      go (some file) e =
          call-Post (rename_file k) (renamed k) w (refl, refl, ([], refl))
            ((refl, refl, renamed-Tail k n w.dir h free), renamed-old k w.dir)

  shift_files-Turned :
      (n k : ℕ) (w : LoggerWorker)
      → k + 1 < n
      → Free n k w.dir
      → Post (Turned n w) (λ w'. Turned n w w' × Free n 0 w'.dir) (shift_files k w)
  unfolding shift_files
  shift_files-Turned n zero w h free = good tt w ((refl, refl, ([], refl)), free)
  shift_files-Turned n (suc k) w h free =
      Post-continue (rename_if_there-Turned n (suc k) w h free) λ _ w2 turned.
        Post-both (λ s t. Turned-then n w w2 s turned.0 t)
          (λ s t. (Turned-then n w w2 s turned.0 t.0, t.1))
          (shift_files-Turned n k w2 (omega arith) (inl turned.1))

  -- The oldest file is removed, the others are renamed.
  shifted :
      (last k : ℕ)
      → last ≡ suc k
      → (w : LoggerWorker)
      → Post
          (Turned (suc last) w)
          (Turned (suc last) w)
          ((try_remove last >> (shift_files k >> rename_if_there 0)) w)
  shifted last k e w = Post-continue {I = Turned (suc last) w} (try_remove-Turned last w) λ _ w1 t1.
      Post-continue {Q = λ s. Turned (suc last) w s × Free (suc last) 0 s.dir}
        (Post-both (λ s t. Turned-then (suc last) w w1 s t1 t)
          (λ s t. (Turned-then (suc last) w w1 s t1 t.0, t.1))
          (shift_files-Turned (suc last) k w1 (omega arith) (inr (omega arith))))
        λ _ w2 t2.
          Post-both (λ s t. Turned-then (suc last) w w2 s t2.0 t)
            (λ s t. Turned-then (suc last) w w2 s t2.0 t.0)
            (rename_if_there-Turned (suc last) 0 w2 (omega arith) t2.1)

  -- Whatever fails, of the lines in the files that are kept at most the oldest are gone.
  pub rotate_files-Turned :
      (w : LoggerWorker)
      → Post (Turned (file_count w) w) (Turned (file_count w) w) (rotate_files w.config w)
  unfolding rotate_files
  rotate_files-Turned w =
      Post-if (leb w.config.max_files 1) _ _ w
        (λ single.
          subst (λ n. Post (Turned n w) (Turned n w) (try_remove 0 w)) {x = 1} {y = file_count w}
            (ground arith) (try_remove-Turned 0 w))
        λ several.
          subst
            (λ n. Post (Turned n w) (Turned n w) (
              (try_remove (w.config.max_files - 1)
                  >> (shift_files (w.config.max_files - 2) >> rename_if_there 0))
                w))
            {x = suc (w.config.max_files - 1)} {y = file_count w} (ground arith)
            (shifted (w.config.max_files - 1) (w.config.max_files - 2) (ground arith) w)

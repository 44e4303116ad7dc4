-- ===== src/Log/Written.antt =====
-- Proofs that a rotation and a write keep the log's file to its size (LoggerWorker of
-- crates/speech-core-daemon/src/jsonl_logger.rs).
use speech_core.Base.{
  ℕ, ◌+◌, ◌≤◌, ◌<◌, min, Bool, true, false, ◌&&◌, String, none, [], ◌++◌, ◌≡◌, ◌⊎◌, inl, inr, sym,
  ◌∙◌, ap, subst, ltb, if_cases, length, arith,
}
use speech_core.Base.Words.{saturating_add, u64_max}
use speech_core.Base.Work.{Post, good, Post-continue, Post-both, Post-if}
use speech_core.Log.Files.{
  LogEnv, JsonlLoggerConfig, LoggerWorker, text_bytes, file_bytes, rotate_files,
}
use speech_core.Log.Writer.{contents, rotate, is_full, write_line}
use speech_core.Log.Size.{newest, Small, Sized, no_bytes, Emptied, rotate_files-Emptied}
use speech_core.Log.Bounded.{
  Room, flush-Sized, open_active-Sized, put_line-Sized, flush_if_due-Sized,
}

abbrev pub Limit : JsonlLoggerConfig → Type 0
Limit c = (0 < c.max_bytes) × (c.max_bytes < u64_max) × (2 ≤ c.max_files)

module _ ⦃env : LogEnv⦄ (c : JsonlLoggerConfig) where
  no_file : file_bytes [] ≤ c.max_bytes
  unfolding file_bytes
  no_file = omega arith

  rotate-Sized :
      (w : LoggerWorker)
      → Limit c
      → Sized c w
      → Post (Small c.max_bytes) (λ s. Sized c s × (newest s ≡ [])) (rotate w)
  unfolding rotate
  rotate-Sized w limit sized =
      Post-continue (Post-both (λ s t. t.1) (λ s t. t) (flush-Sized c w sized)) λ _ w1 p1.
        let shut : LoggerWorker = record w1 { writer = none } in
        let same : newest w1 ≡ newest shut = ap (λ o. contents (w1.dir 0) ++ contents o) p1.1 in
        Post-continue {Q = Emptied shut}
          (subst (λ k. Post (Small c.max_bytes) (Emptied shut) (rotate_files k shut))
            (p1.0.0 ∙ sym sized.0)
            (Post-both
              (λ s t.
                subst (λ xs. (file_bytes xs ≤ c.max_bytes) ⊎ (length xs ≤ 1))
                  (same
                    ∙ ap (λ o. contents o ++ []) (sym t.0)
                    ∙ ap (λ o. contents (s.dir 0) ++ contents o) (sym t.1))
                  p1.0.1)
              (λ s t. t)
              (rotate_files-Emptied shut (subst (λ k. 2 ≤ k.max_files) (sym p1.0.0) limit.2))))
          λ _ w2 p2.
            Post-both (λ s t. t) (λ s t. (t.0, t.1 ∙ ap contents p2.0))
              (open_active-Sized c (record w2 { active_bytes = 0 }) (p2.2 ∙ p1.0.0) limit.1 p2.1
                (subst (λ o. file_bytes (contents o) ≤ c.max_bytes) (sym p2.0) no_file))

  fits_or_empty :
      (m active bytes l : ℕ)
      → 0 < m
      → m < u64_max
      → min bytes u64_max ≤ active
      → (ltb 0 m && ltb 0 active && ltb m (saturating_add active (saturating_add l 1))) ≡ false
      → (bytes + (l + 1) ≤ m) ⊎ (bytes ≡ 0)
  fits_or_empty m active bytes l some_limit fits count room =
      if_cases (λ (b : Bool). (bytes + (l + 1) ≤ m) ⊎ (bytes ≡ 0)) (ltb 0 bytes) {x = true}
        {y = true} (λ more. inl (ground arith)) λ empty. inr (ground arith)

  has_space :
      (text : String) (w : LoggerWorker)
      → Limit c
      → Sized c w
      → is_full (saturating_add (text_bytes text) 1) w ≡ false
      → Room c text w
  unfolding is_full
  has_space text w limit sized room =
      elim (fits_or_empty c.max_bytes w.active_bytes (file_bytes (newest w)) (text_bytes text)
          limit.0 limit.1 sized.2
          (subst
            (λ k.
              (ltb 0 k.max_bytes
                && ltb 0 w.active_bytes
                && ltb k.max_bytes
                    (saturating_add w.active_bytes (saturating_add (text_bytes text) 1)))
              ≡ false)
            sized.0 room))
        as (λ _. Room c text w) [
          | inl fits ↦ inl fits
          | inr empty ↦ inr (no_bytes (newest w) empty)
        ]

  pub write_line-Sized :
      (text : String) (w : LoggerWorker)
      → Limit c
      → Sized c w
      → Post (Small c.max_bytes) (Sized c) (write_line text w)
  unfolding write_line
  write_line-Sized text w limit sized =
      Post-continue {Q = λ s. Sized c s × Room c text s}
        (Post-if (is_full (saturating_add (text_bytes text) 1) w) _ _ w
          (λ full. Post-both (λ s t. t) (λ s t. (t.0, inr t.1)) (rotate-Sized w limit sized))
          λ room. good tt w (sized, has_space text w limit sized room))
        λ _ w1 p1.
          Post-continue (Post-both (λ s t. t.1) (λ s t. t) (put_line-Sized c text w1 p1.0 p1.1))
            λ _ w2 p2. Post-both (λ s t. t.1) (λ s t. t) (flush_if_due-Sized c w2 p2)

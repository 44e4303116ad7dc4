-- ===== src/Log/Kept.antt =====
-- Proofs on the lines that files hold when one is removed or renamed (rotate_files of
-- crates/speech-core-daemon/src/jsonl_logger.rs).
use mathlib.Core.List.{append_assoc}
use speech_core.Base.{
  ℕ, zero, suc, ◌+◌, ◌≤◌, ◌<◌, Bool, true, String, none, List, [], ◌++◌, ◌≡◌, ◌≢◌, ◌⊎◌, inl, inr,
  refl, sym, ◌∙◌, ap, subst, leb, ◌==◌, if◌then◌else◌, if_cases, arith,
}
use speech_core.Log.Files.{LogDir, removed, renamed}
use speech_core.Log.Writer.{contents}

-- The lines of the files below `n`, the oldest first.
abbrev pub all_lines : ℕ → LogDir → List String
all_lines zero dir = []
all_lines (suc n) dir = contents (dir n) ++ all_lines n dir

-- Of these lines at most the oldest are gone.
abbrev pub Tail : ℕ → LogDir → LogDir → Type 0
Tail n dir dir' = (lost : List String) × (all_lines n dir ≡ lost ++ all_lines n dir')

pub Tail-same : (n : ℕ) (dir dir' : LogDir) → all_lines n dir ≡ all_lines n dir' → Tail n dir dir'
Tail-same n dir dir' e = ([], e)

pub Tail-then : (n : ℕ) (d1 d2 d3 : LogDir) → Tail n d1 d2 → Tail n d2 d3 → Tail n d1 d3
Tail-then n d1 d2 d3 (lost, e) (more, e') =
    (lost ++ more, e ∙ ap (λ t. lost ++ t) e' ∙ sym (append_assoc lost more (all_lines n d3)))

-- Files that a change does not touch.
all_lines-below :
    (n : ℕ) (dir dir' : LogDir)
    → ((k : ℕ) → k < n → dir k ≡ dir' k)
    → all_lines n dir ≡ all_lines n dir'
all_lines-below zero dir dir' same = refl
all_lines-below (suc n) dir dir' same =
    ap (λ f. contents f ++ all_lines n dir) (same n (omega arith))
    ∙ ap (λ t. contents (dir' n) ++ t) (all_lines-below n dir dir' (λ k h. same k (omega arith)))

split_le : (a n : ℕ) → a ≤ suc n → (a ≤ n) ⊎ (a ≡ suc n)
split_le a n h =
    if_cases (λ (b : Bool). (a ≤ n) ⊎ (a ≡ suc n)) (leb a n) {x = true} {y = true}
      (λ yes. inl (ground arith)) λ no. inr (ground arith)

-- The files from `low` on are not touched, and the lines below are the same.
all_lines-above :
    (n low : ℕ) (dir dir' : LogDir)
    → low ≤ n
    → ((k : ℕ) → low ≤ k → dir k ≡ dir' k)
    → all_lines low dir ≡ all_lines low dir'
    → all_lines n dir ≡ all_lines n dir'
all_lines-above zero low dir dir' h same e =
    subst (λ m. all_lines m dir ≡ all_lines m dir') {x = low} {y = 0} (omega arith) e
all_lines-above (suc n) low dir dir' h same e =
    elim (split_le low n h) as (λ _. all_lines (suc n) dir ≡ all_lines (suc n) dir') [
      | inl below ↦
          ap (λ f. contents f ++ all_lines n dir) (same n below)
          ∙ ap (λ t. contents (dir' n) ++ t) (all_lines-above n low dir dir' below same e)
      | inr at ↦ subst (λ m. all_lines m dir ≡ all_lines m dir') at e
    ]

-- The oldest file goes.
pub removed-Tail : (n : ℕ) (dir : LogDir) → Tail (suc n) dir (removed n dir)
unfolding removed
removed-Tail n dir = (
  contents (dir n),
  ap (λ t. contents (dir n) ++ t)
      (all_lines-below n dir (removed n dir) (λ k h. ground arith)
        ∙ subst
            (λ b.
              all_lines n (removed n dir)
              ≡ contents (if b then none else dir n) ++ all_lines n (removed n dir))
            {x = true} {y = n == n} (ground arith) refl),
)

module _ (k : ℕ) (dir : LogDir) where
  renamed-new : renamed k dir (suc k) ≡ dir k
  unfolding renamed
  renamed-new = ground arith

  pub renamed-old : renamed k dir k ≡ none
  unfolding renamed
  renamed-old = ground arith

  renamed-other : (j : ℕ) → j ≢ suc k → j ≢ k → renamed k dir j ≡ dir j
  unfolding renamed
  renamed-other j new old = ground arith

  renamed-lines : all_lines (suc (suc k)) (renamed k dir) ≡ all_lines (suc k) dir
  renamed-lines =
      ap (λ f. contents f ++ all_lines (suc k) (renamed k dir)) renamed-new
      ∙ ap (λ f. contents (dir k) ++ (contents f ++ all_lines k (renamed k dir))) renamed-old
      ∙ ap (λ t. contents (dir k) ++ t)
          (all_lines-below k (renamed k dir) dir
            (λ j h. renamed-other j (λ e. ground arith) (λ e. ground arith)))

-- A file that takes the place of none keeps all lines, and one that takes the oldest's place all
-- others.
pub renamed-Tail :
    (k n : ℕ) (dir : LogDir)
    → k + 1 < n
    → (dir (suc k) ≡ none) ⊎ (suc (suc k) ≡ n)
    → Tail n dir (renamed k dir)
renamed-Tail k n dir h (inl absent) = Tail-same n dir (renamed k dir) (
    all_lines-above n (suc (suc k)) dir (renamed k dir) (omega arith)
      (λ j far. sym (renamed-other k dir j (λ e. ground arith) (λ e. ground arith)))
      (ap (λ f. contents f ++ all_lines (suc k) dir) absent ∙ sym (renamed-lines k dir)))
renamed-Tail k n dir h (inr top) =
    subst (λ m. Tail m dir (renamed k dir)) top
      (contents (dir (suc k)), ap (λ t. contents (dir (suc k)) ++ t) (sym (renamed-lines k dir)))

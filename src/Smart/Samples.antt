-- ===== src/Smart/Samples.antt =====
-- Lemmas on samples at their places in a list, and what a session of the semantic turn detector
-- hears (crates/speech-core-daemon/src/detectors/smart_turn.rs).
use speech_core.Base.{
  ℕ, zero, suc, ◌+◌, ◌-◌, ◌≤◌, Option, none, some, List, [], ◌∷◌, ◌++◌, ltb, ◌≡◌, refl,
  if◌then◌else◌, length, drop, replicate, arith,
}
use speech_core.Smart.Session.{SmartTurnSession}

-- The sample at an index, if any.
abbrev pub nth : List ℕ → ℕ → Option ℕ
nth [] k = none
nth (x ∷ xs) zero = some x
nth (x ∷ xs) (suc k) = nth xs k

pub nth-append :
    (xs ys : List ℕ) (k : ℕ)
    → nth (xs ++ ys) k ≡ (if ltb k (length xs) then nth xs k else nth ys (k - length xs))
nth-append [] ys k = ground arith
nth-append (x ∷ xs) ys zero = ground arith
nth-append (x ∷ xs) ys (suc k) = ground (arith, nth-append xs ys k)

pub nth-drop : (c : ℕ) (xs : List ℕ) (k : ℕ) → nth (drop c xs) k ≡ nth xs (c + k)
nth-drop zero xs k = ground arith
nth-drop (suc c) [] k = refl
nth-drop (suc c) (x ∷ xs) k = ground (arith, nth-drop c xs k)

pub nth-replicate : (c x k : ℕ) → nth (replicate c x) k ≡ (if ltb k c then some x else none)
nth-replicate zero x k = ground arith
nth-replicate (suc c) x zero = ground arith
nth-replicate (suc c) x (suc k) = ground (arith, nth-replicate c x k)

pub nth_beyond : (xs : List ℕ) (k : ℕ) → length xs ≤ k → nth xs k ≡ none
nth_beyond [] k h = refl
nth_beyond (x ∷ xs) zero h = ground arith
nth_beyond (x ∷ xs) (suc k) h = nth_beyond xs k (omega arith)

-- The sample of the stream with the given number, if the session holds it.
abbrev pub sample_at : ℕ → SmartTurnSession → Option ℕ
sample_at n s = if ltb n s.first_sample then none else nth s.audio (n - s.first_sample)

pub length-replicate : (c x : ℕ) → length (replicate c x) ≡ c
length-replicate zero x = refl
length-replicate (suc c) x = omega (arith, length-replicate c x)

-- What a session that ends at `e` knows of the sample `n` once it has also heard the samples from
-- `start` on: what it had, silence in between, and then what it has heard.
abbrev pub heard : ℕ → ℕ → List ℕ → ℕ → ℕ → Option ℕ → Option ℕ
heard zero_sample start samples e n before =
    if ltb n e then before else if ltb n start then some zero_sample else nth samples (n - start)

-- ===== src/Vad/Yields.antt =====
-- Postconditions of the voice activity detector's functions (Vad/Local), for a log whose worker
-- runs: `Yields Q r` says that the work succeeded, and left a result and a session with Q.
use speech_core.Base.{
  Bool, true, false, ◌&&◌, List, ◌∷◌, ◌≡◌, refl, if◌then◌else◌, subst, sym, if_cases,
}
use speech_core.Vad.Events.{VadEvent, is_logged}
use speech_core.Vad.Local.{
  VadEnv, VadSession, VadLocal, VadResult, done, failed, log_stopped, V, proceed, vad_written,
  vad_write,
}

pub data Yields {A : Type 0} (Q : A → VadSession → Type 0) : VadResult A × VadLocal → Type 0 where
  yields : (a : A) (l : VadLocal) → Q a l.session → Yields Q (done a, l)

-- The log's worker never stops.
abbrev pub IsLogging : VadEnv → Type 0
IsLogging env = (sent : List VadEvent) → env.logger_stopped sent ≡ false

pub Yields-proceed :
    {A B : Type 0} {Q : A → VadSession → Type 0} {R : B → VadSession → Type 0} {f : A → V B}
    {r : VadResult A × VadLocal}
    → Yields Q r
    → ((a : A) (l : VadLocal) → Q a l.session → Yields R (f a l))
    → Yields R (proceed f r)
Yields-proceed (yields a l q) k = k a l q

pub Yields-weaken :
    {A : Type 0} {Q R : A → VadSession → Type 0} {r : VadResult A × VadLocal}
    → ((a : A) (s : VadSession) → Q a s → R a s)
    → Yields Q r
    → Yields R r
Yields-weaken k (yields a l q) = yields a l (k a l.session q)

pub Yields-if :
    {A : Type 0} {Q : A → VadSession → Type 0} (b : Bool) (m n : V A) (l : VadLocal)
    → (b ≡ true → Yields Q (m l))
    → (b ≡ false → Yields Q (n l))
    → Yields Q ((if b then m else n) l)
Yields-if true m n l p q = p refl
Yields-if false m n l p q = q refl

module _ ⦃env : VadEnv⦄ (live : IsLogging env) where
  vad_written-done : (e : VadEvent) (sent : List VadEvent) → vad_written e sent ≡ done tt
  unfolding vad_written
  vad_written-done e sent =
      subst (λ b. (if is_logged e && b then failed log_stopped else done tt) ≡ done tt)
        (sym (live (e ∷ sent)))
        (if_cases (λ r. r ≡ done tt) (is_logged e && false) (λ h. no (is_logged e) h) (λ _. refl))
    where
      no : (b : Bool) → (b && false) ≡ true → failed log_stopped ≡ done tt
      no true h = cc
      no false h = cc

  -- A write leaves the session as it is.
  pub Yields-write : (e : VadEvent) (l : VadLocal) → Yields (λ _ s. s ≡ l.session) (vad_write e l)
  unfolding vad_write
  Yields-write e l =
      subst (λ r. Yields (λ _ s. s ≡ l.session) (r, record l { sent = e ∷ l.sent }))
        (sym (vad_written-done e l.sent)) (yields tt _ refl)

  -- The same at the head of a `do` block.
  pub Yields-after_write :
      {B : Type 0} {R : B → VadSession → Type 0} (f : Unit {0} → V B) (e : VadEvent) (l : VadLocal)
      → Yields R (f tt (record l { sent = e ∷ l.sent }))
      → Yields R (proceed f (vad_write e l))
  unfolding vad_write
  Yields-after_write {B} {R} f e l rest =
      subst (λ r. Yields R (proceed f (r, record l { sent = e ∷ l.sent })))
        (sym (vad_written-done e l.sent)) rest

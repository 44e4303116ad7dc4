-- ===== src/Base/Work.antt =====
-- Work on a state that may fail: what has changed stays changed, as `?` on a `&mut` borrow leaves
-- it, and postconditions of such work. The text of an error is left out.
use mathlib.Core.Path.{◌≡◌, refl}
use mathlib.Core.Bool.{Bool, true, false}
use speech_core.Base.Tests.{if◌then◌else◌}

pub data Outcome (A : Type 0) : Type 0 where
  ok : A → Outcome A
  err : Outcome A

abbrev pub Work : Type 0 → Type 0 → Type 0
Work S A = S → Outcome A × S

module _ {S : Type 0} where
  infixl 5 ◌>>=◌ ◌>>◌
  abbrev pub continue : {A B : Type 0} → (A → Work S B) → Outcome A × S → Outcome B × S
  continue f (ok a, s) = f a s
  continue f (err, s) = (err, s)

  abbrev pub ◌>>=◌ : {A B : Type 0} → Work S A → (A → Work S B) → Work S B
  ◌>>=◌ m f s = continue f (m s)

  abbrev pub ◌>>◌ : {A B : Type 0} → Work S A → Work S B → Work S B
  m >> k = m >>= λ _. k

  abbrev pub return : {A : Type 0} → A → Work S A
  return a s = (ok a, s)

  abbrev pub bail : {A : Type 0} → Work S A
  bail s = (err, s)

  abbrev pub modify : (S → S) → Work S (Unit {0})
  modify f s = (ok tt, f s)

  -- `Post I Q r` says that a success leaves a state with Q, and a failure one with I.
  pub data Post {A : Type 0} (I Q : S → Type 0) : Outcome A × S → Type 0 where
    good : (a : A) (s : S) → Q s → Post I Q (ok a, s)
    bad : (s : S) → I s → Post I Q (err, s)

  -- The rule for `do`.
  pub Post-continue :
      {A B : Type 0} {I Q R : S → Type 0} {f : A → Work S B} {r : Outcome A × S}
      → Post I Q r
      → ((a : A) (s : S) → Q s → Post I R (f a s))
      → Post I R (continue f r)
  Post-continue (good a s q) k = k a s q
  Post-continue (bad s i) k = bad s i

  pub Post-weaken :
      {A : Type 0} {I Q R : S → Type 0} {r : Outcome A × S}
      → ((s : S) → Q s → R s)
      → Post I Q r
      → Post I R r
  Post-weaken k (good a s q) = good a s (k s q)
  Post-weaken k (bad s i) = bad s i

  pub Post-both :
      {A : Type 0} {I J Q R : S → Type 0} {r : Outcome A × S}
      → ((s : S) → I s → J s)
      → ((s : S) → Q s → R s)
      → Post I Q r
      → Post J R r
  Post-both j k (good a s q) = good a s (k s q)
  Post-both j k (bad s i) = bad s (j s i)

  pub Post-state : {A : Type 0} {I : S → Type 0} {r : Outcome A × S} → Post I I r → I r.1
  Post-state (good a s i) = i
  Post-state (bad s i) = i

  pub Post-outcome :
      {I Q : S → Type 0} (o : Outcome (Unit {0})) (s : S) → Q s → I s → Post I Q (o, s)
  Post-outcome (ok a) s q i = good a s q
  Post-outcome err s q i = bad s i

  -- A branch on a test.
  pub Post-if :
      {A : Type 0} {I Q : S → Type 0} (b : Bool) (m n : Work S A) (s : S)
      → (b ≡ true → Post I Q (m s))
      → (b ≡ false → Post I Q (n s))
      → Post I Q ((if b then m else n) s)
  Post-if true m n s p q = p refl
  Post-if false m n s p q = q refl

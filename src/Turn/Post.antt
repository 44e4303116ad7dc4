-- ===== src/Turn/Post.antt =====
-- Postconditions of the handlers' monad (Turn/Local): `Post I Q r` says that a success leaves a
-- state with Q, and a failed write one with I.
use speech_core.Base.{◌∷◌}
use speech_core.Turn.Events.{Event}
use speech_core.Turn.Local.{Env, Local, M, Outcome, ok, err, continue, written, write}
pub use speech_core.Base.Work.{
  Post, good, bad, Post-continue, Post-weaken, Post-state, Post-outcome, Post-if,
}

module _ ⦃env : Env⦄ where
  -- A write adds the event, whether or not the log takes it.
  pub Post-write :
      {I Q : Local → Type 0} (e : Event) (l : Local)
      → Q (record l { sent = e ∷ l.sent })
      → I (record l { sent = e ∷ l.sent })
      → Post I Q (write e l)
  unfolding write
  Post-write e l q i = Post-outcome (written e l.sent) _ q i

  -- The same at the head of a `do` block, which goes on in the very state after the write.
  pub Post-after_write :
      {B : Type 0} {I R : Local → Type 0} (f : Unit {0} → M B) (e : Event) (l : Local)
      → I (record l { sent = e ∷ l.sent })
      → Post I R (f tt (record l { sent = e ∷ l.sent }))
      → Post I R (continue f (write e l))
  unfolding write
  Post-after_write {B} {I} {R} f e l i rest = go (written e l.sent)
    where
      go : (o : Outcome (Unit {0})) → Post I R (continue f (o, record l { sent = e ∷ l.sent }))
      go (ok _) = rest
      go err = bad _ i

-- ===== src/Progress/Generations.antt =====
-- The generations of a session's progress (start_session and remove_generation of
-- crates/speech-core-daemon/src/model.rs).
use speech_core.Base.{ℕ, Bool, true, false, String, none, some, ◌==◌, ◌≡◌, ◌≢◌, ◌∙◌, if◌then◌else◌}
use speech_core.Base.Maps.{
  lookup, insert, remove, lookup-insert_self, lookup-insert_other, lookup-remove_self,
  lookup-remove_other,
}
use speech_core.Progress.State.{ModelProgressMap}
use speech_core.Progress.Ops.{fresh_state, start_session, remove_generation}

-- When a session was started in a generation, a removal takes its progress away if it names this
-- generation, and leaves that fresh progress if it names another one, such as that of an earlier
-- connection; under other keys nothing changes.
remove_generation-start_session :
    (id key : String) (removed generation : ℕ) (m : ModelProgressMap)
    → key ≢ id
    → let after = remove_generation id removed (start_session id generation m) in
      (lookup id after ≡ (if generation == removed then none else some (fresh_state generation)))
      × (lookup key after ≡ lookup key m)
unfolding remove_generation start_session fresh_state
remove_generation-start_session id key removed generation m n =
    rw (lookup-insert_self id (fresh_state generation) m) (by_test (generation == removed))
  where
    started : ModelProgressMap
    started = insert id (fresh_state generation) m

    by_test :
        (same : Bool)
        → (lookup id (if same then remove id started else started)
            ≡ (if same then none else some (fresh_state generation)))
          × (lookup key (if same then remove id started else started) ≡ lookup key m)
    by_test true = (
      lookup-remove_self id started,
      lookup-remove_other id key started n ∙ lookup-insert_other id key _ m n,
    )
    by_test false = (lookup-insert_self id _ m, lookup-insert_other id key _ m n)

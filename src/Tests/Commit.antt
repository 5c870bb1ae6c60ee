-- ===== src/Tests/Commit.antt =====
-- The group commit at a concrete run: two writers, of which one leads and the other sleeps.
use hamane_db.Base.{
  ℕ, ◌++◌, ◌≡◌, ◌≢◌, ◌≤◌, ◌+◌, ◌-◌, refl, true, false, List, [], ◌∷◌, All, Bool, arith,
}
use hamane_db.Wal.Commit.{
  BatchState, idle_batch, wait_turn, turn_batch, turn_phase, Phase, ready, asleep, returned,
  leading, Waiter, CommitState, CommitStep, append_step, token_step, turn_step, IsReachable, start,
  then_step, every_n,
}
use hamane_db.Wal.Commit.Durable.{
  returned_durable, leaders, one_if, leaders_syncing, after_flush, asleep_woken,
}
use hamane_db.Wal.Commit.Every.{new_ledger, write_all, write_all-few}

abbrev waiter : ℕ → Phase → Waiter
waiter seq phase = record { seq = seq; phase = phase }

abbrev appended : ℕ → BatchState
appended n = record idle_batch { appended = n }

-- Both have a record in the log; the first to come leads.
abbrev two_writers : CommitState
two_writers = record {
  batch_state = record { appended = 2; synced = 0; syncing = true };
  durable = 0;
  waiters = waiter 2 asleep ∷ waiter 1 (leading 2) ∷ [];
}

two_writers-IsReachable : IsReachable two_writers
unfolding wait_turn turn_batch turn_phase
two_writers-IsReachable =
    then_step
      (then_step
        (then_step
          (then_step
            (then_step (then_step start (append_step idle_batch 0 []))
              (token_step (appended 1) 0 []))
            (append_step (appended 1) 0 (waiter 1 ready ∷ [])))
          (token_step (appended 2) 0 (waiter 1 ready ∷ [])))
        (turn_step (appended 2) 0 1 (waiter 2 ready ∷ []) []))
      (turn_step (record (appended 2) { syncing = true }) 0 2 [] (waiter 1 (leading 2) ∷ []))

returned_durable_example :
    All (λ (w : Waiter). w.phase ≡ returned → w.seq ≤ two_writers.durable) two_writers.waiters
returned_durable_example = returned_durable two_writers two_writers-IsReachable

leaders_syncing_example : leaders two_writers.waiters ≡ one_if two_writers.batch_state.syncing
leaders_syncing_example = leaders_syncing two_writers two_writers-IsReachable

asleep_woken_example :
    (pre : List Waiter) × (leader : ℕ) × (target : ℕ) × (post : List Waiter) × (two_writers.waiters
      ≡ pre ++ (record { seq = leader; phase = leading target } ∷ post))
    × ((m : ℕ)
        → two_writers.durable ≤ m
        → target ≤ m
        → CommitStep two_writers (after_flush two_writers pre leader target post m ready)
          × All
              (λ (w : Waiter). w.phase ≢ asleep)
              (after_flush two_writers pre leader target post m ready).waiters
          × CommitStep
              (after_flush two_writers pre leader target post m ready)
              (after_flush two_writers pre leader target post m returned))
asleep_woken_example =
    asleep_woken two_writers [] (waiter 1 (leading 2) ∷ []) 2 two_writers-IsReachable refl

-- Every third write is flushed; the second of these flushes fails.
abbrev some_answers : List Bool
some_answers = true ∷ true ∷ true ∷ true ∷ true ∷ false ∷ true ∷ []

write_all-few_example :
    (write_all some_answers (new_ledger (every_n 3))).acknowledged
    ≤ (write_all some_answers (new_ledger (every_n 3))).safe + (3 - 1)
write_all-few_example = write_all-few 3 some_answers (omega arith)

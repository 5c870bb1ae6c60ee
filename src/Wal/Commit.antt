-- ===== src/Wal/Commit.antt =====
-- When the log is flushed: `SyncPolicy`, `BatchState`, `WalWriter::sync` and `SyncToken::wait` of
-- wal.rs. `sync_data` of the file system is the answer that it gives, a Boolean. The group commit
-- is a step relation: the writer and any number of waiting threads take their steps in any order,
-- each step one stretch of the code under the lock of `BatchState`.
pub mod Durable
pub mod Every
use hamane_db.Base.{
  ℕ, ◌+◌, ◌%◌, ◌^◌, ◌≤◌, Bool, true, false, not, Option, none, some, List, [], ◌∷◌, ◌++◌, map, max,
  leb, if◌then◌else◌, ◌≡◌,
}
use hamane_db.Base.Outcome.{Result, ok, err, io}

pub data SyncPolicy : Type 0 where
  always : SyncPolicy
  every_n : ℕ → SyncPolicy
  batch : SyncPolicy

pub record BatchState : Type 0 where
  pub appended : ℕ
  pub synced : ℕ
  pub syncing : Bool

abbrev pub idle_batch : BatchState
idle_batch = record { appended = 0; synced = 0; syncing = false }

-- `unsynced` is a u32.
pub record WalWriter : Type 0 where
  pub batch_state : BatchState
  pub policy : SyncPolicy
  pub unsynced : ℕ

-- `append` counts the record that it has written.
abbrev pub count_appended : BatchState → BatchState
count_appended b = record b { appended = b.appended + 1 }

-- What `sync` did: its result (a token is its sequence number), whether it flushed the file, and
-- the writer after.
pub record SyncOutcome : Type 0 where
  pub result : Result (Option ℕ)
  pub flushed : Bool
  pub writer : WalWriter

-- `WalWriter::sync`, where `answer` is what `sync_data` says, if it is called.
unfoldable pub sync : Bool → WalWriter → SyncOutcome
sync answer w = elim w.policy [
  | always ↦ record { result = if answer then ok none else err io; flushed = answer; writer = w }
  | every_n n ↦
      (let counted = record w { unsynced = (w.unsynced + 1) % 2 ^ 32 } in
        if leb n counted.unsynced
        then record {
          result = if answer then ok none else err io;
          flushed = answer;
          writer = if answer then record counted { unsynced = 0 } else counted;
        }
        else record { result = ok none; flushed = false; writer = counted })
  | batch ↦ record { result = ok (some w.batch_state.appended); flushed = false; writer = w }
]

-- A flush in `sync` puts on the disk all that was appended, and so does the `wait` of its token.
abbrev pub is_settled : SyncOutcome → Bool
is_settled o = elim o.result [ err e ↦ o.flushed | ok none ↦ o.flushed | ok (some seq) ↦ true ]

-- The policies under which a write returns when it is on the disk.
abbrev pub is_flushing : SyncPolicy → Bool
is_flushing always = true
is_flushing (every_n n) = false
is_flushing batch = true

-- One round of the loop of `wait`, under the lock: to return, to flush the file as the leader up to
-- a number of records, or to sleep on the condition variable.
pub data Turn : Type 0 where
  finish : Turn
  lead : ℕ → Turn
  sleep : Turn

unfoldable pub wait_turn : ℕ → BatchState → Turn
wait_turn seq b =
    if leb seq b.synced then finish else if not b.syncing then lead b.appended else sleep

-- The leader, with the lock again after `sync_data`.
unfoldable pub after_fsync : Bool → ℕ → BatchState → BatchState
after_fsync answer target b = record b {
  syncing = false;
  synced = if answer then max b.synced target else b.synced;
}

-- Where a waiting thread stands: before the test of the loop, in `sync_data`, asleep, or out of
-- `wait` with Ok or with the error.
pub data Phase : Type 0 where
  ready asleep returned failed : Phase
  leading : ℕ → Phase

pub record Waiter : Type 0 where
  pub seq : ℕ
  pub phase : Phase

-- `durable` is how many records are on the disk, whatever the program knows of it.
pub record CommitState : Type 0 where
  pub batch_state : BatchState
  pub durable : ℕ
  pub waiters : List Waiter

abbrev pub commit_start : CommitState
commit_start = record { batch_state = idle_batch; durable = 0; waiters = [] }

abbrev pub at_phase : Phase → Waiter → Waiter
at_phase phase w = record w { phase = phase }

-- The phase after a turn, and the state.
unfoldable pub turn_phase : Turn → Phase
turn_phase finish = returned
turn_phase (lead target) = leading target
turn_phase sleep = asleep

unfoldable pub turn_batch : Turn → BatchState → BatchState
turn_batch finish b = b
turn_batch (lead target) b = record b { syncing = true }
turn_batch sleep b = b

-- `notify_all`
unfoldable pub woken : Waiter → Waiter
woken w = elim w.phase [
  | asleep ↦ record w { phase = ready }
  | ready ↦ w
  | returned ↦ w
  | failed ↦ w
  | leading target ↦ w
]

-- `wait` goes round again after a flush, and returns the error of one that failed.
abbrev pub answer_phase : Bool → Phase
answer_phase true = ready
answer_phase false = failed

pub data CommitStep : CommitState → CommitState → Type 0 where
  -- The writer appends a record, or takes a token for what it has appended.
  append_step :
      (b : BatchState) (n : ℕ) (ws : List Waiter)
      → CommitStep
          (record { batch_state = b; durable = n; waiters = ws })
          (record { batch_state = count_appended b; durable = n; waiters = ws })
  token_step :
      (b : BatchState) (n : ℕ) (ws : List Waiter)
      → CommitStep
          (record { batch_state = b; durable = n; waiters = ws })
          (record {
            batch_state = b;
            durable = n;
            waiters = record { seq = b.appended; phase = ready } ∷ ws;
          })
  -- A thread takes a turn.
  turn_step :
      (b : BatchState) (n : ℕ) (seq : ℕ) (before after : List Waiter)
      → CommitStep
          (record {
            batch_state = b;
            durable = n;
            waiters = before ++ (record { seq = seq; phase = ready } ∷ after);
          })
          (record {
            batch_state = turn_batch (wait_turn seq b) b;
            durable = n;
            waiters =
                before ++ (record { seq = seq; phase = turn_phase (wait_turn seq b) } ∷ after);
          })
  -- `sync_data` of a leader succeeds: what had been appended before it is on the disk. Or it fails.
  -- All that sleep are woken.
  flush_step :
      (b : BatchState) (n m : ℕ) (seq target : ℕ) (before after : List Waiter)
      → n ≤ m
      → target ≤ m
      → CommitStep
          (record {
            batch_state = b;
            durable = n;
            waiters = before ++ (record { seq = seq; phase = leading target } ∷ after);
          })
          (record {
            batch_state = after_fsync true target b;
            durable = m;
            waiters =
                map woken before
                ++ (record { seq = seq; phase = answer_phase true } ∷ map woken after);
          })
  fail_step :
      (b : BatchState) (n : ℕ) (seq target : ℕ) (before after : List Waiter)
      → CommitStep
          (record {
            batch_state = b;
            durable = n;
            waiters = before ++ (record { seq = seq; phase = leading target } ∷ after);
          })
          (record {
            batch_state = after_fsync false target b;
            durable = n;
            waiters =
                map woken before
                ++ (record { seq = seq; phase = answer_phase false } ∷ map woken after);
          })
  -- A condition variable may wake a thread without a cause.
  wake_step :
      (b : BatchState) (n : ℕ) (seq : ℕ) (before after : List Waiter)
      → CommitStep
          (record {
            batch_state = b;
            durable = n;
            waiters = before ++ (record { seq = seq; phase = asleep } ∷ after);
          })
          (record {
            batch_state = b;
            durable = n;
            waiters = before ++ (record { seq = seq; phase = ready } ∷ after);
          })

-- Any number of steps from the new file.
pub data IsReachable : CommitState → Type 0 where
  start : IsReachable commit_start
  then_step : {s t : CommitState} → IsReachable s → CommitStep s t → IsReachable t

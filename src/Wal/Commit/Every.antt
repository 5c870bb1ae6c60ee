-- ===== src/Wal/Commit/Every.antt =====
-- `SyncPolicy::EveryN`: how many acknowledged writes of one log a crash can lose.
use hamane_db.Base.{
  subst, sym, ℕ, ◌+◌, ◌-◌, ◌%◌, ◌^◌, ◌<◌, length, ◌≤◌, ◌≡◌, refl, Bool, true, false, List, [], ◌∷◌,
  leb, if◌then◌else◌, Bool-cases, inl, inr, arith,
}
use hamane_db.Base.Outcome.{Result, ok, err}
use hamane_db.Wal.Commit.{
  SyncPolicy, every_n, BatchState, idle_batch, count_appended, WalWriter, sync,
}

-- A writer, and the writes that its caller knows of: how many `sync` has acknowledged with Ok, and
-- how many of these are on the disk for certain.
pub record Ledger : Type 0 where
  pub writer : WalWriter
  pub acknowledged : ℕ
  pub safe : ℕ

abbrev pub is_ok {ℓ} : {A : Type ℓ} → Result A → Bool
is_ok (ok x) = true
is_ok (err e) = false

-- A write: `append`, then `sync`. A flush makes every write so far safe.
unfoldable pub write_once : Bool → Ledger → Ledger
write_once answer l =
    let outcome =
      sync answer (record l.writer { batch_state = count_appended l.writer.batch_state }) in
    let acknowledged = if is_ok outcome.result then l.acknowledged + 1 else l.acknowledged in
    record {
      writer = outcome.writer;
      acknowledged = acknowledged;
      safe = if outcome.flushed then acknowledged else l.safe;
    }

-- The writes of a whole run, by what `sync_data` answers each time that it is asked.
unfoldable pub write_all : List Bool → Ledger → Ledger
write_all [] l = l
write_all (answer ∷ answers) l = write_all answers (write_once answer l)

abbrev pub new_ledger : SyncPolicy → Ledger
new_ledger policy = record {
  writer = record { batch_state = idle_batch; policy = policy; unsynced = 0 };
  acknowledged = 0;
  safe = 0;
}

-- After `done` writes.
record IsBounded (n done : ℕ) (l : Ledger) : Type 0 where
  policy : l.writer.policy ≡ every_n n
  since : l.acknowledged ≤ l.safe + l.writer.unsynced
  few : l.acknowledged ≤ l.safe + (n - 1)
  counted : l.writer.unsynced ≤ done

no_wrap : (x : ℕ) → x < 2 ^ 32 → x % 2 ^ 32 ≡ x
no_wrap x h = omega (arith, h)

every_once :
    (n done unsynced acknowledged safe : ℕ) (b : BatchState) (answer : Bool)
    → acknowledged ≤ safe + unsynced
    → acknowledged ≤ safe + (n - 1)
    → unsynced ≤ done
    → done + 1 < 2 ^ 32
    → IsBounded n (done + 1) (
        write_once answer (record {
          writer = record { batch_state = b; policy = every_n n; unsynced = unsynced };
          acknowledged = acknowledged;
          safe = safe;
        }))
unfolding write_once sync
every_once n done unsynced acknowledged safe b true h k c small =
    let same : (unsynced + 1) % 2 ^ 32 ≡ unsynced + 1 =
      no_wrap (unsynced + 1) (omega (arith, c, small)) in
    elim (Bool-cases (leb n (unsynced + 1))) [
      | inl due ↦
          rw (same, due)
            (record {
              policy = refl;
              since = omega arith;
              few = omega arith;
              counted = omega arith;
            })
      | inr early ↦
          rw (same, early)
            (record {
              policy = refl;
              since = omega (arith, h);
              few = ground (arith, h, early);
              counted = omega (arith, c);
            })
    ]
every_once n done unsynced acknowledged safe b false h k c small =
    let same : (unsynced + 1) % 2 ^ 32 ≡ unsynced + 1 =
      no_wrap (unsynced + 1) (omega (arith, c, small)) in
    elim (Bool-cases (leb n (unsynced + 1))) [
      | inl due ↦
          rw (same, due)
            (record {
              policy = refl;
              since = omega (arith, h);
              few = k;
              counted = omega (arith, c);
            })
      | inr early ↦
          rw (same, early)
            (record {
              policy = refl;
              since = omega (arith, h);
              few = ground (arith, h, early);
              counted = omega (arith, c);
            })
    ]

write_once-IsBounded :
    (n done : ℕ) (answer : Bool) (l : Ledger)
    → done + 1 < 2 ^ 32
    → IsBounded n done l
    → IsBounded n (done + 1) (write_once answer l)
write_once-IsBounded n done answer l small h =
    subst
      (λ p.
        IsBounded n (done + 1)
          (write_once answer (record l { writer = record l.writer { policy = p } })))
      (sym h.policy)
      (every_once n done l.writer.unsynced l.acknowledged l.safe l.writer.batch_state answer h.since
        h.few h.counted small)

write_all-IsBounded :
    (n done : ℕ) (answers : List Bool) (l : Ledger)
    → done + length answers < 2 ^ 32
    → IsBounded n done l
    → IsBounded n (done + length answers) (write_all answers l)
unfolding write_all
write_all-IsBounded n done [] l small h = subst (λ x. IsBounded n x l) (omega arith) h
write_all-IsBounded n done (answer ∷ answers) l small h =
    subst (λ x. IsBounded n x (write_all answers (write_once answer l))) (omega arith)
      (write_all-IsBounded n (done + 1) answers (write_once answer l) (omega (arith, small))
        (write_once-IsBounded n done answer l (omega (arith, small)) h))

-- Under `SyncPolicy::EveryN(n)`, after fewer than 2^32 writes to one log and whatever `sync_data`
-- answered each time, at most `n - 1` acknowledged writes of this log are not on the disk for
-- certain (none where `n` is 0).
pub write_all-few :
    (n : ℕ) (answers : List Bool)
    → length answers < 2 ^ 32
    → (write_all answers (new_ledger (every_n n))).acknowledged
      ≤ (write_all answers (new_ledger (every_n n))).safe + (n - 1)
write_all-few n answers small =
    (write_all-IsBounded n 0 answers (new_ledger (every_n n)) (omega (arith, small))
      (record { policy = refl; since = omega arith; few = omega arith; counted = omega arith })).few

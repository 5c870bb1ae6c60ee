-- ===== src/Store/Open/Survives.antt =====
-- What a restart reads after writes: nothing that was logged is lost.
use hamane_db.Base.{
  ℕ, ◌+◌, ◌-◌, min, length, take, take_all, Map, remove, true, false, ◌≤◌, ◌<◌, ◌≡◌, refl, sym, ◌∙◌,
  ap, subst, Option, none, some, List, [], ◌∷◌, ◌++◌, lookup, lookup-insert, insert,
  insert-IsUnique, IsUnique, nat_eq, ◌==◌, ==_refl, Bool-cases, inl, inr, arith,
}
use hamane_db.Base.Outcome.{ok, ok-injective, >>=-eq-ok}
use hamane_db.Manifest.{Manifest}
use hamane_db.Wal.Record.{WalRecord}
use hamane_db.Store.State.{StoreState, Disk}
use hamane_db.Store.Apply.{replay}
use mathlib.Core.Path.{ap₂}
use hamane_db.Wal.Commit.{SyncPolicy, always, every_n, batch, sync, is_flushing}
use hamane_db.Store.Maintain.{World, Shared}
use hamane_db.Store.Api.{with_state, get_or_zero, append_records, sync_log, log_records}
use hamane_db.Store.Open.{
  kept_files, crash, load_collections, load_base, list_wal_files, replay_files, tidied, load_state,
}
use hamane_db.Store.Open.Sees.{Sees, AreWrites, replay-Sees, replay-IsUnique}
use hamane_db.Store.Open.Files.{Logs, AreUpTo, LogView, replay-logs_of, replay_files-logged}

pub load_base-manifest :
    (d : Disk) {base : StoreState} → load_base d ≡ ok base → base.manifest ≡ d.manifest
unfolding load_base
load_base-manifest d e =
    let (loaded, read, done) =
      >>=-eq-ok
        (load_collections d.segments d.manifest.collections
          (record { collections = []; names = [] }))
        _ e in
    ap (λ (s : StoreState). s.manifest) (sym (ok-injective done))

-- A start from these files gives this state, and this as the greatest number of a log.
pub record Restarts (d : Disk) (s : StoreState) (last : ℕ) : Type 0 where
  pub base : StoreState
  pub based : load_base d ≡ ok base
  pub replayed :
      replay_files (list_wal_files d.wal_files) (base, base.manifest.wal_seq) ≡ ok (s, last)

pub Restarts-load_state :
    (d : Disk) (s : StoreState) (last : ℕ)
    → Restarts d s last
    → load_state d ≡ ok ((s, last), tidied s.manifest d)
unfolding load_state
Restarts-load_state d s last r = rw (r.based, r.replayed) refl

pub load_state-Restarts :
    (d d' : Disk) (s : StoreState) (last : ℕ)
    → load_state d ≡ ok ((s, last), d')
    → Restarts d s last × (d' ≡ tidied s.manifest d)
unfolding load_state
load_state-Restarts d d' s last e =
    let (base, based, rest) = >>=-eq-ok (load_base d) _ e in
    let ((s1, last1), read, done) =
      >>=-eq-ok (replay_files (list_wal_files d.wal_files) (base, base.manifest.wal_seq)) _ rest in
    let same : s1 ≡ s = ap (λ (x : (StoreState × ℕ) × Disk). x.0.0) (ok-injective done) in
    let files : tidied s1.manifest d ≡ d' =
      ap (λ (x : (StoreState × ℕ) × Disk). x.1) (ok-injective done) in
    (
      record {
        base = base;
        based = based;
        replayed = read ∙ ap (λ (x : (StoreState × ℕ) × Disk). ok x.0) (ok-injective done);
      },
      sym files ∙ ap (λ (x : StoreState). tidied x.manifest d) same,
    )

-- A crash now would lose nothing: every record of the logs is on the disk, the active log is the newest and not yet covered by the
-- manifest, and a start from the files gives a state with the same collections and the same
-- current record for each id. Each collection has one entry.
pub record Recovers (w : World) : Type 0 where
  pub seq : ℕ
  pub log : List WalRecord
  pub active : w.state.wal ≡ some seq
  pub logged : lookup seq w.disk.wal_files ≡ some log
  pub newest : AreUpTo seq w.disk.wal_files
  pub unique : IsUnique w.disk.wal_files
  pub uncovered : w.disk.manifest.wal_seq < seq
  pub one_each : IsUnique w.state.collections
  pub flushed : w.unflushed ≡ []
  pub state : StoreState
  pub last : ℕ
  pub restarts : Restarts w.disk state last
  pub same : Sees state w.state

pub insert-AreUpTo :
    (n k : ℕ) (recs : List WalRecord) (m : Logs) → k ≤ n → AreUpTo n m → AreUpTo n (insert k recs m)
unfolding insert
insert-AreUpTo n k recs [] h a = (h, tt)
insert-AreUpTo n k recs ((j, old) ∷ m) h a = elim (Bool-cases (j == k)) [
  | inl same ↦ rw same (h, a.1)
  | inr other ↦ rw other (a.0, insert-AreUpTo n k recs m h a.1)
]

pub raise-AreUpTo : (n : ℕ) (m : Logs) → AreUpTo n m → AreUpTo (n + 1) m
raise-AreUpTo n [] a = tt
raise-AreUpTo n (f ∷ m) a = (omega (arith, a.0), raise-AreUpTo n m a.1)

false_true : {P : Type 0} → false ≡ true → P
false_true h = cc

-- A world of which a crash loses nothing has the files that it leaves.
kept_files_all : (loss : ℕ → ℕ) (files : Logs) → kept_files loss [] files ≡ files
unfolding kept_files lookup
kept_files_all loss [] = refl
kept_files_all loss ((seq, recs) ∷ files) =
    let all : take (length recs - min (loss seq) 0) recs ≡ recs =
      ap (λ n. take n recs) (omega arith) ∙ take_all recs in
    ap₂ (λ (l : List WalRecord) (m : Logs). (seq, l) ∷ m) all (kept_files_all loss files)

pub crash-flushed : (loss : ℕ → ℕ) (w : World) → w.unflushed ≡ [] → crash loss w ≡ w.disk
unfolding crash
crash-flushed loss w e =
    ap (λ m. record w.disk { wal_files = m })
      (ap (λ u. kept_files loss u w.disk.wal_files) e ∙ kept_files_all loss w.disk.wal_files)

sync_log-disk : (sh : Shared) (seq : ℕ) (w : World) → (sync_log sh seq w).disk ≡ w.disk
unfolding sync_log
sync_log-disk sh seq w = refl

-- Under a policy that flushes, nothing of the log is left to flush.
sync_log-unflushed :
    (sh : Shared) (seq : ℕ) (w : World)
    → is_flushing sh.sync ≡ true
    → (sync_log sh seq w).unflushed ≡ remove seq w.unflushed
unfolding sync_log sync
sync_log-unflushed sh seq w h = at sh.sync refl
  where
    at : (p : SyncPolicy) → sh.sync ≡ p → (sync_log sh seq w).unflushed ≡ remove seq w.unflushed
    at always e = rw e refl
    at (every_n n) e = false_true (ap is_flushing (sym e) ∙ h)
    at batch e = rw e refl

remove_only : (seq n : ℕ) → remove seq (insert seq n []) ≡ []
unfolding remove insert
remove_only seq n = rw (==_refl seq) refl

module _ (sh : Shared) (recs : List WalRecord) (w : World) (r : Recovers w) where
  log_records-sync : log_records sh recs w ≡ sync_log sh r.seq (append_records r.seq recs w)
  unfolding log_records
  log_records-sync =
      ap
        (λ (o : Option ℕ). elim o [
          | none ↦ w
          | some seq ↦ sync_log sh seq (append_records seq recs w)
        ])
        r.active

  log_records-disk :
      (log_records sh recs w).disk
      ≡ record w.disk { wal_files = insert r.seq (r.log ++ recs) w.disk.wal_files }
  log_records-disk =
      ap (λ (x : World). x.disk) log_records-sync
      ∙ sync_log-disk sh r.seq (append_records r.seq recs w)
      ∙ ap (λ log. record w.disk { wal_files = insert r.seq (log ++ recs) w.disk.wal_files })
          (ap (λ (o : Option (List WalRecord)). elim o [ none ↦ [] | some x ↦ x ]) r.logged)

  log_records-unflushed : is_flushing sh.sync ≡ true → (log_records sh recs w).unflushed ≡ []
  log_records-unflushed h =
      ap (λ (x : World). x.unflushed) log_records-sync
      ∙ sync_log-unflushed sh r.seq (append_records r.seq recs w) h
      ∙ ap (λ (u : Map ℕ ℕ). remove r.seq (insert r.seq (get_or_zero r.seq u + length recs) u))
          r.flushed
      ∙ remove_only r.seq _

logged_files-Restarts :
    (recs : List WalRecord) (w : World) (r : Recovers w) {s : StoreState}
    → replay r.state recs ≡ ok s
    → Restarts
        (record w.disk { wal_files = insert r.seq (r.log ++ recs) w.disk.wal_files })
        s
        r.last
unfolding load_base
logged_files-Restarts recs w r {s = s} done =
    let h : r.restarts.base.manifest.wal_seq < r.seq =
      subst (λ (m : Manifest). m.wal_seq < r.seq) (sym (load_base-manifest w.disk r.restarts.based))
        r.uncovered in
    record {
      base = r.restarts.base;
      based = r.restarts.based;
      replayed =
          replay_files-logged r.seq r.log recs w.disk.wal_files r.restarts.base r.state s
            r.restarts.base.manifest.wal_seq r.last r.newest r.unique r.logged h r.restarts.replayed
            done;
    }

-- What is known of a world's files and logs holds of a world that is this one.
Recovers-parts :
    (w : World) (d : Disk)
    → w.disk ≡ d
    → w.unflushed ≡ []
    → Recovers (record w { disk = d; unflushed = [] })
    → Recovers w
Recovers-parts w d e f r =
    subst (λ x. Recovers (record w { disk = x })) (sym e)
      (subst (λ u. Recovers (record w { disk = d; unflushed = u })) (sym f) r)

-- The records of a write, in the log and in memory, under a policy that flushes.
pub logged-Recovers :
    (sh : Shared) (recs : List WalRecord) (w : World)
    → is_flushing sh.sync ≡ true
    → Recovers w
    → AreWrites w.state recs
    → (t : StoreState) × (replay w.state recs ≡ ok t)
      × Recovers (with_state (log_records sh recs w) t)
logged-Recovers sh recs w p r a =
    let (s, t, done_s, done_t, same) = replay-Sees r.state w.state recs r.same a in
    (
      t,
      done_t,
      Recovers-parts (with_state (log_records sh recs w) t) _ (log_records-disk sh recs w r)
          (log_records-unflushed sh recs w r p)
          (record {
            seq = r.seq;
            log = r.log ++ recs;
            active = ap (λ (l : LogView). l.1.0) (replay-logs_of w.state recs done_t) ∙ r.active;
            logged =
                lookup-insert r.seq r.seq (r.log ++ recs) w.disk.wal_files
                ∙ rw (==_refl r.seq) refl;
            newest =
                insert-AreUpTo r.seq r.seq (r.log ++ recs) w.disk.wal_files (omega arith) r.newest;
            unique = insert-IsUnique r.seq (r.log ++ recs) w.disk.wal_files r.unique;
            uncovered = r.uncovered;
            one_each = replay-IsUnique w.state recs done_t r.one_each;
            flushed = refl;
            state = s;
            last = r.last;
            restarts = logged_files-Restarts recs w r done_s;
            same = same;
          }),
    )

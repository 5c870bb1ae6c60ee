-- ===== src/Store/Open/Fresh.antt =====
-- The store that a start leaves: a second start finds the same.
use hamane_db.Base.{
  ℕ, ◌+◌, max, ◌≤◌, ◌<◌, ◌≡◌, refl, sym, ◌∙◌, ap, subst, true, false, none, some, List, [], ◌∷◌,
  lookup, lookup-insert, insert, insert-IsUnique, IsUnique, nat_eq, if◌then◌else◌, if_either,
  ==_refl, Bool-cases, inl, inr, arith, leb,
}
use hamane_db.Base.Outcome.{Result, ok, err, ok-injective, ◌>>=◌, >>=-eq-ok}
use hamane_db.Manifest.{Manifest}
use hamane_db.Wal.Record.{WalRecord}
use hamane_db.Wal.Commit.{idle_batch}
use hamane_db.Store.State.{StoreState, Disk, current_record}
use hamane_db.Store.Apply.{replay}
use hamane_db.Store.Maintain.{World, newer_files}
use hamane_db.Store.Open.{
  load_base, insert_file, list_wal_files, replay_files, tidied, load_state, initialised, open_store,
}
use hamane_db.Store.Open.Sees.{replay-IsUnique}
use hamane_db.Store.Open.Files.{
  Logs, LogView, replay_files-logs_of, replay-logs_of, AreUpTo, replay_files_rotated,
}
use hamane_db.Store.Open.Survives.{
  load_base-manifest, Restarts, load_state-Restarts, Recovers, insert-AreUpTo, raise-AreUpTo,
}
use hamane_db.Store.Open.Tidy.{tidied_same, AreFound, load_base-tidied, load_base-IsUnique}
use hamane_db.Store.Open.Writes.{above-AreUpTo}

newer_files-insert_file :
    (k : ℕ) (f : ℕ × List WalRecord) (m : Logs)
    → newer_files k (insert_file f m)
      ≡ (if leb f.0 k then newer_files k m else insert_file f (newer_files k m))
unfolding newer_files insert_file
newer_files-insert_file k f [] = ground arith
newer_files-insert_file k f (g ∷ m) = ground (arith, newer_files-insert_file k f m)

newer_files-list_wal_files :
    (k : ℕ) (m : Logs) → list_wal_files (newer_files k m) ≡ newer_files k (list_wal_files m)
unfolding newer_files list_wal_files
newer_files-list_wal_files k [] = refl
newer_files-list_wal_files k (f ∷ m) =
    ground (arith, newer_files-insert_file k f (list_wal_files m), newer_files-list_wal_files k m)

-- The logs that the manifest covers are skipped: without them, the replay is the same.
replay_files-newer_files :
    (k : ℕ) (m : Logs) (s : StoreState) (last : ℕ)
    → s.manifest.wal_seq ≡ k
    → replay_files (newer_files k m) (s, last) ≡ replay_files m (s, last)
unfolding replay_files newer_files
replay_files-newer_files k [] s last e = refl
replay_files-newer_files k ((n, recs) ∷ m) s last e = elim (Bool-cases (leb n k)) [
  | inl old ↦
      let old' : leb n s.manifest.wal_seq ≡ true = ap (leb n) e ∙ old in
      rw (old, old') (replay_files-newer_files k m s last e)
  | inr new ↦
      let new' : leb n s.manifest.wal_seq ≡ false = ap (leb n) e ∙ new in
      rw (new, replay_files, new')
        (through (replay s recs) (λ s' done.
          replay_files-newer_files k m s' (max last n)
            (ap (λ (l : LogView). l.0) (replay-logs_of s recs done) ∙ e)))
]
  where
    through :
        (r : Result StoreState)
        → ((s' : StoreState)
            → r ≡ ok s'
            → replay_files (newer_files k m) (s', max last n) ≡ replay_files m (s', max last n))
        → (r >>= λ s'. replay_files (newer_files k m) (s', max last n))
          ≡ (r >>= λ s'. replay_files m (s', max last n))
    through (err x) h = refl
    through (ok s') h = h s' refl

-- The greatest number that the replay returns is one.
lift-AreUpTo : (n k : ℕ) (m : Logs) → n ≤ k → AreUpTo n m → AreUpTo k m
lift-AreUpTo n k [] h a = tt
lift-AreUpTo n k (f ∷ m) h a = (omega (arith, a.0), lift-AreUpTo n k m h a.1)

replay_files-last :
    (m : Logs) (s : StoreState) (start : ℕ) {acc : StoreState × ℕ}
    → replay_files m (s, start) ≡ ok acc
    → (start ≤ acc.1) × AreUpTo acc.1 (newer_files s.manifest.wal_seq m)
unfolding replay_files newer_files
replay_files-last [] s start e =
    (subst (λ (x : StoreState × ℕ). start ≤ x.1) (ok-injective e) (omega arith), tt)
replay_files-last ((n, recs) ∷ m) s start {acc = acc} e =
    elim (Bool-cases (leb n s.manifest.wal_seq)) [
      | inl old ↦ rw old (replay_files-last m s start (rw old at e))
      | inr new ↦
          let (s1, one, rest) =
            >>=-eq-ok (replay s recs) (λ x. replay_files m (x, max start n)) (rw new at e) in
          let (up, below) = replay_files-last m s1 (max start n) rest in
          let same : s1.manifest.wal_seq ≡ s.manifest.wal_seq =
            ap (λ (l : LogView). l.0) (replay-logs_of s recs one) in
          rw new (
            (omega (arith, up)),
            (omega (arith, up), subst (λ k. AreUpTo acc.1 (newer_files k m)) same below),
          )
    ]

insert_file-AreUpTo :
    (n : ℕ) (f : ℕ × List WalRecord) (m : Logs)
    → AreUpTo n (insert_file f m)
    → (f.0 ≤ n) × AreUpTo n m
unfolding insert_file
insert_file-AreUpTo n f [] a = a
insert_file-AreUpTo n f (g ∷ m) a = elim (Bool-cases (leb f.0 g.0)) [
  | inl first ↦ rw first at a
  | inr later ↦
      let b : AreUpTo n (g ∷ insert_file f m) = rw later at a in
      let (h, c) = insert_file-AreUpTo n f m b.1 in (h, (b.0, c))
]

list_wal_files-AreUpTo : (n : ℕ) (m : Logs) → AreUpTo n (list_wal_files m) → AreUpTo n m
unfolding list_wal_files
list_wal_files-AreUpTo n [] a = tt
list_wal_files-AreUpTo n (f ∷ m) a =
    let (h, b) = insert_file-AreUpTo n f (list_wal_files m) a in (h, list_wal_files-AreUpTo n m b)

newer_files_absent : (j k : ℕ) (m : Logs) → lookup j m ≡ none → lookup j (newer_files k m) ≡ none
unfolding newer_files lookup
newer_files_absent j k [] e = refl
newer_files_absent j k ((n, recs) ∷ m) e = ground (arith, newer_files_absent j k m)

newer_files-IsUnique : (k : ℕ) (m : Logs) → IsUnique m → IsUnique (newer_files k m)
unfolding newer_files
newer_files-IsUnique k [] u = tt
newer_files-IsUnique k ((n, recs) ∷ m) u =
    if_either IsUnique (leb n k) (newer_files-IsUnique k m u.1)
      (newer_files_absent n k m u.0, newer_files-IsUnique k m u.1)

-- A second start from the files that a start leaves.
pub tidied-Restarts :
    (d : Disk) (s : StoreState) (last : ℕ)
    → AreFound d.manifest d.manifest.collections
    → Restarts d s last
    → Restarts (tidied d.manifest d) s last
unfolding tidied
tidied-Restarts d s last found r =
    let covered : r.base.manifest.wal_seq ≡ d.manifest.wal_seq =
      ap (λ (m : Manifest). m.wal_seq) (load_base-manifest d r.based) in
    record {
      base = r.base;
      based = load_base-tidied d found ∙ r.based;
      replayed =
          ap (λ m. replay_files m (r.base, r.base.manifest.wal_seq))
            (newer_files-list_wal_files d.manifest.wal_seq d.wal_files)
          ∙ replay_files-newer_files d.manifest.wal_seq (list_wal_files d.wal_files) r.base
              r.base.manifest.wal_seq covered
          ∙ r.replayed;
    }

-- The store that a start opens.
abbrev opened : StoreState → ℕ → Disk → World
opened s last d = record {
  state = record s { wal = some (last + 1) };
  disk = record d { wal_files = insert (last + 1) [] d.wal_files };
  batch_state = idle_batch;
  unsynced = 0;
  unflushed = [];
}

opened-Recovers :
    (d : Disk) (s : StoreState) (last : ℕ)
    → Restarts d s last
    → IsUnique d.wal_files
    → AreUpTo last d.wal_files
    → d.manifest.wal_seq ≤ last
    → IsUnique s.collections
    → Recovers (opened s last d)
unfolding current_record load_base
opened-Recovers d s last r unique newest covered one_each =
    let next = last + 1 in
    let h : r.base.manifest.wal_seq < next =
      subst (λ (m : Manifest). m.wal_seq < next) (sym (load_base-manifest d r.based))
        (omega (arith, covered)) in
    record {
      seq = next;
      log = [];
      active = refl;
      logged = lookup-insert next next [] d.wal_files ∙ rw (==_refl next) refl;
      newest =
          insert-AreUpTo next next [] d.wal_files (omega arith)
            (raise-AreUpTo last d.wal_files newest);
      unique = insert-IsUnique next [] d.wal_files unique;
      uncovered = omega (arith, covered);
      flushed = refl;
      one_each = one_each;
      state = s;
      last = max last next;
      restarts = record {
        base = r.base;
        based = r.based;
        replayed =
            replay_files_rotated next d.wal_files r.base s r.base.manifest.wal_seq last
              (raise-AreUpTo last d.wal_files newest) unique (above-AreUpTo last d.wal_files newest)
              h r.replayed;
      };
      same = record { reads = λ k j. refl; there = λ k. refl };
    }

replay_files-IsUnique :
    (m : Logs) (s : StoreState) (start : ℕ) {acc : StoreState × ℕ}
    → replay_files m (s, start) ≡ ok acc
    → IsUnique s.collections
    → IsUnique acc.0.collections
unfolding replay_files
replay_files-IsUnique [] s start e u =
    subst (λ (x : StoreState × ℕ). IsUnique x.0.collections) (ok-injective e) u
replay_files-IsUnique ((n, recs) ∷ m) s start e u = elim (Bool-cases (leb n s.manifest.wal_seq)) [
  | inl old ↦ replay_files-IsUnique m s start (rw old at e) u
  | inr new ↦
      let (s1, one, rest) =
        >>=-eq-ok (replay s recs) (λ x. replay_files m (x, max start n)) (rw new at e) in
      replay_files-IsUnique m s1 (max start n) rest (replay-IsUnique s recs one u)
]

loaded_manifest :
    (d : Disk) (s : StoreState) (last : ℕ)
    → Restarts d s last
    → (s.manifest.wal_seq ≡ d.manifest.wal_seq) × (s.manifest.collections ≡ d.manifest.collections)
loaded_manifest d s last r =
    let replayed =
      replay_files-logs_of (list_wal_files d.wal_files) r.base r.base.manifest.wal_seq r.replayed in
    let based = load_base-manifest d r.based in
    (
      ap (λ (l : LogView). l.0) replayed ∙ ap (λ (m : Manifest). m.wal_seq) based,
      ap (λ (l : LogView). l.1.1) replayed ∙ ap (λ (m : Manifest). m.collections) based,
    )

-- No log has two files, and no collection has two entries in the manifest.
pub record IsStartable (d : Disk) : Type 0 where
  pub logs : IsUnique d.wal_files
  pub entries : AreFound d.manifest d.manifest.collections

restarted-Recovers :
    (d : Disk) (s : StoreState) (last : ℕ)
    → Restarts d s last
    → IsStartable d
    → Recovers (opened s last (tidied d.manifest d))
unfolding tidied
restarted-Recovers d s last r startable =
    let covered : r.base.manifest.wal_seq ≡ d.manifest.wal_seq =
      ap (λ (m : Manifest). m.wal_seq) (load_base-manifest d r.based) in
    let (up, below) =
      replay_files-last (list_wal_files d.wal_files) r.base r.base.manifest.wal_seq r.replayed in
    opened-Recovers (tidied d.manifest d) s last (tidied-Restarts d s last startable.entries r)
      (newer_files-IsUnique d.manifest.wal_seq d.wal_files startable.logs)
      (list_wal_files-AreUpTo last (newer_files d.manifest.wal_seq d.wal_files) (
        subst (AreUpTo last)
          (ap (λ k. newer_files k (list_wal_files d.wal_files)) covered
            ∙ sym (newer_files-list_wal_files d.manifest.wal_seq d.wal_files))
          below))
      (omega (arith, covered, up))
      (replay_files-IsUnique (list_wal_files d.wal_files) r.base r.base.manifest.wal_seq r.replayed
        (load_base-IsUnique d r.based))

-- The store that is opened from a directory, where no collection has two entries in the manifest
-- and no log two files, is one that a restart finds as it is: after a crash at once, the next start
-- reads the same collections with the same current record for each id, although the first start
-- removed the covered logs and the segments that the manifest does not name.
pub open_store-Recovers :
    (d : Disk) (w : World) → IsStartable d → open_store (some d) ≡ ok w → Recovers w
unfolding open_store initialised
open_store-Recovers d w startable done =
    let (((s, last), d'), read, end) = >>=-eq-ok (load_state d) _ done in
    let (r, files) = load_state-Restarts d d' s last read in
    let (same_seq, same_cols) = loaded_manifest d s last r in
    let tidy : d' ≡ tidied d.manifest d =
      files ∙ tidied_same s.manifest d.manifest d same_seq same_cols in
    subst Recovers (ap (opened s last) (sym tidy) ∙ ok-injective end)
      (restarted-Recovers d s last r startable)

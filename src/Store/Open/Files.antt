-- ===== src/Store/Open/Files.antt =====
-- The logs in the order of their numbers, and a record that is added to the last.
use hamane_db.Base.{
  ℕ, max, ◌≤◌, ◌<◌, ◌≡◌, refl, sym, ◌∙◌, ap, subst, true, false, Option, none, some, List, [], ◌∷◌,
  ◌++◌, Map, lookup, insert, remove, remove_absent, IsUnique, nat_eq, leb, ◌==◌, ==_iff, Bool-cases,
  inl, inr, All, arith,
}
use hamane_db.Base.Outcome.{Result, ok, err, ok-injective, ◌>>=◌, >>=-eq-ok}
use hamane_db.Manifest.{CollectionEntry}
use hamane_db.Wal.Record.{
  WalRecord, upsert, delete, create_collection, drop_collection, rename_collection,
  swap_collection_names, update_meta,
}
use hamane_db.Store.State.{StoreState}
use hamane_db.Store.Apply.{
  apply_upsert, apply_delete, apply_update_meta, apply_rename, apply_swap, apply_create, apply_drop,
  swap_names, apply_record, replay,
}
use hamane_db.Store.Open.Sees.{replay-append}
use hamane_db.Store.Open.{insert_file, list_wal_files, replay_files}

-- The files of the store, by number.
abbrev pub Logs : Type 0
Logs = Map ℕ (List WalRecord)

abbrev pub AreBelow : ℕ → Logs → Type 0
AreBelow n m = All (λ (f : ℕ × List WalRecord). f.0 < n) m

abbrev pub AreUpTo : ℕ → Logs → Type 0
AreUpTo n m = All (λ (f : ℕ × List WalRecord). f.0 ≤ n) m

insert_file_last :
    (n : ℕ) (recs : List WalRecord) (m : Logs)
    → AreBelow n m
    → insert_file (n, recs) m ≡ m ++ ((n, recs) ∷ [])
unfolding insert_file
insert_file_last n recs [] h = refl
insert_file_last n recs (f ∷ m) h = ground (arith, insert_file_last n recs m h.1, h.0)

insert_file-AreBelow :
    (n : ℕ) (f : ℕ × List WalRecord) (m : Logs)
    → f.0 < n
    → AreBelow n m
    → AreBelow n (insert_file f m)
unfolding insert_file
insert_file-AreBelow n f [] h a = (h, tt)
insert_file-AreBelow n f (g ∷ m) h a = elim (Bool-cases (leb f.0 g.0)) [
  | inl first ↦ rw first (h, a)
  | inr later ↦ rw later (a.0, insert_file-AreBelow n f m h a.1)
]

list_wal_files-AreBelow : (n : ℕ) (m : Logs) → AreBelow n m → AreBelow n (list_wal_files m)
unfolding list_wal_files
list_wal_files-AreBelow n [] a = tt
list_wal_files-AreBelow n (f ∷ m) a =
    insert_file-AreBelow n f (list_wal_files m) a.0 (list_wal_files-AreBelow n m a.1)

insert_file-append :
    (f : ℕ × List WalRecord) (n : ℕ) (recs : List WalRecord) (m : Logs)
    → f.0 < n
    → insert_file f (m ++ ((n, recs) ∷ [])) ≡ insert_file f m ++ ((n, recs) ∷ [])
unfolding insert_file
insert_file-append f n recs [] h = ground arith
insert_file-append f n recs (g ∷ m) h = ground (arith, insert_file-append f n recs m h)

remove-AreBelow : (n : ℕ) (m : Logs) → AreUpTo n m → AreBelow n (remove n m)
unfolding remove
remove-AreBelow n [] a = tt
remove-AreBelow n ((k, recs) ∷ m) a = elim (Bool-cases (k == n)) [
  | inl same ↦ rw same (remove-AreBelow n m a.1)
  | inr other ↦ rw other (ground (arith, a.0, ==_iff k n), remove-AreBelow n m a.1)
]

-- A file with the greatest number comes last, whether it is new or replaces one.
pub list_wal_files-insert :
    (n : ℕ) (recs : List WalRecord) (m : Logs)
    → AreUpTo n m
    → IsUnique m
    → list_wal_files (insert n recs m) ≡ list_wal_files (remove n m) ++ ((n, recs) ∷ [])
unfolding list_wal_files insert remove
list_wal_files-insert n recs [] a u = unfold insert_file in refl
list_wal_files-insert n recs ((k, old) ∷ m) a u = elim (Bool-cases (k == n)) [
  | inl same ↦ rw same (
      ap (λ l. insert_file (n, recs) (list_wal_files l)) (sym (absent same))
      ∙ insert_file_last n recs (list_wal_files (remove n m))
          (list_wal_files-AreBelow n (remove n m) (remove-AreBelow n m a.1)))
  | inr other ↦ rw other (
      ap (insert_file (k, old)) (list_wal_files-insert n recs m a.1 u.1)
      ∙ insert_file-append (k, old) n recs (list_wal_files (remove n m))
          (ground (arith, a.0, ==_iff k n)))
]
  where
    absent : (k == n) ≡ true → remove n m ≡ m
    absent same = remove_absent n m (subst (λ x. lookup x m ≡ none) ((==_iff k n).0 same) u.0)

insert_same : (k : ℕ) (x : List WalRecord) (l : Logs) → lookup k l ≡ some x → insert k x l ≡ l
unfolding insert lookup
insert_same k x [] f = cc
insert_same k x ((j, y) ∷ l) f = ground (arith, insert_same k x l, ==_iff j k, f)

-- The file that is there comes last too.
pub list_wal_files_last :
    (n : ℕ) (recs : List WalRecord) (m : Logs)
    → AreUpTo n m
    → IsUnique m
    → lookup n m ≡ some recs
    → list_wal_files m ≡ list_wal_files (remove n m) ++ ((n, recs) ∷ [])
list_wal_files_last n recs m a u e =
    ap list_wal_files (sym (insert_same n recs m e)) ∙ list_wal_files-insert n recs m a u

pub replay_files-append :
    (m l : Logs) (acc : StoreState × ℕ)
    → replay_files (m ++ l) acc ≡ (replay_files m acc >>= λ acc'. replay_files l acc')
unfolding replay_files
replay_files-append [] l acc = refl
replay_files-append ((n, recs) ∷ m) l (s, max_seq) = elim (Bool-cases (leb n s.manifest.wal_seq)) [
  | inl old ↦ rw old (replay_files-append m l (s, max_seq))
  | inr new ↦ rw new (through (replay s recs) (λ s'. replay_files-append m l (s', max max_seq n)))
]
  where
    through :
        (r : Result StoreState)
        → ((s' : StoreState)
            → replay_files (m ++ l) (s', max max_seq n)
              ≡ (replay_files m (s', max max_seq n) >>= λ acc'. replay_files l acc'))
        → (r >>= λ s'. replay_files (m ++ l) (s', max max_seq n))
          ≡ ((r >>= λ s'. replay_files m (s', max max_seq n)) >>= λ acc'. replay_files l acc')
    through (err e) h = refl
    through (ok s') h = h s'

-- Which logs the manifest covers, the active log, and the collections of the manifest.
abbrev pub LogView : Type 0
LogView = ℕ × (Option ℕ × List CollectionEntry)

abbrev pub logs_of : StoreState → LogView
logs_of s = (s.manifest.wal_seq, (s.wal, s.manifest.collections))

-- No record changes them.
apply_record-logs_of :
    (s : StoreState) (rec : WalRecord) {s' : StoreState}
    → apply_record s rec ≡ ok s'
    → logs_of s' ≡ logs_of s
unfolding apply_record
apply_record-logs_of s (upsert cid id vector metadata) e = unfold apply_upsert in ground (arith, e)
apply_record-logs_of s (delete cid id) e = unfold apply_delete in ground (arith, e)
apply_record-logs_of s (update_meta cid id metadata) e =
    unfold apply_update_meta in ground (arith, e)
apply_record-logs_of s (create_collection cid name dim metric) e =
    unfold apply_create in ap logs_of (sym (ok-injective e))
apply_record-logs_of s (drop_collection cid) e = unfold apply_drop in ground (arith, e)
apply_record-logs_of s (rename_collection cid name) e = unfold apply_rename in ground (arith, e)
apply_record-logs_of s (swap_collection_names a b) e =
    unfold apply_swap swap_names in ground (arith, e)

pub replay-logs_of :
    (s : StoreState) (recs : List WalRecord) {s' : StoreState}
    → replay s recs ≡ ok s'
    → logs_of s' ≡ logs_of s
unfolding replay
replay-logs_of s [] e = ap logs_of (sym (ok-injective e))
replay-logs_of s (rec ∷ recs) e =
    let (s1, one, rest) = >>=-eq-ok (apply_record s rec) (λ x. replay x recs) e in
    replay-logs_of s1 recs rest ∙ apply_record-logs_of s rec one

pub replay_files-logs_of :
    (m : Logs) (s : StoreState) (max_seq : ℕ) {acc : StoreState × ℕ}
    → replay_files m (s, max_seq) ≡ ok acc
    → logs_of acc.0 ≡ logs_of s
unfolding replay_files
replay_files-logs_of [] s max_seq e =
    ap (λ (x : StoreState × ℕ). logs_of x.0) (sym (ok-injective e))
replay_files-logs_of ((n, recs) ∷ m) s max_seq e = elim (Bool-cases (leb n s.manifest.wal_seq)) [
  | inl old ↦ replay_files-logs_of m s max_seq (rw old at e)
  | inr new ↦
      let (s1, one, rest) =
        >>=-eq-ok (replay s recs) (λ x. replay_files m (x, max max_seq n)) (rw new at e) in
      replay_files-logs_of m s1 (max max_seq n) rest ∙ replay-logs_of s recs one
]

pub replay_files-wal_seq :
    (m : Logs) (s : StoreState) (max_seq : ℕ) {acc : StoreState × ℕ}
    → replay_files m (s, max_seq) ≡ ok acc
    → acc.0.manifest.wal_seq ≡ s.manifest.wal_seq
replay_files-wal_seq m s max_seq e = ap (λ (l : LogView). l.0) (replay_files-logs_of m s max_seq e)

-- A log that the manifest does not cover, replayed.
pub replay_files_one :
    (n : ℕ) (recs : List WalRecord) (s : StoreState) (max_seq : ℕ)
    → s.manifest.wal_seq < n
    → replay_files ((n, recs) ∷ []) (s, max_seq) ≡ (replay s recs >>= λ s'. ok (s', max max_seq n))
unfolding replay_files
replay_files_one n recs s max_seq h =
    let new : leb n s.manifest.wal_seq ≡ false = ground arith in rw new refl

-- What is added to the newest log is replayed after all that is there.
pub replay_files-logged :
    (n : ℕ) (old recs : List WalRecord) (m : Logs) (base s s' : StoreState) (start last : ℕ)
    → AreUpTo n m
    → IsUnique m
    → lookup n m ≡ some old
    → base.manifest.wal_seq < n
    → replay_files (list_wal_files m) (base, start) ≡ ok (s, last)
    → replay s recs ≡ ok s'
    → replay_files (list_wal_files (insert n (old ++ recs) m)) (base, start) ≡ ok (s', last)
replay_files-logged n old recs m base s s' start last a u e h done more =
    let split =
      >>=-eq-ok (replay_files (list_wal_files (remove n m)) (base, start))
        (λ acc. replay_files ((n, old) ∷ []) acc)
        (sym (replay_files-append (list_wal_files (remove n m)) ((n, old) ∷ []) (base, start))
          ∙ ap (λ l. replay_files l (base, start)) (sym (list_wal_files_last n old m a u e))
          ∙ done) in
    let ((s0, m0), before, whole) = split in
    let h0 : s0.manifest.wal_seq < n =
      subst (λ k. k < n)
        (sym (replay_files-wal_seq (list_wal_files (remove n m)) base start before)) h in
    let (s1, was, end) =
      >>=-eq-ok (replay s0 old) (λ x. ok (x, max m0 n))
        (sym (replay_files_one n old s0 m0 h0) ∙ whole) in
    let state : s1 ≡ s = ap (λ (x : StoreState × ℕ). x.0) (ok-injective end) in
    let seq : max m0 n ≡ last = ap (λ (x : StoreState × ℕ). x.1) (ok-injective end) in
    let longer : replay s0 (old ++ recs) ≡ ok s' =
      replay-append s0 old recs
      ∙ ap (λ r. r >>= λ x. replay x recs) was
      ∙ ap (λ x. replay x recs) state
      ∙ more in
    ap (λ l. replay_files l (base, start)) (list_wal_files-insert n (old ++ recs) m a u)
    ∙ replay_files-append (list_wal_files (remove n m)) ((n, old ++ recs) ∷ []) (base, start)
    ∙ ap (λ r. r >>= λ acc. replay_files ((n, old ++ recs) ∷ []) acc) before
    ∙ replay_files_one n (old ++ recs) s0 m0 h0
    ∙ ap (λ r. r >>= λ x. ok (x, max m0 n)) longer
    ∙ ap (λ k. ok (s', k)) seq

-- A new empty log adds nothing.
pub replay_files_rotated :
    (n : ℕ) (m : Logs) (base s : StoreState) (start last : ℕ)
    → AreUpTo n m
    → IsUnique m
    → lookup n m ≡ none
    → base.manifest.wal_seq < n
    → replay_files (list_wal_files m) (base, start) ≡ ok (s, last)
    → replay_files (list_wal_files (insert n [] m)) (base, start) ≡ ok (s, max last n)
replay_files_rotated n m base s start last a u e h done =
    let h0 : s.manifest.wal_seq < n =
      subst (λ k. k < n) (sym (replay_files-wal_seq (list_wal_files m) base start done)) h in
    ap (λ l. replay_files l (base, start))
      (list_wal_files-insert n [] m a u
        ∙ ap (λ l. list_wal_files l ++ ((n, []) ∷ [])) (remove_absent n m e))
    ∙ replay_files-append (list_wal_files m) ((n, []) ∷ []) (base, start)
    ∙ ap (λ r. r >>= λ acc. replay_files ((n, []) ∷ []) acc) done
    ∙ replay_files_one n [] s last h0
    ∙ (unfold replay in refl)

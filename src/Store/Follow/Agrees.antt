-- ===== src/Store/Follow/Agrees.antt =====
-- A follower applies what a restart replays.
use hamane_db.Base.{
  ℕ, zero, suc, ◌+◌, ◌≡◌, refl, sym, ◌∙◌, ap, subst, List, [], ◌∷◌, ◌++◌, append-nil, append_assoc,
  length, drop, inl, inr, true,
}
use mathlib.Core.Path.{ap₂}
use hamane_db.Base.Outcome.{ok, ok-injective, >>=-eq-ok}
use hamane_db.Format.Frame.{read_frame}
use hamane_db.Wal.Record.{WalRecord, decode}
use hamane_db.Wal.File.{WalReplay, read_frames}
use hamane_db.Wal.File.Stop.{Frame-cases}
use hamane_db.Store.State.{StoreState}
use hamane_db.Store.Apply.{apply_record, replay}
use hamane_db.Store.Maintain.{World, Shared}
use hamane_db.Store.Api.{with_state}
use hamane_db.Store.Follow.{apply_frames, apply_wal_frames}

module _ (crc32c : List ℕ → ℕ) where
  -- What a reading has added to the records that it began with.
  record Added (acc : List WalRecord) (rep : WalReplay) (P : List WalRecord → Type 0) : Type 0 where
    recs : List WalRecord
    all : rep.records ≡ acc ++ recs
    holds : P recs

  apply_frames-replay :
      (fuel : ℕ) (bytes : List ℕ) (pos : ℕ) (acc : List WalRecord) (rep : WalReplay)
      → read_frames crc32c fuel bytes pos acc ≡ ok rep
      → Added acc rep (λ recs.
        (s s' : StoreState)
        → replay s recs ≡ ok s'
        → apply_frames crc32c fuel bytes pos s ≡ ok (rep.valid_len, s'))
  unfolding read_frames apply_frames replay
  apply_frames-replay zero bytes pos acc rep done = record {
    recs = [];
    all = ap (λ (r : WalReplay). r.records) (sym (ok-injective done)) ∙ sym (append-nil acc);
    holds = λ s s' h.
        ap₂ (λ n x. ok (n, x)) (ap (λ (r : WalReplay). r.valid_len) (ok-injective done))
          (ok-injective h);
  }
  apply_frames-replay (suc fuel) bytes pos acc rep done =
      elim (Frame-cases (read_frame crc32c (drop pos bytes))) [
        | inl e ↦
            let is : record { records = acc; valid_len = pos } ≡ rep =
              ok-injective (rw (read_frames, e) at done) in
            record {
              recs = [];
              all = ap (λ (r : WalReplay). r.records) (sym is) ∙ sym (append-nil acc);
              holds = λ s s' h.
                  rw (apply_frames, e)
                    (ap₂ (λ n x. ok (n, x)) (ap (λ (r : WalReplay). r.valid_len) is)
                      (ok-injective h));
            }
        | inr (body, consumed, e) ↦
            let (rec, decoded, rest) = >>=-eq-ok (decode body) _ (rw (read_frames, e) at done) in
            let later =
              apply_frames-replay fuel bytes (pos + consumed) (acc ++ (rec ∷ [])) rep rest in
            record {
              recs = rec ∷ later.recs;
              all = later.all ∙ append_assoc acc (rec ∷ []) later.recs;
              holds = λ s s' h.
                  let (s1, applied, after) = >>=-eq-ok (apply_record s rec) _ h in
                  rw (apply_frames, e, decoded, applied) (later.holds s1 s' after);
            }
      ]

  -- A follower that is fed a piece of a log takes exactly the whole frames that a reading of the
  -- same bytes finds, and reaches the state that a replay of their records reaches, where the
  -- reading and the replay succeed.
  pub apply_wal_frames-replay :
      (sh : Shared) (bytes : List ℕ) (w : World) (rep : WalReplay) (s' : StoreState)
      → sh.follower ≡ true
      → read_frames crc32c (suc (length bytes)) bytes 0 [] ≡ ok rep
      → replay w.state rep.records ≡ ok s'
      → apply_wal_frames crc32c sh bytes w ≡ ok (rep.valid_len, with_state w s')
  unfolding apply_wal_frames
  apply_wal_frames-replay sh bytes w rep s' f read replayed =
      let added = apply_frames-replay (suc (length bytes)) bytes 0 [] rep read in
      let done =
        added.holds w.state s' (subst (λ recs. replay w.state recs ≡ ok s') added.all replayed) in
      rw (f, done) refl

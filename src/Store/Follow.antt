-- ===== src/Store/Follow.antt =====
-- A follower's feed of log frames: `apply_wal_frames` of store.rs.
pub mod Agrees
use hamane_db.Base.{ℕ, zero, suc, ◌+◌, not, List, length, drop}
use hamane_db.Base.Outcome.{Result, ok, err, invalid_config, ◌>>=◌, ◌>>◌, ensure}
use hamane_db.Format.Frame.{complete, torn, read_frame}
use hamane_db.Wal.Record.{decode}
use hamane_db.Store.State.{StoreState}
use hamane_db.Store.Apply.{apply_record}
use hamane_db.Store.Maintain.{World, Shared}
use hamane_db.Store.Api.{with_state}

module _ (crc32c : List ℕ → ℕ) where
  -- The loop, with the bytes that are applied so far. A frame has nine bytes at least.
  unfoldable pub apply_frames : ℕ → List ℕ → ℕ → StoreState → Result (ℕ × StoreState)
  apply_frames zero bytes pos s = ok (pos, s)
  apply_frames (suc fuel) bytes pos s = elim (read_frame crc32c (drop pos bytes)) [
    | torn ↦ ok (pos, s)
    | complete body consumed ↦ (do
      rec ← decode body
      s' ← apply_record s rec
      apply_frames fuel bytes (pos + consumed) s')
  ]

  unfoldable pub apply_wal_frames : Shared → List ℕ → World → Result (ℕ × World)
  unfolding apply_frames
  apply_wal_frames sh bytes w = do
    ensure sh.follower invalid_config
    (pos, s) ← apply_frames (suc (length bytes)) bytes 0 w.state
    ok (pos, with_state w s)

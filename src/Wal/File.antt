-- ===== src/Wal/File.antt =====
-- A WAL file of wal.rs: `WalWriter::create`, `WalWriter::append`, and `WalReader::read_all`.
-- The writer's file is the list of its bytes.
pub mod Recovery
pub mod Stop
use hamane_db.Base.{
  ℕ, zero, suc, ◌+◌, ◌<◌, List, [], ◌∷◌, ◌++◌, ltb, not, ◌||◌, if◌then◌else◌, length, take, drop,
  eq_bytes,
}
use hamane_db.Base.Outcome.{Result, ok, err, corrupted, ◌>>=◌}
use hamane_db.Format.Frame.{Frame, complete, torn, put_frame, read_frame}
use hamane_db.Wal.Record.{WalRecord, encode, decode}

-- "HAMANEW\x01"
abbrev pub magic_wal : List ℕ
magic_wal = b'H' ∷ b'A' ∷ b'M' ∷ b'A' ∷ b'N' ∷ b'E' ∷ b'W' ∷ 1 ∷ []

-- `WalReplay`: the records, and the end of the complete frames.
pub record WalReplay : Type 0 where
  pub records : List WalRecord
  pub valid_len : ℕ

module _ (crc32c : List ℕ → ℕ) where
  unfoldable pub append : List ℕ → WalRecord → List ℕ
  append file rec = file ++ put_frame crc32c [] (encode rec)

  unfoldable pub append_all : List ℕ → List WalRecord → List ℕ
  append_all file [] = file
  append_all file (rec ∷ recs) = append_all (append file rec) recs

  -- `while let Frame::Ok { body, consumed } = read_frame(&buf[pos..])`. A frame has nine bytes at
  -- least, so that as many rounds as the buffer has bytes are enough.
  unfoldable pub read_frames : ℕ → List ℕ → ℕ → List WalRecord → Result WalReplay
  read_frames zero buf pos records = ok (record { records = records; valid_len = pos })
  read_frames (suc fuel) buf pos records = elim (read_frame crc32c (drop pos buf)) [
    | torn ↦ ok (record { records = records; valid_len = pos })
    | complete body consumed ↦ (do
      rec ← decode body
      read_frames fuel buf (pos + consumed) (records ++ (rec ∷ [])))
  ]

  unfoldable pub read_all : List ℕ → Result WalReplay
  read_all buf =
      if ltb (length buf) (length magic_wal)
        || not (eq_bytes (take (length magic_wal) buf) magic_wal)
      then err corrupted
      else read_frames (suc (length buf)) buf (length magic_wal) []

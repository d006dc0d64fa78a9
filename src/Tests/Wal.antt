-- ===== src/Tests/Wal.antt =====
-- storage/tdb_wal.c on concrete inputs: a log in a list of bytes.
use transaction_db.Base.{
  ℕ, zero, suc, ◌≡◌, refl, Bool, true, none, some, List, [], ◌∷◌, ◌++◌, arith, length, inl, inr,
  get_or,
}
use transaction_db.Status.{ok}
use transaction_db.Storage.File.Memory.{content, IsHandle, mem_write-overwrite}
use transaction_db.Storage.File.{MemHandle, mem_write, FileOps, read_bytes, overwrite}
use transaction_db.Storage.Wal.{Wal, header_body, header_bytes}
use transaction_db.Storage.Wal.Append.{wal_append, committed_size}
use transaction_db.Storage.Wal.Append.Writes.{IsWritable, open_log}
use transaction_db.Storage.Wal.Append.Durable.{frame_for, IsOpen, wal_read_page-IsOpen}
use transaction_db.Storage.Wal.Append.Commit.{wal_append-IsDurable}
use transaction_db.Storage.Wal.Format.{Logged, Salts, log_bytes, IsReadable}
use transaction_db.Storage.Wal.Read.{wal_read_page}
use transaction_db.Storage.Wal.Recover.{recover, wal_open}
use transaction_db.Storage.Wal.Recover.Log.{first_log}
use transaction_db.Storage.Wal.Recover.Start.{IsLog}
use transaction_db.Storage.Wal.Recover.Map.{latest_slot, latest_page}
use transaction_db.Storage.Wal.Recover.Durable.{recover-log_bytes, HasRecovered}

abbrev list_file : FileOps
list_file = record {
  State = List ℕ;
  read = λ f n off. inr (read_bytes f n off);
  write = λ f p off. (none, overwrite f off p);
  sync = λ f. (none, f);
  truncate = λ f n. (none, f);
  file_size = λ f. inr (length f);
}

abbrev list_readable : IsReadable list_file
list_readable = record { bytes = λ f. f; reads = λ f n off. refl; sized = λ f. refl }

abbrev list_writable : IsWritable list_file list_readable
list_writable = record { granted = λ f p off. refl; written = λ f p off h. refl }

abbrev log_salts : Salts
log_salts = record { salt1 = 11; salt2 = 12 }

-- A commit of page 1, and an image of page 2 that is not committed.
abbrev two_frames : List Logged
two_frames =
    record { pgno = 1; size = 3; page = 7 ∷ 8 ∷ [] }
    ∷ record { pgno = 2; size = 0; page = 9 ∷ 9 ∷ [] }
    ∷ []

abbrev no_log : List ℕ → Wal list_file
no_log file = record {
  file = file;
  page_size = 2;
  version = 1;
  salt1 = 0;
  salt2 = 0;
  ckpt_seq = 0;
  nframe = 0;
  db_size = 0;
  slots = [];
  offsets = [];
  end_off = 32;
}

abbrev log_file : List ℕ → List ℕ
log_file tail =
    header_bytes list_file (first_log list_file (no_log []) log_salts 4)
    ++ (log_bytes log_salts 11 two_frames ++ tail)

-- A log with a torn frame at its end, not yet recovered.
abbrev torn_log : Wal list_file
torn_log = no_log (log_file (1 ∷ 2 ∷ 3 ∷ []))

torn_log-IsLog : IsLog list_file list_readable torn_log log_salts 4 two_frames (1 ∷ 2 ∷ 3 ∷ [])
unfolding header_bytes header_body
torn_log-IsLog = record {
  salt1_fits = omega arith;
  salt2_fits = omega arith;
  seq_fits = omega arith;
  small = omega arith;
  frames = ((omega arith, omega arith, refl), ((omega arith, omega arith, refl), tt));
  pages = (omega arith, (omega arith, tt));
  torn = inl (omega arith);
  content = refl;
}

recover-log_bytes_example :
    (w' : Wal list_file) × (recover list_file none true torn_log ≡ ok w')
    × HasRecovered list_file none list_readable torn_log log_salts 4 two_frames
        (1 ∷ 2 ∷ 3 ∷ [])
        torn_log-IsLog
        w'
recover-log_bytes_example =
    recover-log_bytes list_file none list_readable torn_log log_salts 4 two_frames (1 ∷ 2 ∷ 3 ∷ [])
      torn_log-IsLog

-- The same log without the torn frame, open.
abbrev whole_log : Wal list_file
whole_log = record (no_log (log_file [])) { nframe = 2; db_size = 3; slots = 0 ∷ 1 ∷ 2 ∷ [] }

whole_slots : (p : ℕ) → get_or {A = ℕ} (0 ∷ 1 ∷ 2 ∷ []) p 0 ≡ latest_slot p 0 0 two_frames
whole_slots zero = refl
whole_slots (suc zero) = refl
whole_slots (suc (suc zero)) = refl
whole_slots (suc (suc (suc p))) = ground arith

whole_log-IsOpen : IsOpen list_file list_readable whole_log log_salts 4 two_frames []
unfolding header_bytes header_body
whole_log-IsOpen = (
  record {
    salt1_fits = omega arith;
    salt2_fits = omega arith;
    seq_fits = omega arith;
    small = omega arith;
    frames = ((omega arith, omega arith, refl), ((omega arith, omega arith, refl), tt));
    pages = (omega arith, (omega arith, tt));
    torn = inl (omega arith);
    content = refl;
  },
  whole_slots,
)

wal_read_page-IsOpen_example :
    wal_read_page list_file none true (open_log list_file whole_log log_salts 4 2) 2
    ≡ inr (some (9 ∷ 9 ∷ []))
wal_read_page-IsOpen_example =
    wal_read_page-IsOpen list_file none list_readable list_writable whole_log log_salts 4 two_frames
      [] whole_log-IsOpen true 2

wal_append-IsDurable_example :
    (w' : Wal list_file) × (w'' : Wal list_file) × (wal_append list_file none true
        (open_log list_file whole_log log_salts 4 2)
        3
        (5 ∷ 6 ∷ [])
        (some 4)
      ≡ ok (none, open_log list_file w' log_salts 4 3))
    × (wal_open list_file none true w'.file w'.page_size ≡ ok w'')
    × (w''.nframe ≡ 3)
    × (w''.db_size ≡ 4)
    × ((mem : Bool) (p : ℕ)
        → wal_read_page list_file none mem w'' p
          ≡ inr (latest_page p none (two_frames ++ (frame_for 3 (5 ∷ 6 ∷ []) (some 4) ∷ []))))
unfolding committed_size
wal_append-IsDurable_example =
    wal_append-IsDurable list_file none list_readable list_writable whole_log log_salts 4 two_frames
      [] whole_log-IsOpen 3 (5 ∷ 6 ∷ []) 4 (omega arith) (omega arith, omega arith, refl)
      (omega arith) (inl (omega arith))

abbrev small_handle : MemHandle
small_handle = record { bytes = 1 ∷ 2 ∷ 3 ∷ []; size = 2 }

mem_write-overwrite_example :
    (h' : MemHandle) × (mem_write (λ n. true) small_handle (5 ∷ 6 ∷ []) 1 ≡ some (none, h'))
    × IsHandle h'
    × (content h' ≡ overwrite (1 ∷ 2 ∷ []) 1 (5 ∷ 6 ∷ []))
mem_write-overwrite_example =
    mem_write-overwrite small_handle (5 ∷ 6 ∷ []) 1 (omega arith) (omega arith) (omega arith)

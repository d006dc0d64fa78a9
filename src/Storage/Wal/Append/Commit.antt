-- ===== src/Storage/Wal/Append/Commit.antt =====
-- A commit survives: the log that is opened on the file after `tdb_wal_append` of a commit frame has it.
use transaction_db.Base.{
  ℕ, ◌+◌, ◌^◌, ◌<◌, ◌≡◌, refl, ap, ◌∙◌, inr, Bool, true, false, Option, none, some, List, [], ◌∷◌,
  ◌++◌, arith, length, drop, ◌==◌,
}
use transaction_db.Status.{ok, ◌>>=◌}
use transaction_db.Storage.File.{FileOps}
use transaction_db.Storage.Compress.{ZstdOps}
use transaction_db.Storage.Wal.{Wal, header_body, header_bytes}
use transaction_db.Storage.Wal.Append.{committed_size, wal_append}
use transaction_db.Storage.Wal.Read.{wal_read_page}
use transaction_db.Storage.Wal.Format.{Logged, IsLogged, Salts, last_seed, IsReadable}
use transaction_db.Storage.Wal.Recover.{recover, fresh_wal, begin_log, wal_open}
use transaction_db.Storage.Wal.Recover.Log.{IsTorn}
use transaction_db.Storage.Wal.Recover.Start.{IsLog}
use transaction_db.Storage.Wal.Recover.Map.{latest_page}
use transaction_db.Storage.Wal.Recover.Durable.{recover-log_bytes}
use transaction_db.Storage.Wal.Append.Writes.{IsWritable, open_log}
use transaction_db.Storage.Wal.Append.Durable.{
  frame_for, IsOpen, wal_append-IsOpen, committed_of-append, last_commit-append, last_size-append,
}

module _ (ops : FileOps) (z : Option ZstdOps) where
  -- The log of the same file, newly opened.
  IsLog-fresh :
      (r : IsReadable ops) (w : Wal ops) (s : Salts) (seq : ℕ) (es : List Logged) (tail : List ℕ)
      → IsLog ops r w s seq es tail
      → IsLog ops r (fresh_wal ops z w.file w.page_size) s seq es tail
  unfolding header_bytes header_body fresh_wal
  IsLog-fresh r w s seq es tail log = record {
    salt1_fits = log.salt1_fits;
    salt2_fits = log.salt2_fits;
    seq_fits = log.seq_fits;
    small = log.small;
    frames = log.frames;
    pages = log.pages;
    torn = log.torn;
    content = log.content;
  }

  wal_open_step :
      (f : ops.State) (n : ℕ) (w : Wal ops)
      → recover ops z true (fresh_wal ops z f n) ≡ ok w
      → 0 < w.nframe
      → wal_open ops z true f n ≡ ok w
  unfolding wal_open begin_log
  wal_open_step f n w e h =
      let some_frame : (w.nframe == 0) ≡ false = ground arith in rw (e, ◌>>=◌) (rw some_frame refl)

  -- Where the file reads and writes its bytes and `w` is an open log of the first version with the
  -- frames `es`, `tdb_wal_append` of a commit frame with the size n > 0, for a page below 2 ^ 31 and
  -- an image of the size of a page, succeeds with memory granted, if what is left behind the new frame
  -- is no valid frame. `tdb_wal_open` on the file as it then is (as after a crash) succeeds, with all
  -- frames and the size n, and `tdb_wal_read_page` gives for every page its last image among `es`
  -- and the new frame, whichever of `es` were committed before.
  pub wal_append-IsDurable :
      (r : IsReadable ops) (wr : IsWritable ops r) (w : Wal ops) (s : Salts) (seq : ℕ)
      (es : List Logged) (tail : List ℕ)
      → IsOpen ops r w s seq es tail
      → (pgno : ℕ) (page : List ℕ) (n : ℕ) → 0 < n
      → IsLogged w.page_size (frame_for pgno page (some n))
      → pgno < 2 ^ 31
      → IsTorn s w.page_size
          (last_seed s s.salt1 (es ++ (frame_for pgno page (some n) ∷ [])))
          (drop w.page_size (drop 24 tail))
      → (w' : Wal ops) × (w'' : Wal ops) × (wal_append ops z true
            (open_log ops w s seq (length es))
            pgno
            page
            (some n)
          ≡ ok (none, open_log ops w' s seq (length es + 1)))
        × (wal_open ops z true w'.file w'.page_size ≡ ok w'')
        × (w''.nframe ≡ length es + 1)
        × (w''.db_size ≡ n)
        × ((mem : Bool) (p : ℕ)
            → wal_read_page ops z mem w'' p
              ≡ inr (latest_page p none (es ++ (frame_for pgno page (some n) ∷ []))))
  unfolding fresh_wal committed_size
  wal_append-IsDurable r wr w s seq es tail log pgno page n positive he hp torn =
      let e : Logged = frame_for pgno page (some n) in
      let fs : List Logged = es ++ (e ∷ []) in
      let (w', appended, open') =
        wal_append-IsOpen ops z r wr w s seq es tail log pgno page (some n) he hp torn in
      let fresh = IsLog-fresh r w' s seq fs (drop w.page_size (drop 24 tail)) open'.0 in
      let (w'', recovered, (count, size, reads)) =
        recover-log_bytes ops z r (fresh_wal ops z w'.file w'.page_size) s seq fs
          (drop w.page_size (drop 24 tail)) fresh in
      let opened =
        wal_open_step w'.file w'.page_size w'' recovered
          (rw (count, last_commit-append 0 0 es e positive) (omega arith)) in
      (
        w',
        w'',
        appended,
        opened,
        count
            ∙ last_commit-append 0 0 es e positive
            ∙ (let none_before : 0 + length es ≡ length es = omega arith in rw none_before refl),
        size ∙ last_size-append 0 es e positive,
        λ mem p.
            reads mem p ∙ ap (λ t. inr (latest_page p none t)) (committed_of-append es e positive),
      )
